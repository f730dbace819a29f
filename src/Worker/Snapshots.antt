-- ===== src/Worker/Snapshots.antt =====
-- What the snapshots of the database thread hold.
use s_size_store.Prelude.{◌≡◌, ◌∙◌, ap, ℤ, List, map, ◌==◌, int_eq}
use s_size_store.Models.{Item, TsMs}
use s_size_store.Catalog.{build, stable_sort, find}
use s_size_store.Catalog.Sorted.{IsFeedOrder, stable_sort_of_IsFeedOrder}
use s_size_store.Catalog.Lookups.{first, build-lookups}
use s_size_store.Db.Items.{Rows, PartnerRow, load_published_items, list_partners}
use s_size_store.Db.Items.Complete.{IsRowSet, complete_item, load_published_items-complete_item}
use s_size_store.Worker.{snapshot_of}

sorted_rows :
    (rows : Rows)
    → IsRowSet rows.items
    → IsFeedOrder (map (complete_item rows) rows.items)
    → stable_sort (load_published_items rows) ≡ map (complete_item rows) rows.items
sorted_rows rows distinct in_order =
    ap stable_sort (load_published_items-complete_item rows distinct)
    ∙ stable_sort_of_IsFeedOrder (map (complete_item rows) rows.items) in_order

-- If the rows of the items come in feed order, the snapshot shows them in that very order, each with
-- its own children, and looking up an id finds the complete item of the row with the id, or nothing
-- if no row has it.
pub snapshot_of-complete_item :
    (rows : Rows) (partners : List PartnerRow) (now : TsMs) (id : ℤ)
    → IsRowSet rows.items
    → IsFeedOrder (map (complete_item rows) rows.items)
    → ((snapshot_of rows partners now).items ≡ map (complete_item rows) rows.items)
      × (find (snapshot_of rows partners now) id
          ≡ first (λ it. it.id == id) (map (complete_item rows) rows.items))
unfolding snapshot_of build
snapshot_of-complete_item rows partners now id distinct in_order =
    let sorted = sorted_rows rows distinct in_order in
    (
      sorted,
      (build-lookups (load_published_items rows) (list_partners partners) now id).0
          ∙ ap (λ (items : List Item). first (λ it. it.id == id) items) sorted,
    )
