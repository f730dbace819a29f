-- ===== src/Tests/Catalog.antt =====
-- The theorems on the snapshot, at concrete inputs.
use s_size_store.Prelude.{
  ◌≡◌, refl, pos, List, [], ◌∷◌, filter, any, take, drop, ◌==◌, int_eq, int_eq,
}
use mathlib.Core.List.{Perm}
use s_size_store.Bytes.{Bytes, codes}
use s_size_store.Models.{Item}
use s_size_store.Catalog.{insert_sorted, before, build, stable_sort, find, partner, query}
use s_size_store.Catalog.Sorted.{stable_sort_correct, IsFalling, same_rank}
use s_size_store.Catalog.Lookups.{build-lookups, first}
use s_size_store.Catalog.Slices.{query-slice, matching}
use s_size_store.Catalog.Tags.{build-all_tags, IsTagSet, has}
use s_size_store.Tests.Sample.{cap_item, sock_item, shop, sample_catalog}

abbrev rows : List Item
rows = cap_item ∷ sock_item ∷ []

stable_sort_correct_example :
    Perm (stable_sort rows) rows
    × IsFalling (stable_sort rows)
    × ((k : Item) → filter (same_rank k) (stable_sort rows) ≡ filter (same_rank k) rows)
stable_sort_correct_example = stable_sort_correct rows

abbrev feed_rows : List Item
feed_rows = sock_item ∷ cap_item ∷ []

build-lookups_example :
    (find (build rows (shop ∷ []) (pos 10)) (pos 8)
      ≡ first (λ it. it.id == pos 8) (stable_sort rows))
    × (partner (build rows (shop ∷ []) (pos 10)) (pos 8) ≡ first (λ p. p.id == pos 8) (shop ∷ []))
build-lookups_example = build-lookups rows (shop ∷ []) (pos 10) (pos 8)

query-slice_example :
    query sample_catalog (codes "new") [] 1 5
    ≡ take 5 (drop 1 (matching (codes "new") [] sample_catalog.items))
query-slice_example = query-slice sample_catalog (codes "new") [] 1 5

build-all_tags_example :
    IsTagSet (build rows [] (pos 10)).all_tags
    × ((t : Bytes) → has t (build rows [] (pos 10)).all_tags ≡ any (λ it. has t it.tags) rows)
build-all_tags_example = build-all_tags rows [] (pos 10)

-- The higher score comes first.
sort_test : stable_sort rows ≡ feed_rows
unfolding stable_sort insert_sorted before
sort_test = refl
