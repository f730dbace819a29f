-- ===== src/Db/Admin/Publishing.antt =====
-- Which items the snapshot shows: the SELECT over `items` of `load_published_items`, and
-- `set_item_status`.
use mathlib.Core.List.{Perm, foldr}
use mathlib.Core.List.Perm
use s_size_store.Prelude.{
  ℤ, ◌≡◌, ◌∙◌, refl, sym, ap, true, false, Bool, ◌&&◌, ◌||◌, List, [], ◌∷◌, map, any, filter,
  Option, none, some, arith, if◌then◌else◌, ◌==◌, ==_iff, int_eq, nat_eq, list_eq,
}
use s_size_store.Bytes.{codes}
use s_size_store.Models.{Item, ItemStatus, status_to_string, TsMs}
use s_size_store.Catalog.{find, stable_sort}
use s_size_store.Catalog.Sorted.{stable_sort-perm}
use s_size_store.Catalog.Lookups.{first, build-lookups}
use s_size_store.Db.Items.{
  Rows, ItemRow, PartnerRow, item_of_row, load_published_items, list_partners,
}
use s_size_store.Db.Items.Complete.{IsRowSet, complete_item, load_published_items-complete_item}
use s_size_store.Db.Admin.{Shelf, has_item, restate, set_item_status}
use s_size_store.Worker.{snapshot_of}

-- What an INSERT of an item keeps of it in its row.
unfoldable pub row_of_item : Item → ItemRow
row_of_item it = record {
  id = it.id;
  title = it.title;
  description = it.description;
  brand = it.brand;
  price_kopek = it.price_kopek;
  old_price_kopek = it.old_price_kopek;
  currency = it.currency;
  partner_id = it.partner_id;
  product_url = it.product_url;
  campaign = it.campaign;
  status = status_to_string it.status;
  score = it.score;
  created_at = it.created_at;
  updated_at = it.updated_at;
  published_at = it.published_at;
}

-- `WHERE status = 'published'`
abbrev pub is_published : Item → Bool
is_published it = status_to_string it.status == codes "published"

-- The rows are those of the published items, in some order, each once as the id is the primary key.
pub record IsSelected (s : Shelf) (rows : List ItemRow) : Type 0 where
  pub selected : Perm rows (map row_of_item (filter is_published s.items))
  pub keyed : IsRowSet rows

any-foldr {ℓ} :
    {A : Type ℓ} (p : A → Bool) (xs : List A) → foldr (λ a found. p a || found) false xs ≡ any p xs
any-foldr p [] = refl
any-foldr p (x ∷ xs) = ap (λ b. p x || b) (any-foldr p xs)

or_swap : (a b c : Bool) → (a || (b || c)) ≡ (b || (a || c))
or_swap a b c = ground arith

any-perm {ℓ} : {A : Type ℓ} (p : A → Bool) (xs ys : List A) → Perm xs ys → any p xs ≡ any p ys
any-perm p xs ys h =
    sym (any-foldr p xs)
    ∙ Perm.foldr-eq (hlevel) (λ a found. p a || found) (λ a b x. or_swap (p a) (p b) x) h false
    ∙ any-foldr p ys

any-map {ℓ κ} :
    {A : Type ℓ} {B : Type κ} (f : A → B) (p : B → Bool) (xs : List A)
    → any p (map f xs) ≡ any (λ a. p (f a)) xs
any-map f p [] = refl
any-map f p (x ∷ xs) = ap (λ b. p (f x) || b) (any-map f p xs)

any-filter {ℓ} :
    {A : Type ℓ} (keep p : A → Bool) (xs : List A)
    → any p (filter keep xs) ≡ any (λ a. p a && keep a) xs
any-filter keep p [] = refl
any-filter keep p (x ∷ xs) = ground (arith, any-filter keep p xs)

abbrev pub is_there {ℓ} : {A : Type ℓ} → Option A → Bool
is_there none = false
is_there (some a) = true

first-any : (p : Item → Bool) (items : List Item) → is_there (first p items) ≡ any p items
first-any p [] = refl
first-any p (it ∷ items) = ground (arith, first-any p items)

-- Is there an item of this id that the shop shows?
abbrev pub is_on_sale : ℤ → Shelf → Bool
is_on_sale id s = any (λ it. it.id == id && is_published it) s.items

complete_any :
    (rows : Rows) (id : ℤ) (rs : List ItemRow)
    → any (λ it. it.id == id) (map (complete_item rows) rs) ≡ any (λ r. r.id == id) rs
unfolding complete_item item_of_row
complete_any rows id rs = any-map (complete_item rows) (λ it. it.id == id) rs

selected_any :
    (id : ℤ) (items : List Item)
    → any (λ r. r.id == id) (map row_of_item (filter is_published items))
      ≡ any (λ it. it.id == id && is_published it) items
unfolding row_of_item
selected_any id items =
    any-map row_of_item (λ r. r.id == id) (filter is_published items)
    ∙ any-filter is_published (λ it. it.id == id) items

-- A snapshot that is made of the rows of the published items finds an id exactly if there is a
-- published item with this id.
pub snapshot_of-is_on_sale :
    (s : Shelf) (rows : Rows) (partners : List PartnerRow) (now : TsMs) (id : ℤ)
    → IsSelected s rows.items
    → is_there (find (snapshot_of rows partners now) id) ≡ is_on_sale id s
unfolding snapshot_of
snapshot_of-is_on_sale s rows partners now id h =
    let items = load_published_items rows in
    ap is_there (build-lookups items (list_partners partners) now id).0
    ∙ first-any (λ it. it.id == id) (stable_sort items)
    ∙ any-perm (λ it. it.id == id) (stable_sort items) items (stable_sort-perm items)
    ∙ ap (any (λ it. it.id == id)) (load_published_items-complete_item rows h.keyed)
    ∙ complete_any rows id rows.items
    ∙ any-perm (λ r. r.id == id) rows.items _ h.selected
    ∙ selected_any id s.items

restate_shown :
    (status : ItemStatus) (now : TsMs) (it : Item)
    → ((restate status now it).id ≡ it.id)
      × (is_published (restate status now it) ≡ (status_to_string status == codes "published"))
unfolding restate
restate_shown status now it = (refl, refl)

restated_any :
    (id j : ℤ) (status : ItemStatus) (now : TsMs) (items : List Item)
    → any
        (λ it. it.id == j && is_published it)
        (map (λ it. if it.id == id then restate status now it else it) items)
      ≡ (if j == id
          then (status_to_string status == codes "published") && any (λ it. it.id == id) items
          else any (λ it. it.id == j && is_published it) items)
restated_any id j status now [] = ground arith
restated_any id j status now (it ∷ items) = ground (
  arith,
  restated_any id j status now items,
  restate_shown status now it,
  ==_iff it.id id,
  ==_iff it.id j,
  ==_iff j id,
)

-- A change of status takes effect with the next snapshot, and for its item alone: of the rows that the
-- database then returns, the snapshot finds the item exactly if it is there and its new status is
-- `published`, and any other id exactly if it found it before.
pub set_item_status-is_on_sale :
    (id : ℤ) (status : ItemStatus) (at : TsMs) (s : Shelf) (rows : Rows)
    (partners : List PartnerRow) (now : TsMs) (j : ℤ)
    → IsSelected (set_item_status id status at s) rows.items
    → is_there (find (snapshot_of rows partners now) j) ≡ (
        if j == id
        then (status_to_string status == codes "published") && has_item id s
        else is_on_sale j s)
unfolding set_item_status has_item
set_item_status-is_on_sale id status at s rows partners now j h =
    snapshot_of-is_on_sale (set_item_status id status at s) rows partners now j h
    ∙ restated_any id j status at s.items
