-- ===== src/Db/Admin.antt =====
-- src/db.cpp, the writes of the catalogue: statements of the admin tool, as functions of the rows of
-- their tables with the constraints of migrations/001_init.sql. A key that sqlite gives to a new row
-- is an argument, and none is an exception.
pub mod Naming
pub mod Publishing
use s_size_store.Prelude.{
  ℕ, ℤ, Bool, true, false, not, ◌&&◌, ◌||◌, List, [], ◌∷◌, ◌++◌, map, any, Option, none, some,
  if◌then◌else◌, ◌==◌, int_eq, nat_eq, list_eq,
}
use s_size_store.Bytes.{Bytes, codes}
use s_size_store.Models.{Item, Image, ItemStatus, published, TsMs, status_to_string}
use s_size_store.Db.Items.{PartnerRow, partner_of_row}
use s_size_store.Models.{Partner}

pub record TagRow : Type 0 where
  pub id : ℤ
  pub slug : Bytes
  pub title : Bytes

-- `item_tags` and `item_images` start with the id of the item.
pub record Shelf : Type 0 where
  pub partners : List PartnerRow
  pub items : List Item
  pub tags : List TagRow
  pub item_tags : List (ℤ × ℤ)
  pub item_images : List (ℤ × Image)

unfoldable pub has_item : ℤ → Shelf → Bool
has_item id s = any (λ it. it.id == id) s.items

-- `CASE WHEN ?2 = 'published' AND published_at IS NULL THEN ?3 ELSE published_at END`
abbrev pub stamp : Bool → TsMs → Option TsMs → Option TsMs
stamp publishes now (some t) = some t
stamp publishes now none = if publishes then some now else none

unfoldable pub restate : ItemStatus → TsMs → Item → Item
restate status now it = record it {
  status = status;
  updated_at = now;
  published_at = stamp (status_to_string status == codes "published") now it.published_at;
}

-- `set_item_status`
unfoldable pub set_item_status : ℤ → ItemStatus → TsMs → Shelf → Shelf
unfolding restate
set_item_status id status now s = record s {
  items = map (λ it. if it.id == id then restate status now it else it) s.items;
}

unfoldable pub find_slug : Bytes → List TagRow → Option ℤ
find_slug slug [] = none
find_slug slug (t ∷ tags) =
    let rest = find_slug slug tags in if t.slug == slug then some t.id else rest

-- `upsert_tag`, with the key `fresh` for a new row.
unfoldable pub upsert_tag : ℤ → Bytes → Bytes → Shelf → Shelf × ℤ
unfolding find_slug
upsert_tag fresh slug title s = elim (find_slug slug s.tags) [
  | some id ↦ (s, id)
  | none ↦
      (record s { tags = s.tags ++ record { id = fresh; slug = slug; title = title } ∷ [] }, fresh)
]

abbrev pub has_tag : ℤ → Shelf → Bool
has_tag id s = any (λ t. t.id == id) s.tags

abbrev pub tagged : ℤ → ℤ → List (ℤ × ℤ) → Bool
tagged item_id tag_id rows = any (λ r. r.0 == item_id && r.1 == tag_id) rows

-- `attach_tag`: a pair that is there is ignored, an item or a tag that is not there is refused.
unfoldable pub attach_tag : ℤ → ℤ → Shelf → Option Shelf
unfolding has_item
attach_tag item_id tag_id s =
    if tagged item_id tag_id s.item_tags
    then some s
    else if has_item item_id s && has_tag tag_id s
    then some (record s { item_tags = s.item_tags ++ (item_id, tag_id) ∷ [] })
    else none

abbrev pub has_image : ℤ → Shelf → Bool
has_image id s = any (λ r. r.1.id == id) s.item_images

-- `add_image`, with the key of the new row; a key that is taken is refused.
unfoldable pub add_image : ℤ → ℤ → Image → Shelf → Option Shelf
unfolding has_item
add_image fresh item_id img s =
    if has_item item_id s && not (has_image fresh s)
    then some
        (record s { item_images = s.item_images ++ (item_id, record img { id = fresh }) ∷ [] })
    else none

abbrev some_partner : Option PartnerRow → Option Partner
some_partner none = none
some_partner (some r) = some (partner_of_row r)

unfoldable pub partner_with_code : Bytes → List PartnerRow → Option PartnerRow
partner_with_code code [] = none
partner_with_code code (p ∷ ps) =
    let rest = partner_with_code code ps in if p.code == code then some p else rest

-- `find_partner_by_code`
unfoldable pub find_partner_by_code : Bytes → Shelf → Option Partner
unfolding partner_with_code
find_partner_by_code code s = some_partner (partner_with_code code s.partners)

-- `insert_item`, with the key of the new row; the children of the item stay in other tables, and an
-- item of a partner that is not there is refused, as is a key that is taken.
unfoldable pub insert_item : ℤ → Item → Shelf → Option (Shelf × ℤ)
unfolding has_item
insert_item fresh item s =
    if any (λ p. p.id == item.partner_id) s.partners && not (has_item fresh s)
    then some (
      record s {
        items =
            s.items
            ++ record item { id = fresh; images = []; tags = []; sizes = []; colors = [] } ∷ [];
      },
      fresh,
    )
    else none
