-- ===== src/Admin/Rows.antt =====
-- What the statements of a seed do to the tables: none of them is refused.
use s_size_store.Prelude.{
  ℕ, ℤ, ◌≡◌, ◌∙◌, refl, ap, true, false, Bool, List, [], ◌∷◌, ◌++◌, some, arith, any, Bool-cases,
  Option-cases, inl, inr, ◌==◌, int_eq, nat_eq, list_eq, ==_refl, ==_iff,
}
use s_size_store.Bytes.{Bytes}
use s_size_store.Models.{Item, Color, Image}
use s_size_store.Db.Pruning.{any-append}
use s_size_store.Db.Admin.{
  Shelf, TagRow, has_item, has_image, has_tag, find_slug, upsert_tag, attach_tag, add_image,
  insert_item, tagged,
}
use s_size_store.Admin.{
  Stock, slugs, sizes, pick, attach_tags, insert_sizes, insert_color, has_size, has_color,
}

-- The items, the partners and the images are as they were.
pub record IsShelved (s s' : Shelf) : Type 0 where
  pub items : s'.items ≡ s.items
  pub partners : s'.partners ≡ s.partners
  pub images : s'.item_images ≡ s.item_images

pub IsShelved-trans : (s t u : Shelf) → IsShelved s t → IsShelved t u → IsShelved s u
IsShelved-trans s t u h k = record {
  items = k.items ∙ h.items;
  partners = k.partners ∙ h.partners;
  images = k.images ∙ h.images;
}

pub has_item-shelved : (id : ℤ) (s s' : Shelf) → IsShelved s s' → has_item id s' ≡ has_item id s
unfolding has_item
has_item-shelved id s s' h = ap (λ (items : List Item). any (λ it. it.id == id) items) h.items

find_slug-has_tag :
    (slug : Bytes) (tags : List TagRow) (id : ℤ)
    → find_slug slug tags ≡ some id
    → any (λ t. t.id == id) tags ≡ true
unfolding find_slug
find_slug-has_tag slug [] id e = ground arith
find_slug-has_tag slug (t ∷ tags) id e =
    ground (arith, find_slug-has_tag slug tags id, ==_iff t.id id)

upsert_tag-has_tag :
    (key : ℤ) (slug title : Bytes) (s : Shelf)
    → (has_tag (upsert_tag key slug title s).1 (upsert_tag key slug title s).0 ≡ true)
      × IsShelved s (upsert_tag key slug title s).0
unfolding upsert_tag
upsert_tag-has_tag key slug title s = elim (Option-cases (find_slug slug s.tags)) [
  | inl new ↦
      rw (new, upsert_tag)
        (
          ground (
            arith,
            any-append (λ (t : TagRow). t.id == key) s.tags
                (record { id = key; slug = slug; title = title } ∷ []),
            ==_refl key,
          ),
          record { items = refl; partners = refl; images = refl },
        )
  | inr (id, known) ↦
      rw (known, upsert_tag)
        (
          find_slug-has_tag slug s.tags id known,
          record { items = refl; partners = refl; images = refl },
        )
]

attach_tag_ok :
    (item_id tag_id : ℤ) (s : Shelf)
    → has_item item_id s ≡ true
    → has_tag tag_id s ≡ true
    → (s' : Shelf) × (attach_tag item_id tag_id s ≡ some s') × IsShelved s s'
unfolding attach_tag
attach_tag_ok item_id tag_id s item tag = elim (Bool-cases (tagged item_id tag_id s.item_tags)) [
  | inl there ↦
      (s, rw (there, attach_tag) refl, record { items = refl; partners = refl; images = refl })
  | inr new ↦ (
    record s { item_tags = s.item_tags ++ (item_id, tag_id) ∷ [] },
    rw (new, item, tag, attach_tag) refl,
    record { items = refl; partners = refl; images = refl },
  )
]

attach_tags-step :
    (id key : ℤ) (k : ℕ) (tags : List (ℕ × ℤ)) (s s' : Shelf)
    → attach_tag id
        (upsert_tag key (pick [] slugs k) (pick [] slugs k) s).1
        (upsert_tag key (pick [] slugs k) (pick [] slugs k) s).0
      ≡ some s'
    → attach_tags id ((k, key) ∷ tags) s ≡ attach_tags id tags s'
unfolding attach_tags
attach_tags-step id key k tags s s' e = rw (e, attach_tags) refl

pub attach_tags_ok :
    (id : ℤ) (tags : List (ℕ × ℤ)) (s : Shelf)
    → has_item id s ≡ true
    → (s' : Shelf) × (attach_tags id tags s ≡ some s') × IsShelved s s'
unfolding attach_tags
attach_tags_ok id [] s item = (s, refl, record { items = refl; partners = refl; images = refl })
attach_tags_ok id ((k, key) ∷ tags) s item =
    let slug = pick [] slugs k in
    let named : Shelf = (upsert_tag key slug slug s).0 in
    let (tag, shelved) = upsert_tag-has_tag key slug slug s in
    let (s1, attached, kept) =
      attach_tag_ok id (upsert_tag key slug slug s).1 named
        (has_item-shelved id s named shelved ∙ item) tag in
    let all = IsShelved-trans s named s1 shelved kept in
    let (s2, rest, last) = attach_tags_ok id tags s1 (has_item-shelved id s s1 all ∙ item) in
    (s2, attach_tags-step id key k tags s s1 attached ∙ rest, IsShelved-trans s s1 s2 all last)

pub insert_sizes_ok :
    (id : ℤ) (ks : List ℕ) (s : Stock)
    → has_item id s.shelf ≡ true
    → (s' : Stock) × (insert_sizes id ks s ≡ some s') × (s'.shelf ≡ s.shelf)
unfolding insert_sizes
insert_sizes_ok id [] s item = (s, refl, refl)
insert_sizes_ok id (k ∷ ks) s item =
    elim (Bool-cases (has_size id (pick [] sizes k) s.item_sizes)) [
      | inl there ↦
          let (s', rest, same) = insert_sizes_ok id ks s item in
          (s', rw (there, insert_sizes) rest, same)
      | inr new ↦
          let (s', rest, same) =
            insert_sizes_ok id ks
              (record s { item_sizes = s.item_sizes ++ (id, pick [] sizes k) ∷ [] }) item in
          (s', rw (new, item, insert_sizes) rest, same)
    ]

pub insert_color_ok :
    (id : ℤ) (c : Color) (s : Stock)
    → has_item id s.shelf ≡ true
    → (s' : Stock) × (insert_color id c s ≡ some s') × (s'.shelf ≡ s.shelf)
unfolding insert_color
insert_color_ok id c s item = elim (Bool-cases (has_color id c.name s.item_colors)) [
  | inl there ↦ (s, rw (there, insert_color) refl, refl)
  | inr new ↦ (
    record s { item_colors = s.item_colors ++ (id, c) ∷ [] },
    rw (new, item, insert_color) refl,
    refl,
  )
]

-- The tables with one more image.
abbrev pub pictured : ℤ → ℤ → Image → Shelf → Shelf
pictured key id img s = record s {
  item_images = s.item_images ++ (id, record img { id = key }) ∷ [];
}

pub add_image_ok :
    (key id : ℤ) (img : Image) (s : Shelf)
    → has_item id s ≡ true
    → has_image key s ≡ false
    → add_image key id img s ≡ some (pictured key id img s)
unfolding add_image
add_image_ok key id img s item new = rw (item, new, add_image) refl

-- The row of an item, whose children stand in other tables.
abbrev pub row_for : ℤ → Item → Item
row_for key item = record item { id = key; images = []; tags = []; sizes = []; colors = [] }

abbrev pub knows_partner : ℤ → Shelf → Bool
knows_partner id s = any (λ p. p.id == id) s.partners

pub insert_item_ok :
    (key : ℤ) (item : Item) (s : Shelf)
    → knows_partner item.partner_id s ≡ true
    → has_item key s ≡ false
    → insert_item key item s ≡ some (record s { items = s.items ++ row_for key item ∷ [] }, key)
unfolding insert_item
insert_item_ok key item s known new = rw (known, new, insert_item) refl

pub has_item-insert :
    (key : ℤ) (item : Item) (s : Shelf)
    → has_item key (record s { items = s.items ++ row_for key item ∷ [] }) ≡ true
unfolding has_item
has_item-insert key item s =
    ground
      (arith, any-append (λ (it : Item). it.id == key) s.items (row_for key item ∷ []), ==_refl key)

-- A key that is new stays so if another one is taken.
pub has_item-other :
    (key other : ℤ) (item : Item) (s : Shelf)
    → has_item key s ≡ false
    → (other == key) ≡ false
    → any (λ it. it.id == key) (s.items ++ row_for other item ∷ []) ≡ false
unfolding has_item
has_item-other key other item s new differs =
    ground (arith, any-append (λ (it : Item). it.id == key) s.items (row_for other item ∷ []))

pub has_image-other :
    (key other id : ℤ) (img : Image) (s : Shelf)
    → has_image key s ≡ false
    → (other == key) ≡ false
    → has_image key (pictured other id img s) ≡ false
has_image-other key other id img s new differs = ground (
  arith,
  any-append (λ (r : ℤ × Image). r.1.id == key) s.item_images
      ((id, record img { id = other }) ∷ []),
)
