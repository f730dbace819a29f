-- ===== src/Db/Items/Complete.antt =====
-- What an item of a snapshot is made of.
use s_size_store.Prelude.{
  ℤ, ◌≡◌, subst, ◌∙◌, refl, sym, ap, false, List, [], ◌∷◌, ◌++◌, map, append_assoc, append-nil, All,
  ◌==◌, int_eq,
}
use s_size_store.Bytes.{Bytes}
use s_size_store.Models.{Item, Color}
use s_size_store.Db.Items.{
  Rows, ItemRow, ImageRow, item_of_row, image_of_row, attach, push_image, push_tag, push_size,
  push_color, load_published_items,
}
use s_size_store.Db.Items.Children.{children, push_all, IsKeyed, attach-children}

push_images :
    (rs : List ImageRow) (it : Item)
    → push_all push_image rs it ≡ record it { images = it.images ++ map image_of_row rs }
push_images [] it = rw (append-nil it.images) refl
push_images (r ∷ rs) it =
    push_images rs (push_image r it)
    ∙ rw (append_assoc it.images (image_of_row r ∷ []) (map image_of_row rs)) refl

push_tags :
    (ts : List Bytes) (it : Item) → push_all push_tag ts it ≡ record it { tags = it.tags ++ ts }
push_tags [] it = rw (append-nil it.tags) refl
push_tags (t ∷ ts) it = push_tags ts (push_tag t it) ∙ rw (append_assoc it.tags (t ∷ []) ts) refl

push_sizes :
    (ss : List Bytes) (it : Item) → push_all push_size ss it ≡ record it { sizes = it.sizes ++ ss }
push_sizes [] it = rw (append-nil it.sizes) refl
push_sizes (s ∷ ss) it =
    push_sizes ss (push_size s it) ∙ rw (append_assoc it.sizes (s ∷ []) ss) refl

push_colors :
    (cs : List Color) (it : Item)
    → push_all push_color cs it ≡ record it { colors = it.colors ++ cs }
push_colors [] it = rw (append-nil it.colors) refl
push_colors (c ∷ cs) it =
    push_colors cs (push_color c it) ∙ rw (append_assoc it.colors (c ∷ []) cs) refl

-- The item of a row, with the children that the other statements return for it.
unfoldable pub complete_item : Rows → ItemRow → Item
complete_item rows r = record (item_of_row r) {
  images = map image_of_row (children r.id rows.images);
  tags = children r.id rows.tags;
  sizes = children r.id rows.sizes;
  colors = children r.id rows.colors;
}

-- No two rows have one id, as it is the primary key.
abbrev pub IsRowSet : List ItemRow → Type 0
IsRowSet [] = Unit
IsRowSet (r ∷ rs) = All (λ (other : ItemRow). (other.id == r.id) ≡ false) rs × IsRowSet rs

module _ (g : ItemRow → Item) (same_id : (r : ItemRow) → (g r).id ≡ r.id) where
  others_map :
      (id : ℤ) (rs : List ItemRow)
      → All (λ (other : ItemRow). (other.id == id) ≡ false) rs
      → All (λ (other : Item). (other.id == id) ≡ false) (map g rs)
  others_map id [] h = tt
  others_map id (r ∷ rs) (h, hs) = (ap (λ (j : ℤ). j == id) (same_id r) ∙ h, others_map id rs hs)

  map-IsKeyed : (rs : List ItemRow) → IsRowSet rs → IsKeyed (map g rs)
  map-IsKeyed [] h = tt
  map-IsKeyed (r ∷ rs) (h, hs) = (
    others_map (g r).id rs (
        subst (λ (j : ℤ). All (λ (other : ItemRow). (other.id == j) ≡ false) rs) (sym (same_id r))
          h),
    map-IsKeyed rs hs,
  )

  map_pointwise :
      (f : Item → Item) (h : ItemRow → Item) (rs : List ItemRow)
      → ((r : ItemRow) → f (g r) ≡ h r)
      → map f (map g rs) ≡ map h rs
  map_pointwise f h [] e = refl
  map_pointwise f h (r ∷ rs) e =
      ap (λ (it : Item). it ∷ map f (map g rs)) (e r)
      ∙ ap (λ (items : List Item). h r ∷ items) (map_pointwise f h rs e)

  attach-map {ℓ} :
      {C : Type ℓ} (fn : C → Item → Item) (rows : List (ℤ × C)) (h : ItemRow → Item)
      (rs : List ItemRow)
      → ((c : C) (it : Item) → (fn c it).id ≡ it.id)
      → ((r : ItemRow) → push_all fn (children r.id rows) (g r) ≡ h r)
      → IsRowSet rs
      → attach fn rows (map g rs) ≡ map h rs
  attach-map fn rows h rs keeps e distinct =
      attach-children fn keeps rows (map g rs) (map-IsKeyed rs distinct)
      ∙ map_pointwise (λ it. push_all fn (children it.id rows) it) h rs
          (λ r. ap (λ (j : ℤ). push_all fn (children j rows) (g r)) (same_id r) ∙ e r)

abbrev with_images : Rows → ItemRow → Item
with_images rows r = record (item_of_row r) {
  images = map image_of_row (children r.id rows.images);
}

abbrev with_tags : Rows → ItemRow → Item
with_tags rows r = record (with_images rows r) { tags = children r.id rows.tags }

abbrev with_sizes : Rows → ItemRow → Item
with_sizes rows r = record (with_tags rows r) { sizes = children r.id rows.sizes }

-- A snapshot is loaded with one item for each row, in the order of the rows, and every item has
-- exactly the images, tags, sizes and colours that the other statements return for it, in their
-- order; a child row without an item of the snapshot is skipped.
pub load_published_items-complete_item :
    (rows : Rows)
    → IsRowSet rows.items
    → load_published_items rows ≡ map (complete_item rows) rows.items
unfolding load_published_items item_of_row complete_item
load_published_items-complete_item rows distinct =
    ap
      (λ items.
        attach push_color rows.colors
          (attach push_size rows.sizes (attach push_tag rows.tags items)))
      (attach-map item_of_row (λ r. refl) push_image rows.images (with_images rows) rows.items
        (λ c it. refl) (λ r. push_images (children r.id rows.images) (item_of_row r)) distinct)
    ∙ ap (λ items. attach push_color rows.colors (attach push_size rows.sizes items))
        (attach-map (with_images rows) (λ r. refl) push_tag rows.tags (with_tags rows) rows.items
          (λ c it. refl) (λ r. push_tags (children r.id rows.tags) (with_images rows r)) distinct)
    ∙ ap (λ items. attach push_color rows.colors items)
        (attach-map (with_tags rows) (λ r. refl) push_size rows.sizes (with_sizes rows) rows.items
          (λ c it. refl) (λ r. push_sizes (children r.id rows.sizes) (with_tags rows r)) distinct)
    ∙ attach-map (with_sizes rows) (λ r. refl) push_color rows.colors (complete_item rows)
        rows.items (λ c it. refl) (λ r. push_colors (children r.id rows.colors) (with_sizes rows r))
        distinct
