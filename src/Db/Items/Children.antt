-- ===== src/Db/Items/Children.antt =====
-- Every item gets exactly its own children.
use s_size_store.Prelude.{
  ℤ, ◌≡◌, ◌∙◌, refl, sym, ap, true, false, List, [], ◌∷◌, map, All, if◌then◌else◌, ◌==◌, ==_iff,
  int_eq, Bool-cases, inl, inr,
}
use s_size_store.Models.{Item}
use s_size_store.Db.Items.{update_first, attach}

-- The child rows of one item, in order.
unfoldable pub children {ℓ} : {C : Type ℓ} → ℤ → List (ℤ × C) → List C
children id [] = []
children id ((j, c) ∷ rows) = let rest = children id rows in if id == j then c ∷ rest else rest

abbrev pub push_all {ℓ} : {C : Type ℓ} → (C → Item → Item) → List C → Item → Item
push_all fn [] it = it
push_all fn (c ∷ cs) it = push_all fn cs (fn c it)

-- No two items have one id.
abbrev pub IsKeyed : List Item → Type 0
IsKeyed [] = Unit
IsKeyed (it ∷ items) = All (λ other. (other.id == it.id) ≡ false) items × IsKeyed items

cons_same : {a b : Item} {xs ys : List Item} → a ≡ b → xs ≡ ys → a ∷ xs ≡ b ∷ ys
cons_same e f = cc

module _ {ℓ} {C : Type ℓ} (fn : C → Item → Item)
    (keeps : (c : C) (it : Item) → (fn c it).id ≡ it.id) where
  abbrev with_children : List (ℤ × C) → Item → Item
  with_children rows it = push_all fn (children it.id rows) it

  map-other :
      (id : ℤ) (c : C) (rows : List (ℤ × C)) (items : List Item)
      → All (λ other. (other.id == id) ≡ false) items
      → map (with_children ((id, c) ∷ rows)) items ≡ map (with_children rows) items
  unfolding children
  map-other id c rows [] h = refl
  map-other id c rows (it ∷ items) (h, hs) = rw (h, map-other id c rows items hs, children) refl

  All-update_first :
      (j id : ℤ) (c : C) (items : List Item)
      → All (λ other. (other.id == j) ≡ false) items
      → All (λ other. (other.id == j) ≡ false) (update_first id (fn c) items)
  unfolding update_first
  All-update_first j id c [] h = tt
  All-update_first j id c (it ∷ items) (h, hs) = elim (Bool-cases (it.id == id)) [
    | inl here ↦ rw (here, update_first) (rw (keeps c it) h, hs)
    | inr later ↦ rw (later, update_first) (h, All-update_first j id c items hs)
  ]

  update_first-IsKeyed :
      (id : ℤ) (c : C) (items : List Item) → IsKeyed items → IsKeyed (update_first id (fn c) items)
  unfolding update_first
  update_first-IsKeyed id c [] h = tt
  update_first-IsKeyed id c (it ∷ items) (h, hs) = elim (Bool-cases (it.id == id)) [
    | inl here ↦ rw (here, update_first) (rw (keeps c it) h, hs)
    | inr later ↦
        rw (later, update_first)
          (All-update_first it.id id c items h, update_first-IsKeyed id c items hs)
  ]

  head-here :
      (id : ℤ) (c : C) (rows : List (ℤ × C)) (it : Item)
      → (it.id == id) ≡ true
      → with_children rows (fn c it) ≡ with_children ((id, c) ∷ rows) it
  unfolding children
  head-here id c rows it here =
      ap (λ (j : ℤ). push_all fn (children j rows) (fn c it)) (keeps c it)
      ∙ rw (here, children) refl

  head-later :
      (id : ℤ) (c : C) (rows : List (ℤ × C)) (it : Item)
      → (it.id == id) ≡ false
      → with_children rows it ≡ with_children ((id, c) ∷ rows) it
  unfolding children
  head-later id c rows it later = rw (later, children) refl

  update_here :
      (id : ℤ) (c : C) (it : Item) (items : List Item)
      → (it.id == id) ≡ true
      → update_first id (fn c) (it ∷ items) ≡ fn c it ∷ items
  unfolding update_first
  update_here id c it items here = rw (here, update_first) refl

  update_later :
      (id : ℤ) (c : C) (it : Item) (items : List Item)
      → (it.id == id) ≡ false
      → update_first id (fn c) (it ∷ items) ≡ it ∷ update_first id (fn c) items
  unfolding update_first
  update_later id c it items later = rw (later, update_first) refl

  map-update_first :
      (id : ℤ) (c : C) (rows : List (ℤ × C)) (items : List Item)
      → IsKeyed items
      → map (with_children rows) (update_first id (fn c) items)
        ≡ map (with_children ((id, c) ∷ rows)) items
  unfolding update_first
  map-update_first id c rows [] h = refl
  map-update_first id c rows (it ∷ items) (h, hs) = elim (Bool-cases (it.id == id)) [
    | inl here ↦
        let same : it.id ≡ id = (==_iff it.id id).0 here in
        ap (map (with_children rows)) (update_here id c it items here)
        ∙ cons_same (head-here id c rows it here) (sym (map-other id c rows items (rw (← same) h)))
    | inr later ↦
        ap (map (with_children rows)) (update_later id c it items later)
        ∙ cons_same (head-later id c rows it later) (map-update_first id c rows items hs)
  ]

  map_none : (items : List Item) → map (with_children []) items ≡ items
  unfolding children
  map_none [] = refl
  map_none (it ∷ items) = ap (λ (rest : List Item). it ∷ rest) (map_none items)

  pub attach-children :
      (rows : List (ℤ × C)) (items : List Item)
      → IsKeyed items
      → attach fn rows items ≡ map (with_children rows) items
  unfolding attach children
  attach-children [] items h = sym (map_none items)
  attach-children ((id, c) ∷ rows) items h =
      attach-children rows (update_first id (fn c) items) (update_first-IsKeyed id c items h)
      ∙ map-update_first id c rows items h
