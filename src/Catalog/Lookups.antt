-- ===== src/Catalog/Lookups.antt =====
-- The indexes of a snapshot against a linear search.
use s_size_store.Prelude.{
  ℕ, suc, ◌-◌, ◌≤◌, ◌<◌, ◌≡◌, ◌∙◌, refl, ap, ℤ, Bool, List, [], ◌∷◌, Option, none, some, arith,
  if◌then◌else◌, ◌==◌, ==_iff, int_eq, lookup, emplace, lookup-emplace, get_elem?, Bool-cases, inl,
  inr,
}
use s_size_store.Models.{Item, Partner, TsMs}
use s_size_store.Catalog.{index_items, index_partners, build, find, partner, stable_sort, at_index}

-- The first element that passes a test.
abbrev pub first {ℓ} : {A : Type ℓ} → (A → Bool) → List A → Option A
first p [] = none
first p (x ∷ xs) = if p x then some x else first p xs

-- The position of the first element that passes a test, counted from `i`.
abbrev position {ℓ} : {A : Type ℓ} → (A → Bool) → ℕ → List A → Option ℕ
position p i [] = none
position p i (x ∷ xs) = if p x then some i else position p (suc i) xs

abbrev or_position : Option ℕ → Option ℕ → Option ℕ
or_position none o = o
or_position (some i) o = some i

lookup-index_items :
    (id : ℤ) (i : ℕ) (items : List Item) (m : List (ℤ × ℕ))
    → lookup id (index_items i items m)
      ≡ or_position (lookup id m) (position (λ it. it.id == id) i items)
unfolding index_items
lookup-index_items id i [] m = ground arith
lookup-index_items id i (item ∷ items) m =
    lookup-index_items id (suc i) items (emplace item.id i m)
    ∙ ground (arith, lookup-emplace item.id id i m, ==_iff item.id id)

lookup-index_partners :
    (id : ℤ) (i : ℕ) (ps : List Partner) (m : List (ℤ × ℕ))
    → lookup id (index_partners i ps m)
      ≡ or_position (lookup id m) (position (λ it. it.id == id) i ps)
unfolding index_partners
lookup-index_partners id i [] m = ground arith
lookup-index_partners id i (p ∷ ps) m =
    lookup-index_partners id (suc i) ps (emplace p.id i m)
    ∙ ground (arith, lookup-emplace p.id id i m, ==_iff p.id id)

-- The element `k` places behind the base of a position.
abbrev at_offset {ℓ} : {A : Type ℓ} → List A → ℕ → Option ℕ → Option A
at_offset xs i none = none
at_offset xs i (some k) = get_elem? xs (k - i)

position-le {ℓ} :
    {A : Type ℓ} (p : A → Bool) (i k : ℕ) (xs : List A) → position p i xs ≡ some k → i ≤ k
position-le p i k [] h = ground arith
position-le p i k (x ∷ xs) h = ground (arith, position-le p (suc i) k xs)

get_elem?-offset {ℓ} :
    {A : Type ℓ} (x : A) (xs : List A) (i k : ℕ)
    → i < k
    → get_elem? (x ∷ xs) (k - i) ≡ get_elem? xs (k - suc i)
get_elem?-offset x xs i k h = let e : k - i ≡ suc (k - suc i) = omega arith in rw e refl

at_offset-cons {ℓ} :
    {A : Type ℓ} (x : A) (xs : List A) (i : ℕ) (o : Option ℕ)
    → ((k : ℕ) → o ≡ some k → i < k)
    → at_offset (x ∷ xs) i o ≡ at_offset xs (suc i) o
at_offset-cons x xs i none h = refl
at_offset-cons x xs i (some k) h = get_elem?-offset x xs i k (h k refl)

at_offset-position {ℓ} :
    {A : Type ℓ} (p : A → Bool) (i : ℕ) (xs : List A)
    → at_offset xs i (position p i xs) ≡ first p xs
at_offset-position p i [] = refl
at_offset-position p i (x ∷ xs) = elim (Bool-cases (p x)) [
  | inl here ↦ let e : i - i ≡ 0 = omega arith in rw (here, position, first, e) refl
  | inr later ↦
      rw (later, position, first)
        (at_offset-cons x xs i (position p (suc i) xs) (λ k. position-le p (suc i) k xs)
          ∙ at_offset-position p (suc i) xs)
]

at_index-offset {ℓ} : {A : Type ℓ} (xs : List A) (o : Option ℕ) → at_index xs o ≡ at_offset xs 0 o
at_index-offset xs none = refl
at_index-offset xs (some k) = let e : k - 0 ≡ k = omega arith in rw e refl

at_index-position {ℓ} :
    {A : Type ℓ} (p : A → Bool) (xs : List A) → at_index xs (position p 0 xs) ≡ first p xs
at_index-position p xs = at_index-offset xs (position p 0 xs) ∙ at_offset-position p 0 xs

find-build :
    (items : List Item) (partners : List Partner) (now : TsMs) (id : ℤ)
    → find (build items partners now) id ≡ first (λ it. it.id == id) (stable_sort items)
unfolding find build
find-build items partners now id =
    ap (at_index (stable_sort items)) (lookup-index_items id 0 (stable_sort items) [])
    ∙ at_index-position (λ it. it.id == id) (stable_sort items)

partner-build :
    (items : List Item) (partners : List Partner) (now : TsMs) (id : ℤ)
    → partner (build items partners now) id ≡ first (λ p. p.id == id) partners
unfolding partner build
partner-build items partners now id =
    ap (at_index partners) (lookup-index_partners id 0 partners [])
    ∙ at_index-position (λ p. p.id == id) partners

-- The indexes of a snapshot agree with a search: `find` returns the first item of the feed with
-- the id, `partner` the first partner with it, and each returns nothing exactly when there is none.
pub build-lookups :
    (items : List Item) (partners : List Partner) (now : TsMs) (id : ℤ)
    → (find (build items partners now) id ≡ first (λ it. it.id == id) (stable_sort items))
      × (partner (build items partners now) id ≡ first (λ p. p.id == id) partners)
build-lookups items partners now id =
    (find-build items partners now id, partner-build items partners now id)
