-- ===== src/Catalog/Sorted.antt =====
-- The feed order of a snapshot.
use mathlib.Core.List.{Perm}
use mathlib.Core.List.Perm
use s_size_store.Prelude.{
  ◌≡◌, ◌∙◌, refl, ap, Bool, true, false, ◌&&◌, List, [], ◌∷◌, arith, All, filter, Bool-cases, inl,
  inr, ◌≤ℤ◌, ◌<ℤ◌, ◌⊎◌, All-map, int_eq, ◌==◌, ==_iff,
}
use s_size_store.Models.{Item}
use s_size_store.Catalog.{published_or_zero, before, insert_sorted, stable_sort}

-- No item comes strictly before one that stands in front of it.
abbrev pub IsFeedOrder : List Item → Type 0
IsFeedOrder [] = Unit
IsFeedOrder (a ∷ items) = All (λ b. before b a ≡ false) items × IsFeedOrder items

before_trans : (a b c : Item) → before b a ≡ false → before c b ≡ false → before c a ≡ false
unfolding before
before_trans a b c p q = ground (
  arith,
  ==_iff a.score b.score,
  ==_iff b.score a.score,
  ==_iff c.score b.score,
  ==_iff c.score a.score,
)

before_asym : (a b : Item) → before a b ≡ true → before b a ≡ false
unfolding before
before_asym a b p = ground (arith, ==_iff a.score b.score, ==_iff b.score a.score)

insert_sorted-All :
    (x a : Item) (items : List Item)
    → before a x ≡ false
    → All (λ b. before b x ≡ false) items
    → All (λ b. before b x ≡ false) (insert_sorted a items)
unfolding insert_sorted
insert_sorted-All x a [] p h = (p, tt)
insert_sorted-All x a (b ∷ items) p (hb, h) = ground (arith, insert_sorted-All x a items p h)

All-before_trans :
    (a b : Item) (items : List Item)
    → before b a ≡ false
    → All (λ c. before c b ≡ false) items
    → All (λ c. before c a ≡ false) items
All-before_trans a b [] p h = tt
All-before_trans a b (c ∷ items) p (hc, h) =
    (before_trans a b c p hc, All-before_trans a b items p h)

insert_sorted-IsFeedOrder :
    (a : Item) (items : List Item) → IsFeedOrder items → IsFeedOrder (insert_sorted a items)
unfolding insert_sorted
insert_sorted-IsFeedOrder a [] h = (tt, tt)
insert_sorted-IsFeedOrder a (b ∷ items) (hb, h) = ground (
  arith,
  insert_sorted-IsFeedOrder a items h,
  before_asym b a,
  insert_sorted-All b a items,
  All-before_trans a b items,
)

-- A snapshot is in feed order: by falling score, and by falling time of publication where the
-- scores are equal.
pub stable_sort-IsFeedOrder : (items : List Item) → IsFeedOrder (stable_sort items)
unfolding stable_sort
stable_sort-IsFeedOrder [] = tt
stable_sort-IsFeedOrder (a ∷ items) =
    insert_sorted-IsFeedOrder a (stable_sort items) (stable_sort-IsFeedOrder items)

insert_sorted-perm : (a : Item) (items : List Item) → Perm (insert_sorted a items) (a ∷ items)
unfolding insert_sorted
insert_sorted-perm a [] = Perm.refl (a ∷ [])
insert_sorted-perm a (b ∷ items) = elim (Bool-cases (before b a)) [
  | inl first ↦
      rw (first, insert_sorted)
        (Perm.trans (Perm.cons b (insert_sorted-perm a items)) (Perm.swap a b items))
  | inr later ↦ rw (later, insert_sorted) (Perm.refl (a ∷ b ∷ items))
]

pub stable_sort-perm : (items : List Item) → Perm (stable_sort items) items
unfolding stable_sort
stable_sort-perm [] = Perm.refl []
stable_sort-perm (a ∷ items) =
    Perm.trans (insert_sorted-perm a (stable_sort items)) (Perm.cons a (stable_sort-perm items))

-- Two items of one score and one time of publication, where a missing time counts as 0.
abbrev pub same_rank : Item → Item → Bool
same_rank a b =
    a.score == b.score && published_or_zero a.published_at == published_or_zero b.published_at

same_rank_later : (k a b : Item) → before b a ≡ true → same_rank k a ≡ true → same_rank k b ≡ false
unfolding before
same_rank_later k a b p q = ground (
  arith,
  ==_iff k.score a.score,
  ==_iff k.score b.score,
  ==_iff b.score a.score,
  ==_iff (published_or_zero k.published_at) (published_or_zero a.published_at),
  ==_iff (published_or_zero k.published_at) (published_or_zero b.published_at),
)

-- `b` may stand behind `a`: its score is not above, and of one score its publication is not later.
abbrev pub MayFollow : Item → Item → Type 0
MayFollow a b =
    (b.score ≤ℤ a.score)
    × ((b.score <ℤ a.score)
        ⊎ (published_or_zero b.published_at ≤ℤ published_or_zero a.published_at))

-- By falling scores, and by falling times of publication where they are equal.
abbrev pub IsFalling : List Item → Type 0
IsFalling [] = Unit
IsFalling (a ∷ items) = All (MayFollow a) items × IsFalling items

may_follow : (a b : Item) → before b a ≡ false → MayFollow a b
unfolding before
may_follow a b p = ground (arith, ==_iff b.score a.score)

IsFeedOrder-IsFalling : (items : List Item) → IsFeedOrder items → IsFalling items
IsFeedOrder-IsFalling [] h = tt
IsFeedOrder-IsFalling (a ∷ items) (h, hs) =
    (All-map items (may_follow a) h, IsFeedOrder-IsFalling items hs)

-- An insertion keeps the order of the items of one rank.
filter-insert_sorted :
    (k a : Item) (items : List Item)
    → filter (same_rank k) (insert_sorted a items) ≡ filter (same_rank k) (a ∷ items)
unfolding insert_sorted
filter-insert_sorted k a [] = refl
filter-insert_sorted k a (b ∷ items) =
    ground (arith, filter-insert_sorted k a items, same_rank_later k a b)

pub filter-stable_sort :
    (k : Item) (items : List Item)
    → filter (same_rank k) (stable_sort items) ≡ filter (same_rank k) items
unfolding stable_sort
filter-stable_sort k [] = refl
filter-stable_sort k (a ∷ items) =
    filter-insert_sorted k a (stable_sort items) ∙ ground (arith, filter-stable_sort k items)

-- The sort gives the same items by falling score, where the scores are equal by falling time of
-- publication, and in the given order where both are equal.
pub stable_sort_correct :
    (items : List Item)
    → Perm (stable_sort items) items
      × IsFalling (stable_sort items)
      × ((k : Item) → filter (same_rank k) (stable_sort items) ≡ filter (same_rank k) items)
stable_sort_correct items = (
  stable_sort-perm items,
  IsFeedOrder-IsFalling (stable_sort items) (stable_sort-IsFeedOrder items),
  λ k. filter-stable_sort k items,
)

insert_sorted_first :
    (a : Item) (items : List Item)
    → All (λ b. before b a ≡ false) items
    → insert_sorted a items ≡ a ∷ items
unfolding insert_sorted
insert_sorted_first a [] h = refl
insert_sorted_first a (b ∷ items) (hb, h) = ground arith

-- Rows that the database returns in feed order stay as they are.
pub stable_sort_of_IsFeedOrder : (items : List Item) → IsFeedOrder items → stable_sort items ≡ items
unfolding stable_sort
stable_sort_of_IsFeedOrder [] h = refl
stable_sort_of_IsFeedOrder (a ∷ items) (ha, h) =
    ap (insert_sorted a) (stable_sort_of_IsFeedOrder items h) ∙ insert_sorted_first a items ha
