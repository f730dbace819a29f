-- ===== src/Catalog/Slices.antt =====
-- The slices that `query` returns.
use s_size_store.Prelude.{
  ℕ, zero, suc, ◌-◌, ◌≤◌, ◌<◌, ◌≡◌, ◌∙◌, refl, true, false, ◌&&◌, List, [], ◌∷◌, arith, filter,
  take, drop, max, Bool-cases, inl, inr, ltb, leb, sym, if◌then◌else◌,
}
use s_size_store.Bytes.{Bytes}
use s_size_store.Models.{Item}
use s_size_store.Catalog.{Catalog, passes, query_from, query}

-- The items that both filters let through.
abbrev pub matching : Bytes → Bytes → List Item → List Item
matching tag size = filter (λ it. passes tag it.tags && passes size it.sizes)

abbrev slice : ℕ → ℕ → ℕ → ℕ → List Item → List Item
slice offset limit skipped pushed items =
    take (max 1 (limit - pushed)) (drop (offset - skipped) items)

slice-nil : (n m : ℕ) → take {A = Item} n (drop m []) ≡ []
slice-nil zero m = refl
slice-nil (suc n) zero = refl
slice-nil (suc n) (suc m) = refl

slice_skip :
    (offset limit skipped pushed : ℕ) (it : Item) (items : List Item)
    → skipped < offset
    → slice offset limit skipped pushed (it ∷ items) ≡ slice offset limit (suc skipped) pushed items
slice_skip offset limit skipped pushed it items h =
    let e : offset - skipped ≡ suc (offset - suc skipped) = omega arith in rw e refl

slice_last :
    (offset limit skipped pushed : ℕ) (it : Item) (items : List Item)
    → offset ≤ skipped
    → limit ≤ suc pushed
    → slice offset limit skipped pushed (it ∷ items) ≡ it ∷ []
slice_last offset limit skipped pushed it items h k =
    let e : offset - skipped ≡ 0 = omega arith in
    let f : max 1 (limit - pushed) ≡ 1 = omega arith in rw (e, f) refl

slice_push :
    (offset limit skipped pushed : ℕ) (it : Item) (items : List Item)
    → offset ≤ skipped
    → suc pushed < limit
    → slice offset limit skipped pushed (it ∷ items)
      ≡ it ∷ slice offset limit (suc skipped) (suc pushed) items
slice_push offset limit skipped pushed it items h k =
    let e : offset - skipped ≡ 0 = omega arith in
    let e' : offset - suc skipped ≡ 0 = omega arith in
    let f : max 1 (limit - pushed) ≡ suc (max 1 (limit - suc pushed)) = omega arith in
    rw (e, e', f) refl

module _ (tag size : Bytes) (offset limit : ℕ) where
  query_from-other :
      (it : Item) (items : List Item) (skipped pushed : ℕ)
      → (passes tag it.tags && passes size it.sizes) ≡ false
      → query_from tag size offset limit (it ∷ items) skipped pushed
        ≡ query_from tag size offset limit items skipped pushed
  unfolding query_from
  query_from-other it items skipped pushed h = ground arith

  query_from-match :
      (it : Item) (items : List Item) (skipped pushed : ℕ)
      → (passes tag it.tags && passes size it.sizes) ≡ true
      → query_from tag size offset limit (it ∷ items) skipped pushed ≡ (
          if ltb skipped offset
          then query_from tag size offset limit items (suc skipped) pushed
          else if leb limit (suc pushed)
          then it ∷ []
          else it ∷ query_from tag size offset limit items (suc skipped) (suc pushed))
  unfolding query_from
  query_from-match it items skipped pushed h = ground arith

  -- The loop, when `skipped` matches have been left out or taken, and `pushed` ones taken.
  query_from-slice :
      (items : List Item) (skipped pushed : ℕ)
      → query_from tag size offset limit items skipped pushed
        ≡ slice offset limit skipped pushed (matching tag size items)
  query_from-slice [] skipped pushed = unfold query_from in sym (slice-nil _ _)
  query_from-slice (it ∷ items) skipped pushed =
      elim (Bool-cases (passes tag it.tags && passes size it.sizes)) [
        | inl fits ↦
            let rest = matching tag size items in
            query_from-match it items skipped pushed fits
            ∙ rw (fits, filter)
                (ground (
                  arith,
                  slice_skip offset limit skipped pushed it rest,
                  slice_last offset limit skipped pushed it rest,
                  slice_push offset limit skipped pushed it rest,
                  query_from-slice items (suc skipped) pushed,
                  query_from-slice items (suc skipped) (suc pushed),
                ))
        | inr other ↦
            query_from-other it items skipped pushed other
            ∙ rw (other, filter) (query_from-slice items skipped pushed)
      ]

-- `query` returns the slice of the matching items, in feed order, from `offset` on: `limit` of them
-- at most, or one if `limit` is 0.
pub query-slice :
    (c : Catalog) (tag size : Bytes) (offset limit : ℕ)
    → query c tag size offset limit ≡ take (max 1 limit) (drop offset (matching tag size c.items))
unfolding query
query-slice c tag size offset limit =
    let e : limit - 0 ≡ limit = omega arith in
    let f : offset - 0 ≡ offset = omega arith in
    query_from-slice tag size offset limit c.items 0 0 ∙ rw (e, f) refl
