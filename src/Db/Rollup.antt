-- ===== src/Db/Rollup.antt =====
-- The daily numbers.
use s_size_store.Prelude.{
  ◌≡◌, ◌∙◌, inl, inr, refl, ap, Bool, List, [], ◌∷◌, some, arith, any, lookup,
  lookup-insert_or_assign, Option-cases, if◌then◌else◌, ◌==◌, ==_iff, list_eq, nat_eq, int_eq, ℤ,
}
use s_size_store.Models.{Event}
use s_size_store.Db.{
  Tables, DayItem, Counts, pair_eq, group_of, in_group, selected, groups, write_groups, counts_of,
  rollup_daily,
}

any-groups :
    (k : DayItem) (evs : List Event)
    → any (λ j. j == k) (groups evs) ≡ any (λ ev. in_group k (group_of ev)) evs
unfolding groups
any-groups k [] = refl
any-groups k (ev ∷ evs) = elim (Option-cases (group_of ev)) [
  | inl uncounted ↦ rw (uncounted, groups) (any-groups k evs)
  | inr (j, grouped) ↦
      rw (grouped, groups) (ground (arith, any-groups k evs, ==_iff j k, any-groups j evs))
]

lookup-write_groups :
    (k : DayItem) (ks : List DayItem) (evs : List Event) (daily : List (DayItem × Counts))
    → lookup k (write_groups ks evs daily)
      ≡ (if any (λ j. j == k) ks then some (counts_of k evs) else lookup k daily)
unfolding write_groups
lookup-write_groups k [] evs daily = refl
lookup-write_groups k (j ∷ ks) evs daily =
    lookup-insert_or_assign j k (counts_of j evs) (write_groups ks evs daily)
    ∙ ground (arith, lookup-write_groups k ks evs daily, ==_iff j k)

-- After a rollup, a day and an item with a counted event in the range of days have exactly the
-- numbers of its events, each by its kind; every other row is as it was.
pub rollup_daily-lookup :
    (day_from day_to : ℤ) (t : Tables) (k : DayItem)
    → lookup k (rollup_daily day_from day_to t).daily ≡ (
        if any (λ ev. in_group k (group_of ev)) (selected day_from day_to t.events)
        then some (counts_of k (selected day_from day_to t.events))
        else lookup k t.daily)
unfolding rollup_daily
rollup_daily-lookup day_from day_to t k =
    let evs = selected day_from day_to t.events in
    lookup-write_groups k (groups evs) evs t.daily
    ∙ ap (λ (b : Bool). if b then some (counts_of k evs) else lookup k t.daily) (any-groups k evs)
