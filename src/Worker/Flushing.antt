-- ===== src/Worker/Flushing.antt =====
-- What a round of the database thread writes, and what it loses.
use s_size_store.Prelude.{
  ℕ, suc, ◌≡◌, ◌⊎◌, inl, inr, refl, ap, true, false, Bool, List, [], ◌∷◌, ◌++◌, arith, Bool-cases,
  list_eq, nat_eq,
}
use s_size_store.Models.{Event}
use s_size_store.Events.{Conversion, drain_events, drain_conversions}
use s_size_store.Db.{Tables, insert_events, record_conversion}
use s_size_store.Db.Batches.{IsTokenSet, insert_events_cases, insert_events-IsTokenSet}
use s_size_store.Db.Conversions.{IsOrderSet, record_conversion-IsOrderSet}
use s_size_store.Worker.{
  World, Refusals, flush_events, flush_conversions, record_from, flush, goes_on,
}

-- The events of a flush are all written behind the rows, in order, or all lost; either way the
-- buffer is empty.
pub flush_events_cases :
    (r : Refusals) (w : World)
    → ((flush_events r w).0.events.pending ≡ [])
      × (((flush_events r w).0.tables.events ≡ w.tables.events ++ w.events.pending)
            × ((flush_events r w).1 ≡ true)
          ⊎ ((flush_events r w).0.tables.events ≡ w.tables.events) × ((flush_events r w).1 ≡ false))
unfolding flush_events drain_events
flush_events_cases r w = elim (insert_events_cases r.event w.events.pending w.tables) [
  | inl e ↦
      (refl, inl (ap (λ (o : Tables × Bool). o.0.events) e, ap (λ (o : Tables × Bool). o.1) e))
  | inr e ↦
      (refl, inr (ap (λ (o : Tables × Bool). o.0.events) e, ap (λ (o : Tables × Bool). o.1) e))
]

pub record_conversion-events :
    (refused : Bool) (c : Conversion) (t : Tables)
    → (record_conversion refused c t).0.events ≡ t.events
unfolding record_conversion
record_conversion-events refused c t = ground arith

-- The constraints of the two tables.
pub record IsIndexed (t : Tables) : Type 0 where
  pub tokens : IsTokenSet [] t.events
  pub orders : IsOrderSet t.conversions

pub record_from-IsIndexed :
    (refused : ℕ → Bool) (i : ℕ) (cs : List Conversion) (t : Tables)
    → IsIndexed t
    → IsIndexed (record_from refused i cs t)
unfolding record_from
record_from-IsIndexed refused i [] t h = h
record_from-IsIndexed refused i (c ∷ cs) t h =
    let next : IsIndexed (record_conversion (refused i) c t).0 = record {
      tokens = rw (record_conversion-events (refused i) c t) h.tokens;
      orders = record_conversion-IsOrderSet (refused i) c t h.orders;
    } in
    elim (Bool-cases (goes_on (record_conversion (refused i) c t).1)) [
      | inl more ↦ rw (more, record_from) (record_from-IsIndexed refused (suc i) cs _ next)
      | inr ended ↦ rw (ended, record_from) next
    ]

insert_events-conversions :
    (refused : ℕ → Bool) (batch : List Event) (t : Tables)
    → (insert_events refused batch t).0.conversions ≡ t.conversions
insert_events-conversions refused batch t = elim (insert_events_cases refused batch t) [
  | inl e ↦ ap (λ (o : Tables × Bool). o.0.conversions) e
  | inr e ↦ ap (λ (o : Tables × Bool). o.0.conversions) e
]

pub flush_events-IsIndexed :
    (r : Refusals) (w : World) → IsIndexed w.tables → IsIndexed (flush_events r w).0.tables
unfolding flush_events drain_events
flush_events-IsIndexed r w h = record {
  tokens = insert_events-IsTokenSet r.event w.events.pending w.tables h.tokens;
  orders = rw (insert_events-conversions r.event w.events.pending w.tables) h.orders;
}

-- Whatever sqlite refuses in a round, the two unique indexes hold in the tables that it leaves.
pub flush-IsIndexed : (r : Refusals) (w : World) → IsIndexed w.tables → IsIndexed (flush r w).tables
unfolding flush flush_conversions drain_conversions
flush-IsIndexed r w h =
    let events = flush_events-IsIndexed r w h in
    elim (Bool-cases (flush_events r w).1) [
      | inl returned ↦ rw (returned, flush) (record_from-IsIndexed r.conversion 0 _ _ events)
      | inr threw ↦ rw (threw, flush) events
    ]

pub flush_events-rows :
    (r : Refusals) (w : World) → (flush_events r w).0.tables.conversions ≡ w.tables.conversions
unfolding flush_events drain_events
flush_events-rows r w = insert_events-conversions r.event w.events.pending w.tables
