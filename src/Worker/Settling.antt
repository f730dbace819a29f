-- ===== src/Worker/Settling.antt =====
-- A round that sqlite does not disturb loses nothing.
use s_size_store.Prelude.{
  ℕ, suc, ◌≡◌, subst, ◌≢◌, ◌∙◌, inl, inr, refl, sym, true, false, Bool, not, ◌||◌, List, [], ◌∷◌,
  ◌++◌, some, arith, any, All, ==_refl, list_eq, nat_eq,
}
use s_size_store.Bytes.{Bytes, is_empty}
use s_size_store.Models.{Event}
use s_size_store.Events.{Conversion, drain_events, drain_conversions}
use s_size_store.Db.{
  Tables, ConversionRow, record_conversion, has_token, known_status, same_order, row_of,
}
use s_size_store.Db.Batches.{IsTokenSet, insert_events_written}
use s_size_store.Db.Conversions.{any-upsert}
use s_size_store.Worker.{
  World, Refusals, flush_events, flush_conversions, record_from, flush, goes_on,
}
use s_size_store.Worker.Flushing.{flush_events_cases, record_conversion-events}

-- Is there a row for this order?
abbrev pub has_order : Bytes → List ConversionRow → Bool
has_order order rows = any (λ s. same_order s.order_ref (some order)) rows

-- The conversion has a row, if its click is in the table and it names an order.
abbrev pub settled : List Event → List ConversionRow → Conversion → Bool
settled events rows c =
    not (any (has_token c.click_token) events)
    || (is_empty c.order_ref || has_order c.order_ref rows)

record_conversion-has_order :
    (order : Bytes) (c : Conversion) (t : Tables)
    → has_order order t.conversions ≡ true
    → has_order order (record_conversion false c t).0.conversions ≡ true
unfolding record_conversion
record_conversion-has_order order c t h =
    ground (arith, any-upsert (some order) (row_of c) t.conversions)

record_from-has_order :
    (order : Bytes) (i : ℕ) (cs : List Conversion) (t : Tables)
    → has_order order t.conversions ≡ true
    → has_order order (record_from (λ n. false) i cs t).conversions ≡ true
unfolding record_from
record_from-has_order order i [] t h = h
record_from-has_order order i (c ∷ cs) t h = ground (
  arith,
  record_conversion-has_order order c t h,
  record_from-has_order order (suc i) cs (record_conversion false c t).0,
)

-- The first conversion of a batch gets its row.
record_conversion-settled :
    (c : Conversion) (t : Tables)
    → known_status c.status ≡ true
    → settled t.events (record_conversion false c t).0.conversions c ≡ true
unfolding record_conversion row_of
record_conversion-settled c t known =
    ground (arith, any-upsert (some c.order_ref) (row_of c) t.conversions, ==_refl c.order_ref)

goes_on-known :
    (c : Conversion) (t : Tables)
    → known_status c.status ≡ true
    → goes_on (record_conversion false c t).1 ≡ true
unfolding record_conversion
goes_on-known c t known = ground arith

settled_mono :
    (events : List Event) (rows rows' : List ConversionRow) (c : Conversion)
    → settled events rows c ≡ true
    → (has_order c.order_ref rows ≡ true → has_order c.order_ref rows' ≡ true)
    → settled events rows' c ≡ true
settled_mono events rows rows' c h mono = ground (arith, mono)

record_from-cons :
    (i : ℕ) (c : Conversion) (cs : List Conversion) (t : Tables)
    → known_status c.status ≡ true
    → record_from (λ n. false) i (c ∷ cs) t
      ≡ record_from (λ n. false) (suc i) cs (record_conversion false c t).0
unfolding record_from
record_from-cons i c cs t known = rw (goes_on-known c t known, record_from) refl

pub record_from-settled :
    (events : List Event) (i : ℕ) (cs : List Conversion) (t : Tables)
    → t.events ≡ events
    → All (λ c. known_status c.status ≡ true) cs
    → All (λ c. settled events (record_from (λ n. false) i cs t).conversions c ≡ true) cs
record_from-settled events i [] t e h = tt
record_from-settled events i (c ∷ cs) t e (known, h) =
    let t' : Tables = (record_conversion false c t).0 in
    let first : settled events t'.conversions c ≡ true =
      rw (← e) (record_conversion-settled c t known) in
    subst (λ (last : Tables). All (λ d. settled events last.conversions d ≡ true) (c ∷ cs))
      (sym (record_from-cons i c cs t known))
      (
        settled_mono events t'.conversions (record_from (λ n. false) (suc i) cs t').conversions c
            first (record_from-has_order c.order_ref (suc i) cs t'),
        record_from-settled events (suc i) cs t' (record_conversion-events false c t ∙ e) h,
      )

pub record_from-events :
    (refused : ℕ → Bool) (i : ℕ) (cs : List Conversion) (t : Tables)
    → (record_from refused i cs t).events ≡ t.events
unfolding record_from
record_from-events refused i [] t = refl
record_from-events refused i (c ∷ cs) t = ground (
  arith,
  record_from-events refused (suc i) cs (record_conversion (refused i) c t).0,
  record_conversion-events (refused i) c t,
)

abbrev pub none_refused : Refusals
none_refused = record { event = λ n. false; conversion = λ n. false }

flush-returned :
    (w : World)
    → (flush_events none_refused w).1 ≡ true
    → flush none_refused w ≡ flush_conversions none_refused (flush_events none_refused w).0
unfolding flush
flush-returned w e = rw (e, flush) refl

pub flush_events-returned :
    (w : World)
    → IsTokenSet w.tables.events w.events.pending
    → (flush_events none_refused w).1 ≡ true
unfolding flush_events drain_events
flush_events-returned w tokens = insert_events_written w.events.pending w.tables tokens

-- What a round has done when it ends with the world `after`.
pub record IsSettled (w after : World) : Type 0 where
  pub written : after.tables.events ≡ w.tables.events ++ w.events.pending
  pub no_events : after.events.pending ≡ []
  pub no_conversions : after.conversions.pending ≡ []
  pub all_settled :
      All
        (λ c. settled (w.tables.events ++ w.events.pending) after.tables.conversions c ≡ true)
        w.conversions.pending

flush_conversions-IsSettled :
    (w w' : World)
    → w'.tables.events ≡ w.tables.events ++ w.events.pending
    → w'.events.pending ≡ []
    → w'.conversions ≡ w.conversions
    → All (λ c. known_status c.status ≡ true) w.conversions.pending
    → IsSettled w (flush_conversions none_refused w')
unfolding flush_conversions drain_conversions
flush_conversions-IsSettled w w' written empty same known = record {
  written = record_from-events (λ n. false) 0 w'.conversions.pending w'.tables ∙ written;
  no_events = empty;
  no_conversions = refl;
  all_settled = rw same (
      record_from-settled (w.tables.events ++ w.events.pending) 0 w.conversions.pending w'.tables
        written known);
}

true-ne-false : true ≢ false
true-ne-false e = cc

pub flush_events-written :
    (w : World)
    → (flush_events none_refused w).1 ≡ true
    → (flush_events none_refused w).0.tables.events ≡ w.tables.events ++ w.events.pending
flush_events-written w returned = elim (flush_events_cases none_refused w).1 [
  | inl (written, _) ↦ written
  | inr (_, threw) ↦ absurd (true-ne-false (sym returned ∙ threw))
]

pub flush_events-conversions :
    (r : Refusals) (w : World) → (flush_events r w).0.conversions ≡ w.conversions
unfolding flush_events
flush_events-conversions r w = refl

-- A round in which sqlite refuses nothing of its own accord loses nothing, if the tokens of the
-- pending events are new and the pending statuses are known: all pending events are written, the
-- buffers are empty, and every pending conversion that names an order has a row, if its click was in
-- the table or among the pending events.
pub flush-IsSettled :
    (w : World)
    → IsTokenSet w.tables.events w.events.pending
    → All (λ c. known_status c.status ≡ true) w.conversions.pending
    → IsSettled w (flush none_refused w)
flush-IsSettled w tokens known =
    let returned = flush_events-returned w tokens in
    rw (flush-returned w returned) (
      flush_conversions-IsSettled w (flush_events none_refused w).0
        (flush_events-written w returned) (flush_events_cases none_refused w).0
        (flush_events-conversions none_refused w) known)
