-- ===== src/System/Delivery.antt =====
-- What is pending reaches the tables.
use s_size_store.Prelude.{
  ◌≡◌, ◌∙◌, refl, ap, Option, none, some, true, not, ◌&&◌, List, ◌++◌, arith, All, All-append_left,
  filter, Bool-cases, inl, inr, if◌then◌else◌, ltb_ℤ, ◌-ℤ◌,
}
use s_size_store.Models.{Event}
use s_size_store.Events.{Conversion}
use s_size_store.System.Turns.{until_upkeep, until_upkeep-IsTurned, refresh-IsTurned}
use s_size_store.Db.{Tables, ConversionRow, ms_per_day, rollup_daily, prune_events}
use s_size_store.Db.Batches.{IsTokenSet}
use s_size_store.Worker.{maintenance, try_maintenance, scale}
use s_size_store.Worker.Settling.{none_refused, settled}
use s_size_store.Handlers.{Library, Context}
use s_size_store.Handlers.Files.{FileSystem}
use s_size_store.System.{
  System, Round, is_due, upkeep, visits, Loaded, publish_loaded, refresh, round, flushes,
}
use s_size_store.System.Requests.{Extends, AreKnown, serve-AreKnown, serve-IsAfter}
use s_size_store.System.Flushes.{flushes-IsFlushed}

-- What the maintenance of a round, if it is due and nothing is refused, leaves of the events.
abbrev pub survivors : Round → System → List Event → List Event
survivors r s evs =
    if is_due r.loop_start s.next_maintenance
      && (not r.upkeep_refused.rollup && not r.upkeep_refused.prune)
    then filter
        (λ ev. not (ltb_ℤ ev.ts (r.wall_clock -ℤ scale s.ctx.cfg.event_retention_days ms_per_day)))
        evs
    else evs

upkeep-survivors :
    (r : Round) (s : System)
    → ((upkeep r s).tables.events ≡ survivors r s s.tables.events)
      × ((upkeep r s).tables.conversions ≡ s.tables.conversions)
unfolding upkeep try_maintenance maintenance rollup_daily prune_events
upkeep-survivors r s = ground arith

-- What a round has done with what was pending when it began; `rest` is what its first requests push.
pub record IsDelivered (r : Round) (s after : System) : Type 0 where
  pub rest : List Event
  pub written :
      after.tables.events ≡ survivors r s (s.tables.events ++ (s.ctx.events.pending ++ rest))
  pub all_settled :
      All
        (λ c.
          settled (s.tables.events ++ (s.ctx.events.pending ++ rest)) after.tables.conversions c
          ≡ true)
        s.ctx.conversions.pending

same_survivors :
    (r : Round) (s t : System) (evs : List Event)
    → t.next_maintenance ≡ s.next_maintenance
    → t.ctx.cfg ≡ s.ctx.cfg
    → survivors r t evs ≡ survivors r s evs
same_survivors r s t evs same_next same_cfg = rw (same_next, same_cfg) refl

publish_loaded-pending :
    (o : Option Loaded) (ctx : Context)
    → ((publish_loaded o ctx).events ≡ ctx.events)
      × ((publish_loaded o ctx).conversions ≡ ctx.conversions)
publish_loaded-pending none ctx = (refl, refl)
publish_loaded-pending (some l) ctx = (refl, refl)

refresh-pending :
    (r : Round) (s : System)
    → ((refresh r s).ctx.events ≡ s.ctx.events)
      × ((refresh r s).ctx.conversions ≡ s.ctx.conversions)
      × ((refresh r s).tables ≡ s.tables)
unfolding refresh
refresh-pending r s = elim (Bool-cases (is_due r.loop_start s.next_refresh)) [
  | inl due ↦
      let (events, conversions) = publish_loaded-pending r.loaded s.ctx in
      rw (due, refresh) (events, conversions, refl)
  | inr early ↦ rw (early, refresh) (refl, refl, refl)
]

-- The first conversions of a list that are settled, under other names for the tables.
settled_front :
    (evs evs' : List Event) (rows rows' : List ConversionRow) (cs more all : List Conversion)
    → evs' ≡ evs
    → rows' ≡ rows
    → all ≡ cs ++ more
    → All (λ c. settled evs' rows c ≡ true) all
    → All (λ c. settled evs rows' c ≡ true) cs
settled_front evs evs' rows rows' cs more all same_evs same_rows longer h =
    let h' : All (λ c. settled evs rows' c ≡ true) (cs ++ more) =
      rw (← same_evs, same_rows, ← longer) h in
    All-append_left _ cs more h'

module _ (lib : Library) (fs : FileSystem) (r : Round) (s : System) where
  -- What is pending when the round comes to the flushes.
  abbrev pub filled : System
  filled = visits lib fs r.before_events (refresh r s)

  filled-IsAfter :
      (filled.tables ≡ s.tables)
      × Extends s.ctx.events.pending filled.ctx.events.pending
      × Extends s.ctx.conversions.pending filled.ctx.conversions.pending
  unfolding visits
  filled-IsAfter =
      let (events, conversions, tables) = refresh-pending r s in
      let served = serve-IsAfter lib fs r.before_events (refresh r s).ctx in
      (tables, (rw events at served.events), (rw conversions at served.conversions))

  filled-AreKnown : AreKnown s.ctx → AreKnown filled.ctx
  unfolding visits
  filled-AreKnown known =
      let (_, conversions, _) = refresh-pending r s in
      serve-AreKnown lib fs r.before_events (refresh r s).ctx (rw conversions known)

  round-survivors :
      ((round lib fs r s).tables.events ≡ survivors r s (flushes lib fs r filled).tables.events)
      × ((round lib fs r s).tables.conversions ≡ (flushes lib fs r filled).tables.conversions)
  unfolding round visits
  round-survivors =
      let s3 = until_upkeep lib fs r s in
      let (events, conversions) = upkeep-survivors r s3 in
      let (kept, same_next) = until_upkeep-IsTurned lib fs r s in
      let (same_cfg, _, _, _) = refresh-IsTurned r s in
      (
        events ∙ same_survivors r s s3 s3.tables.events same_next (kept.same_cfg ∙ same_cfg),
        conversions,
      )

  -- An undisturbed round delivers all that is pending, if the tokens of the pending events are new:
  -- whatever requests come in between, the events that were pending when it began are in the table,
  -- each once and in their order, but for those that a due maintenance finds older than the retention;
  -- and each pending conversion has its row, if it names an order and its click is known. Pending
  -- statuses have to be known ones, as they are in every reachable context.
  pub round-IsDelivered :
      r.refused ≡ none_refused
      → IsTokenSet filled.tables.events filled.ctx.events.pending
      → AreKnown s.ctx
      → IsDelivered r s (round lib fs r s)
  round-IsDelivered undisturbed tokens known =
      let (same_tables, (rest, events), (more, conversions)) = filled-IsAfter in
      let flushed = flushes-IsFlushed lib fs r filled undisturbed tokens (filled-AreKnown known) in
      let (left, same) = round-survivors in
      let batch : filled.tables.events ++ filled.ctx.events.pending
          ≡ s.tables.events ++ (s.ctx.events.pending ++ rest) =
        ap (λ (t : Tables). t.events ++ filled.ctx.events.pending) same_tables
        ∙ ap (λ (evs : List Event). s.tables.events ++ evs) events in
      record {
        rest = rest;
        written = left ∙ ap (survivors r s) (flushed.written ∙ batch);
        all_settled =
            settled_front _ _ _ _ s.ctx.conversions.pending more _ batch same conversions
              flushed.all_settled;
      }
