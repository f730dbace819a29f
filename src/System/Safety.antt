-- ===== src/System/Safety.antt =====
-- What holds of the whole system in every round of the database thread.
use s_size_store.Prelude.{ℤ, List, [], ◌∷◌, Option, none, some, Bool-cases, inl, inr}
use s_size_store.Models.{TsMs}
use s_size_store.Events.{drain_events, drain_conversions}
use s_size_store.Db.{Tables, rollup_daily, prune_events}
use s_size_store.Db.Pruning.{prune_events-IsTokenSet}
use s_size_store.Config.{Config}
use s_size_store.Handlers.{Library, Context, CatalogPtr}
use s_size_store.Handlers.Feed.Coherence.{IsFresh}
use s_size_store.Handlers.Files.{FileSystem}
use s_size_store.Handlers.Life.{
  Reaches, here, followed_by, new_snapshot, events_drained, conversions_drained, started, IsSound,
  reachable-IsSound,
}
use s_size_store.Worker.{
  Refusals, UpkeepRefusals, flush_events, flush_conversions, maintenance, try_maintenance,
}
use s_size_store.Worker.Flushing.{IsIndexed, flush_events-IsIndexed, record_from-IsIndexed}
use s_size_store.System.{
  System, Round, Loaded, Visit, is_due, publish_loaded, snapshot_ptr, refresh, upkeep, flush_clicks,
  flush_postbacks, visits, flushes, round, rounds, run, launched, world_of,
}
use s_size_store.System.Requests.{serve-Reaches}

-- A snapshot is put where no object lives that the cache keeps alive.
abbrev pub IsFreshLoad : Option Loaded → Context → Type 0
IsFreshLoad none ctx = Unit
IsFreshLoad (some l) ctx = IsFresh l.address ctx.feed_cache_for

abbrev pub AreFresh : Library → FileSystem → List Round → System → Type 0
AreFresh lib fs [] s = Unit
AreFresh lib fs (r ∷ rs) s = IsFreshLoad r.loaded s.ctx × AreFresh lib fs rs (round lib fs r s)

-- The context is one that requests, snapshots and drains lead to, and the tables keep their indexes.
pub record IsSafe (lib : Library) (start : Context) (s : System) : Type 0 where
  pub reached : Reaches lib start s.ctx
  pub indexed : IsIndexed s.tables

try_maintenance-IsIndexed :
    (refused : UpkeepRefusals) (now : TsMs) (retention : ℤ) (t : Tables)
    → IsIndexed t
    → IsIndexed (try_maintenance refused now retention t)
unfolding try_maintenance maintenance rollup_daily
try_maintenance-IsIndexed refused now retention t h = elim (Bool-cases refused.rollup) [
  | inl no_rollup ↦ rw (no_rollup, try_maintenance) h
  | inr rolled ↦ elim (Bool-cases refused.prune) [
    | inl no_prune ↦
        rw (rolled, no_prune, try_maintenance) (record { tokens = h.tokens; orders = h.orders })
    | inr pruned ↦
        rw (rolled, pruned, try_maintenance)
          (record {
            tokens = prune_events-IsTokenSet _ _ h.tokens;
            orders = unfold prune_events in h.orders;
          })
  ]
]

module _ (lib : Library) (start : Context) where
  publish_loaded-Reaches :
      (o : Option Loaded) (ctx : Context)
      → IsFreshLoad o ctx
      → Reaches lib start ctx
      → Reaches lib start (publish_loaded o ctx)
  publish_loaded-Reaches none ctx fresh h = h
  publish_loaded-Reaches (some l) ctx fresh h =
      followed_by h (new_snapshot (snapshot_ptr l) ctx fresh)

  refresh-IsSafe :
      (r : Round) (s : System)
      → IsFreshLoad r.loaded s.ctx
      → IsSafe lib start s
      → IsSafe lib start (refresh r s)
  unfolding refresh
  refresh-IsSafe r s fresh h = elim (Bool-cases (is_due r.loop_start s.next_refresh)) [
    | inl due ↦
        rw (due, refresh)
          (record {
            reached = publish_loaded-Reaches r.loaded s.ctx fresh h.reached;
            indexed = h.indexed;
          })
    | inr early ↦ rw (early, refresh) h
  ]

  upkeep-IsSafe : (r : Round) (s : System) → IsSafe lib start s → IsSafe lib start (upkeep r s)
  unfolding upkeep
  upkeep-IsSafe r s h = elim (Bool-cases (is_due r.loop_start s.next_maintenance)) [
    | inl due ↦
        rw (due, upkeep)
          (record {
            reached = h.reached;
            indexed =
                try_maintenance-IsIndexed r.upkeep_refused r.wall_clock
                  s.ctx.cfg.event_retention_days s.tables h.indexed;
          })
    | inr early ↦ rw (early, upkeep) h
  ]

  flush_clicks-IsSafe :
      (refused : Refusals) (s : System)
      → IsSafe lib start s
      → IsSafe lib start (flush_clicks refused s).0
  unfolding flush_clicks flush_events drain_events
  flush_clicks-IsSafe refused s h = record {
    reached = unfold drain_events in followed_by h.reached (events_drained s.ctx);
    indexed = flush_events-IsIndexed refused (world_of s) h.indexed;
  }

  flush_postbacks-IsSafe :
      (refused : Refusals) (s : System)
      → IsSafe lib start s
      → IsSafe lib start (flush_postbacks refused s)
  unfolding flush_postbacks flush_conversions drain_conversions
  flush_postbacks-IsSafe refused s h = record {
    reached = unfold drain_conversions in followed_by h.reached (conversions_drained s.ctx);
    indexed =
        record_from-IsIndexed refused.conversion 0 s.ctx.conversions.pending s.tables h.indexed;
  }

  module _ (fs : FileSystem) where
    visits-IsSafe :
        (vs : List Visit) (s : System) → IsSafe lib start s → IsSafe lib start (visits lib fs vs s)
    unfolding visits
    visits-IsSafe vs s h = record {
      reached = serve-Reaches lib fs start vs s.ctx h.reached;
      indexed = h.indexed;
    }

    flushes-IsSafe :
        (r : Round) (s : System) → IsSafe lib start s → IsSafe lib start (flushes lib fs r s)
    unfolding flushes
    flushes-IsSafe r s h =
        let served =
          visits-IsSafe r.before_conversions (flush_clicks r.refused s).0
            (flush_clicks-IsSafe r.refused s h) in
        elim (Bool-cases (flush_clicks r.refused s).1) [
          | inl returned ↦ rw (returned, flushes) (flush_postbacks-IsSafe r.refused _ served)
          | inr threw ↦ rw (threw, flushes) served
        ]

    round-IsSafe :
        (r : Round) (s : System)
        → IsFreshLoad r.loaded s.ctx
        → IsSafe lib start s
        → IsSafe lib start (round lib fs r s)
    unfolding round
    round-IsSafe r s fresh h = visits-IsSafe r.asleep _ (
        upkeep-IsSafe r _ (
          visits-IsSafe r.before_maintenance _
            (flushes-IsSafe r _ (visits-IsSafe r.before_events _ (refresh-IsSafe r s fresh h)))))

    rounds-IsSafe :
        (rs : List Round) (s : System)
        → AreFresh lib fs rs s
        → IsSafe lib start s
        → IsSafe lib start (rounds lib fs rs s)
    unfolding rounds
    rounds-IsSafe [] s fresh h = h
    rounds-IsSafe (r ∷ rs) s (fresh, later) h =
        rounds-IsSafe rs (round lib fs r s) later (round-IsSafe r s fresh h)

-- Whatever requests are handled and whatever sqlite refuses, from the launch of the thread to its
-- last flush: the settings are those of the launch, the cache of the feeds is coherent, the buffer of
-- events is within the configured capacity, and both unique indexes hold in the tables, if they held
-- at the launch and no snapshot is put at the address of an object that is alive.
pub run-IsSound :
    (lib : Library) (fs : FileSystem) (cfg : Config) (p : CatalogPtr) (t : Tables) (clock : ℤ)
    (rs : List Round) (last : Refusals)
    → AreFresh lib fs rs (launched cfg p t clock)
    → IsIndexed t
    → IsSound lib cfg (run lib fs rs last (launched cfg p t clock)).ctx
      × IsIndexed (run lib fs rs last (launched cfg p t clock)).tables
unfolding run launched
run-IsSound lib fs cfg p t clock rs last fresh indexed =
    let begun : IsSafe lib (started cfg p) (launched cfg p t clock) = record {
      reached = here;
      indexed = indexed;
    } in
    let over =
      flush_clicks-IsSafe lib (started cfg p) last _
        (rounds-IsSafe lib (started cfg p) fs rs _ fresh begun) in
    (reachable-IsSound lib cfg p _ over.reached, over.indexed)
