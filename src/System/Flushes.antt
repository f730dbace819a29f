-- ===== src/System/Flushes.antt =====
-- The two flushes of a round that sqlite does not disturb.
use s_size_store.Prelude.{◌≡◌, ◌∙◌, refl, subst, true, false, ◌++◌, All, All-append_left}
use s_size_store.Events.{drain_conversions}
use s_size_store.Config.{Config}
use s_size_store.Db.Batches.{IsTokenSet}
use s_size_store.Worker.{flush_conversions}
use s_size_store.Worker.Settling.{
  none_refused, settled, flush_events-returned, flush_events-written, flush_events-conversions,
  record_from-settled, record_from-events,
}
use s_size_store.Handlers.{Library, Context, CatalogPtr}
use s_size_store.Handlers.Files.{FileSystem}
use s_size_store.Handlers.Life.{
  Reaches, here, followed_by, request, new_snapshot, events_drained, conversions_drained, started,
}
use s_size_store.System.{System, Round, flush_clicks, flush_postbacks, visits, flushes, world_of}
use s_size_store.System.Requests.{
  Extends, AreKnown, dispatch-AreKnown, serve-AreKnown, serve-IsAfter,
}

-- In every reachable context the pending statuses are those that the table of conversions admits.
pub reachable-AreKnown :
    (lib : Library) (cfg : Config) (p : CatalogPtr) (ctx : Context)
    → Reaches lib (started cfg p) ctx
    → AreKnown ctx
unfolding drain_conversions
reachable-AreKnown lib cfg p ctx here = tt
reachable-AreKnown lib cfg p ctx (followed_by before (request fs draws req client_ip c)) =
    dispatch-AreKnown lib fs draws req client_ip c (reachable-AreKnown lib cfg p c before)
reachable-AreKnown lib cfg p ctx (followed_by before (new_snapshot q c fresh)) =
    reachable-AreKnown lib cfg p c before
reachable-AreKnown lib cfg p ctx (followed_by before (events_drained c)) =
    reachable-AreKnown lib cfg p c before
reachable-AreKnown lib cfg p ctx (followed_by before (conversions_drained c)) = tt

-- What the flushes of a round have done with what was pending.
pub record IsFlushed (s after : System) : Type 0 where
  pub written : after.tables.events ≡ s.tables.events ++ s.ctx.events.pending
  pub all_settled :
      All
        (λ c. settled (s.tables.events ++ s.ctx.events.pending) after.tables.conversions c ≡ true)
        s.ctx.conversions.pending

module _ (lib : Library) (fs : FileSystem) where
  flush_postbacks-IsFlushed :
      (s served : System)
      → served.tables.events ≡ s.tables.events ++ s.ctx.events.pending
      → Extends s.ctx.conversions.pending served.ctx.conversions.pending
      → AreKnown served.ctx
      → IsFlushed s (flush_postbacks none_refused served)
  unfolding flush_postbacks flush_conversions drain_conversions
  flush_postbacks-IsFlushed s served written (rest, longer) known = record {
    written =
        record_from-events (λ n. false) 0 served.ctx.conversions.pending served.tables ∙ written;
    all_settled = All-append_left _ s.ctx.conversions.pending rest (
        subst
          (λ cs.
            All
              (λ c.
                settled (s.tables.events ++ s.ctx.events.pending)
                  (flush_postbacks none_refused served).tables.conversions c
                ≡ true)
              cs)
          longer
          (record_from-settled (s.tables.events ++ s.ctx.events.pending) 0
            served.ctx.conversions.pending served.tables written known));
  }

  flush_clicks-returned :
      (s : System)
      → IsTokenSet s.tables.events s.ctx.events.pending
      → (flush_clicks none_refused s).1 ≡ true
  unfolding flush_clicks
  flush_clicks-returned s tokens = flush_events-returned (world_of s) tokens

  cleared_written :
      (s : System)
      → IsTokenSet s.tables.events s.ctx.events.pending
      → ((flush_clicks none_refused s).0.tables.events ≡ s.tables.events ++ s.ctx.events.pending)
        × ((flush_clicks none_refused s).0.ctx.conversions ≡ s.ctx.conversions)
  unfolding flush_clicks
  cleared_written s tokens = (
    flush_events-written (world_of s) (flush_events-returned (world_of s) tokens),
    flush_events-conversions none_refused (world_of s),
  )

  flushes-returned :
      (r : Round) (s : System)
      → r.refused ≡ none_refused
      → (flush_clicks none_refused s).1 ≡ true
      → flushes lib fs r s
        ≡ flush_postbacks none_refused
            (visits lib fs r.before_conversions (flush_clicks none_refused s).0)
  unfolding flushes
  flushes-returned r s undisturbed returned = rw (undisturbed, returned, flushes) refl

  pub flushes-IsFlushed :
      (r : Round) (s : System)
      → r.refused ≡ none_refused
      → IsTokenSet s.tables.events s.ctx.events.pending
      → AreKnown s.ctx
      → IsFlushed s (flushes lib fs r s)
  unfolding visits
  flushes-IsFlushed r s undisturbed tokens known =
      let cleared : System = (flush_clicks none_refused s).0 in
      let (written, same) = cleared_written s tokens in
      let served = serve-IsAfter lib fs r.before_conversions cleared.ctx in
      rw (flushes-returned r s undisturbed (flush_clicks-returned s tokens)) (
        flush_postbacks-IsFlushed s (visits lib fs r.before_conversions cleared) written
          (rw same at served.conversions)
          (serve-AreKnown lib fs r.before_conversions cleared.ctx (rw same known)))
