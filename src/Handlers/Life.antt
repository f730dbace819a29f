-- ===== src/Handlers/Life.antt =====
-- The life of a server: requests, snapshots that the database thread publishes, and drains of the
-- two buffers, in any order.
use s_size_store.Prelude.{◌≤◌, ◌≡◌, ◌∙◌, refl, [], none, arith, length}
use s_size_store.Bytes.{Bytes, codes, Lacks}
use s_size_store.Query.{Query}
use s_size_store.Events.{event_queue, conversion_queue, drain_events, drain_conversions}
use s_size_store.Config.{Config}
use s_size_store.Http.{HttpRequest}
use s_size_store.Handlers.{Library, Draws, Context, CatalogPtr, param}
use s_size_store.Handlers.Feed.{handle_feed, render_feed}
use s_size_store.Handlers.Feed.Coherence.{IsCoherent, IsFresh, publish, publish-IsCoherent}
use s_size_store.Handlers.Feed.Fresh.{handle_feed_fresh, fresh_page}
use s_size_store.Handlers.Feed.Keys.{separator}
use s_size_store.Handlers.Files.{FileSystem}
use s_size_store.Handlers.Dispatch.{dispatch}
use s_size_store.Handlers.Dispatch.Caching.{dispatch-IsCoherent, dispatch-IsFramed}

-- The context that `main` makes.
abbrev pub started : Config → CatalogPtr → Context
started cfg p = record {
  cfg = cfg;
  catalog = p;
  events = event_queue cfg.event_queue_capacity;
  conversions = conversion_queue;
  feed_cache_for = none;
  feed_cache = [];
}

-- One step, on the context. A new snapshot is at a fresh address, as the cache keeps its own alive.
pub data Step (lib : Library) : Context → Context → Type 0 where
  request :
      (fs : FileSystem) (draws : Draws) (req : HttpRequest) (client_ip : Bytes) (ctx : Context)
      → Step lib ctx (dispatch lib fs draws req client_ip ctx).0
  new_snapshot :
      (p : CatalogPtr) (ctx : Context)
      → IsFresh p.address ctx.feed_cache_for
      → Step lib ctx (publish p ctx)
  events_drained :
      (ctx : Context) → Step lib ctx (record ctx { events = (drain_events ctx.events).0 })
  conversions_drained :
      (ctx : Context)
      → Step lib ctx (record ctx { conversions = (drain_conversions ctx.conversions).0 })

-- Any number of steps, the last one outermost.
pub data Reaches (lib : Library) (start : Context) : Context → Type 0 where
  here : Reaches lib start start
  followed_by :
      {ctx ctx' : Context} → Reaches lib start ctx → Step lib ctx ctx' → Reaches lib start ctx'

-- What every reachable context satisfies.
pub record IsSound (lib : Library) (cfg : Config) (ctx : Context) : Type 0 where
  pub coherent : IsCoherent lib ctx
  pub same_cfg : ctx.cfg ≡ cfg
  pub same_capacity : ctx.events.max_pending ≡ cfg.event_queue_capacity
  pub bounded : length ctx.events.pending ≤ ctx.events.max_pending

Step-IsSound :
    (lib : Library) (cfg : Config) (ctx ctx' : Context)
    → IsSound lib cfg ctx
    → Step lib ctx ctx'
    → IsSound lib cfg ctx'
unfolding drain_events drain_conversions
Step-IsSound lib cfg ctx ctx' h (request fs draws req client_ip c) =
    let framed = dispatch-IsFramed lib fs draws req client_ip ctx h.bounded in
    record {
      coherent = dispatch-IsCoherent lib fs draws req client_ip ctx h.coherent;
      same_cfg = framed.same_cfg ∙ h.same_cfg;
      same_capacity = framed.same_capacity ∙ h.same_capacity;
      bounded = framed.bounded;
    }
Step-IsSound lib cfg ctx ctx' h (new_snapshot p c fresh) = record {
  coherent = publish-IsCoherent lib p ctx fresh h.coherent;
  same_cfg = h.same_cfg;
  same_capacity = h.same_capacity;
  bounded = h.bounded;
}
Step-IsSound lib cfg ctx ctx' h (events_drained c) =
    let coherent = h.coherent in
    record {
      coherent = record {
        fits = coherent.fits;
        consistent = coherent.consistent;
        bounded = coherent.bounded;
      };
      same_cfg = h.same_cfg;
      same_capacity = h.same_capacity;
      bounded = omega arith;
    }
Step-IsSound lib cfg ctx ctx' h (conversions_drained c) =
    let coherent = h.coherent in
    record {
      coherent = record {
        fits = coherent.fits;
        consistent = coherent.consistent;
        bounded = coherent.bounded;
      };
      same_cfg = h.same_cfg;
      same_capacity = h.same_capacity;
      bounded = h.bounded;
    }

started-IsSound : (lib : Library) (cfg : Config) (p : CatalogPtr) → IsSound lib cfg (started cfg p)
started-IsSound lib cfg p = record {
  coherent = record { fits = refl; consistent = tt; bounded = omega arith };
  same_cfg = refl;
  same_capacity = refl;
  bounded = omega arith;
}

-- Whatever requests have been served, snapshots published and buffers drained since the server
-- started, the settings are those it started with, the cache is coherent and the buffer of events is
-- within the configured capacity.
pub reachable-IsSound :
    (lib : Library) (cfg : Config) (p : CatalogPtr) (ctx : Context)
    → Reaches lib (started cfg p) ctx
    → IsSound lib cfg ctx
reachable-IsSound lib cfg p ctx here = started-IsSound lib cfg p
reachable-IsSound lib cfg p ctx (followed_by before step) =
    Step-IsSound lib cfg _ ctx (reachable-IsSound lib cfg p _ before) step

-- A running server never shows a visitor a stale feed: in every reachable context the feed is the
-- page that rendering the snapshot of the moment afresh gives (or the same exception), if the tag and
-- the size of the request are free of the byte that separates them in a key of the cache.
pub reachable_feed_fresh :
    (lib : Library) (cfg : Config) (p : CatalogPtr) (ctx : Context) (q : Query)
    → Reaches lib (started cfg p) ctx
    → Lacks separator (param q (codes "tag") [])
    → Lacks separator (param q (codes "size") [])
    → (handle_feed lib q ctx).1
      ≡ fresh_page (
          render_feed lib cfg ctx.catalog.snapshot
            (param q (codes "tag") [])
            (param q (codes "size") [])
            (param q (codes "q") []))
reachable_feed_fresh lib cfg p ctx q run tag_ok size_ok =
    let sound = reachable-IsSound lib cfg p ctx run in
    rw (← sound.same_cfg) (handle_feed_fresh lib q ctx sound.coherent tag_ok size_ok)
