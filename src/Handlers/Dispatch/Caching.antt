-- ===== src/Handlers/Dispatch/Caching.antt =====
-- What a request leaves of the context.
use s_size_store.Prelude.{
  ◌≤◌, length, length-append, ◌≡◌, ◌∙◌, refl, List, [], ◌∷◌, Option, arith, list_eq, nat_eq,
}
use s_size_store.Bytes.{Bytes}
use s_size_store.Models.{Event}
use s_size_store.Events.{EventQueue, push_event}
use s_size_store.Query.{split_target, parse_query}
use s_size_store.Http.{HttpRequest}
use s_size_store.Handlers.{CatalogPtr, Library, Draws, Context}
use s_size_store.Handlers.Cookies.{identify}
use s_size_store.Handlers.Feed.Coherence.{IsCoherent, handle_feed-IsCoherent}
use s_size_store.Handlers.Files.{FileSystem}
use s_size_store.Handlers.Dispatch.{local_path, route, handled, dispatch}
use s_size_store.Handlers.Dispatch.Keeping.{IsStable, dispatch-keeps, run_route-keeps}

-- The settings and the snapshot of `ctx`, and a buffer of events within its capacity.
pub record IsFramed (start ctx : Context) : Type 0 where
  pub same_cfg : ctx.cfg ≡ start.cfg
  pub same_catalog : ctx.catalog ≡ start.catalog
  pub same_capacity : ctx.events.max_pending ≡ start.events.max_pending
  pub bounded : length ctx.events.pending ≤ ctx.events.max_pending

IsCoherent-IsStable : (lib : Library) → IsStable (IsCoherent lib)
IsCoherent-IsStable lib = record {
  event = λ ev ctx h. record { fits = h.fits; consistent = h.consistent; bounded = h.bounded };
  conversion =
      λ conv ctx valid h. record { fits = h.fits; consistent = h.consistent; bounded = h.bounded };
}

push_event_bounded :
    (ev : Event) (q : EventQueue)
    → length q.pending ≤ q.max_pending
    → ((push_event ev q).0.max_pending ≡ q.max_pending)
      × (length (push_event ev q).0.pending ≤ (push_event ev q).0.max_pending)
unfolding push_event
push_event_bounded ev q h = ground (arith, length-append q.pending (ev ∷ []))

IsFramed-IsStable : (start : Context) → IsStable (IsFramed start)
IsFramed-IsStable start = record {
  event = λ ev ctx h.
      let (capacity, bounded) = push_event_bounded ev ctx.events h.bounded in
      record {
        same_cfg = h.same_cfg;
        same_catalog = h.same_catalog;
        same_capacity = capacity ∙ h.same_capacity;
        bounded = bounded;
      };
  conversion = λ conv ctx valid h. record {
    same_cfg = h.same_cfg;
    same_catalog = h.same_catalog;
    same_capacity = h.same_capacity;
    bounded = h.bounded;
  };
}

IsFramed-cache :
    (start ctx : Context) (owner : Option CatalogPtr) (cache : List (Bytes × Bytes))
    → IsFramed start ctx
    → IsFramed start (record ctx { feed_cache = cache; feed_cache_for = owner })
IsFramed-cache start ctx owner cache h = record {
  same_cfg = h.same_cfg;
  same_catalog = h.same_catalog;
  same_capacity = h.same_capacity;
  bounded = h.bounded;
}

-- A request of any kind, whatever its outcome, leaves the cache of the feeds coherent.
pub dispatch-IsCoherent :
    (lib : Library) (fs : FileSystem) (draws : Draws) (req : HttpRequest) (client_ip : Bytes)
    (ctx : Context)
    → IsCoherent lib ctx
    → IsCoherent lib (dispatch lib fs draws req client_ip ctx).0
unfolding dispatch handled
dispatch-IsCoherent lib fs draws req client_ip ctx h =
    run_route-keeps (IsCoherent lib) (IsCoherent-IsStable lib) lib draws (identify req draws) req
      client_ip fs (route req.method (local_path ctx.cfg.base_path (split_target req.target).path))
      (parse_query (split_target req.target).query) ctx h (handle_feed-IsCoherent lib _ ctx h)

-- A request of any kind, whatever its outcome, changes neither the settings nor the snapshot, and
-- never fills the buffer of events beyond its capacity.
pub dispatch-IsFramed :
    (lib : Library) (fs : FileSystem) (draws : Draws) (req : HttpRequest) (client_ip : Bytes)
    (ctx : Context)
    → length ctx.events.pending ≤ ctx.events.max_pending
    → IsFramed ctx (dispatch lib fs draws req client_ip ctx).0
dispatch-IsFramed lib fs draws req client_ip ctx bounded =
    dispatch-keeps (IsFramed ctx) (IsFramed-IsStable ctx)
      (λ c owner cache h. IsFramed-cache ctx c owner cache h) lib fs draws req client_ip ctx
      (record { same_cfg = refl; same_catalog = refl; same_capacity = refl; bounded = bounded })
