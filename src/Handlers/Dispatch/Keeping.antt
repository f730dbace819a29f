-- ===== src/Handlers/Dispatch/Keeping.antt =====
-- What a request leaves of the context. What holds of the context whichever events and conversions
-- are pushed is kept by every handler but the feed's, which also changes the cache.
use s_size_store.Prelude.{
  ℕ, arith, ◌≡◌, ltb, length, suc, ℤ, not, Bool, true, false, List, [], Option, none, some,
  Bool-cases, Option-cases, inl, inr, lookup, list_eq, nat_eq, if◌then◌else◌, leb,
}
use s_size_store.Bytes.{Bytes, codes, is_empty}
use s_size_store.Models.{Event}
use s_size_store.Events.{Conversion, push_event, push_conversion}
use s_size_store.Decimal.{parse_int}
use s_size_store.Query.{Query, split_target, parse_query}
use s_size_store.Catalog
use s_size_store.Json.{array, Elements, nil, cons}
use s_size_store.Http.{HttpRequest}
use s_size_store.Handlers.{CatalogPtr, Library, Draws, Context, Outcome, Identity, log_event}
use s_size_store.Handlers.Cookies.{identify}
use s_size_store.Handlers.Feed.{
  handle_feed, serve_feed, refresh_cache, store_page, rendered, cached_or, same_object, cache_key,
  max_cached_feeds,
}
use s_size_store.Handlers.Pages.{handle_item, handle_redirect, show_item, redirect_item}
use s_size_store.Handlers.Files.{FileSystem}
use s_size_store.Handlers.Postback.{
  handle_postback, refuse, postback_for, record_postback, valid_status, signed, some_token,
  amount_of,
}
use s_size_store.Handlers.Beacon.{handle_beacon, beacon_body, max_batch, log_batch, read_impression}
use s_size_store.Handlers.Dispatch.{
  dispatch, handled, local_path, route, Route, feed, beacon, postback, healthz, unknown, item,
  redirect, static, media, run_route, with_id,
}

negated : (b : Bool) → not b ≡ false → b ≡ true
negated b h = ground arith

-- A property that pushing an event, or a conversion of one of the three statuses, keeps.
pub record IsStable (P : Context → Type 0) : Type 0 where
  pub event :
      (ev : Event) (ctx : Context)
      → P ctx
      → P (record ctx { events = (push_event ev ctx.events).0 })
  pub conversion :
      (conv : Conversion) (ctx : Context)
      → valid_status conv.status ≡ true
      → P ctx
      → P (record ctx { conversions = (push_conversion conv ctx.conversions).0 })

module _ (P : Context → Type 0) (stable : IsStable P) where
  if-keeps : (b : Bool) (x y : Outcome) → P x.0 → P y.0 → P (if b then x else y).0
  if-keeps true x y hx hy = hx
  if-keeps false x y hx hy = hy

  -- What the feed's handler needs as well: the cache is of no account.
  module _
      (forgets : (ctx : Context) (owner : Option CatalogPtr) (cache : List (Bytes × Bytes))
        → P ctx
        → P (record ctx { feed_cache = cache; feed_cache_for = owner })) where
    store_page-keeps :
        (cacheable : Bool) (key html : Bytes) (ctx : Context)
        → P ctx
        → P (store_page cacheable key html ctx)
    unfolding store_page
    store_page-keeps false key html ctx h = h
    store_page-keeps true key html ctx h =
        elim (Bool-cases (ltb (length ctx.feed_cache) max_cached_feeds)) [
          | inl room ↦ rw (room, store_page) (forgets ctx ctx.feed_cache_for _ h)
          | inr full ↦ rw (full, store_page) h
        ]

    rendered-keeps :
        (cacheable : Bool) (key : Bytes) (ctx : Context) (o : Option Bytes)
        → P ctx
        → P (rendered cacheable key ctx o).0
    rendered-keeps cacheable key ctx none h = h
    rendered-keeps cacheable key ctx (some html) h = store_page-keeps cacheable key html ctx h

    cached_or-keeps :
        (hit : Option Bytes) (ctx : Context) (out : Outcome)
        → P ctx
        → P out.0
        → P (cached_or hit ctx out).0
    cached_or-keeps none ctx out h k = k
    cached_or-keeps (some html) ctx out h k = h

    serve_feed-keeps :
        (lib : Library) (tag size query : Bytes) (ctx : Context)
        → P ctx
        → P (serve_feed lib tag size query ctx).0
    unfolding serve_feed
    serve_feed-keeps lib tag size query ctx h =
        cached_or-keeps
          (if is_empty query then lookup (cache_key tag size) ctx.feed_cache else none) ctx _ h
          (rendered-keeps (is_empty query) (cache_key tag size) ctx _ h)

    refresh_cache-keeps : (ctx : Context) → P ctx → P (refresh_cache ctx)
    unfolding refresh_cache
    refresh_cache-keeps ctx h = elim (Bool-cases (same_object ctx.feed_cache_for ctx.catalog)) [
      | inl same ↦ rw (same, refresh_cache) h
      | inr other_one ↦ rw (other_one, refresh_cache) (forgets ctx _ [] h)
    ]

    pub handle_feed-keeps :
        (lib : Library) (q : Query) (ctx : Context) → P ctx → P (handle_feed lib q ctx).0
    unfolding handle_feed
    handle_feed-keeps lib q ctx h =
        serve_feed-keeps lib _ _ _ (refresh_cache ctx) (refresh_cache-keeps ctx h)

  module _ (lib : Library) (draws : Draws) (id : Identity) (req : HttpRequest)
      (client_ip : Bytes) where
    log_event-keeps :
        (i : ℕ) (ev : Event) (ctx : Context)
        → P ctx
        → P (log_event lib draws i id req client_ip ev ctx)
    unfolding log_event
    log_event-keeps i ev ctx h = stable.event _ ctx h

    handle_item-keeps :
        (n : ℤ) (q : Query) (ctx : Context)
        → P ctx
        → P (handle_item lib draws id req client_ip n q ctx).0
    unfolding handle_item show_item
    handle_item-keeps n q ctx h = elim (Option-cases (Catalog.find ctx.catalog.snapshot n)) [
      | inl missing ↦ rw (missing, handle_item) h
      | inr (it, found) ↦ rw (found, handle_item) (log_event-keeps 0 _ ctx h)
    ]

    handle_redirect-keeps :
        (n : ℤ) (q : Query) (ctx : Context)
        → P ctx
        → P (handle_redirect lib draws id req client_ip n q ctx).0
    unfolding handle_redirect redirect_item
    handle_redirect-keeps n q ctx h = elim (Option-cases (Catalog.find ctx.catalog.snapshot n)) [
      | inl missing ↦ rw (missing, handle_redirect) h
      | inr (it, found) ↦ rw (found, handle_redirect) (log_event-keeps 0 _ ctx h)
    ]

    log_batch-keeps :
        (es : Elements) (i : ℕ) (ctx : Context)
        → P ctx
        → P (log_batch lib draws id req client_ip es i ctx)
    unfolding log_batch
    log_batch-keeps nil i ctx h = h
    log_batch-keeps (cons e es) i ctx h = elim (Bool-cases (leb max_batch i)) [
      | inl full ↦ rw (full, log_batch) h
      | inr room ↦ elim (Option-cases (read_impression e)) [
        | inl skipped ↦ rw (room, skipped, log_batch) (log_batch-keeps es i ctx h)
        | inr (ev, read) ↦
            rw (room, read, log_batch) (log_batch-keeps es (suc i) _ (log_event-keeps i ev ctx h))
      ]
    ]

    handle_beacon-keeps :
        (ctx : Context) → P ctx → P (handle_beacon lib draws id req client_ip ctx).0
    unfolding handle_beacon beacon_body
    handle_beacon-keeps ctx h =
        elim (lib.parse_json req.body)
          as (λ o. P (beacon_body lib draws id req client_ip o ctx).0) [
            | none ↦ h
            | some (array es) ↦ log_batch-keeps es 0 ctx h
            | some _ ↦ h
          ]

    record_postback-keeps :
        (conv : Conversion) (ctx : Context) → P ctx → P (record_postback conv ctx).0
    unfolding record_postback
    record_postback-keeps conv ctx h = elim (Bool-cases (not (valid_status conv.status))) [
      | inl bad ↦ rw (bad, record_postback) h
      | inr good ↦ rw (good, record_postback) (stable.conversion conv ctx (negated _ good) h)
    ]

    postback_for-keeps :
        (q : Query) (subid : Bytes) (ctx : Context)
        → P ctx
        → P (postback_for lib draws q subid ctx).0
    unfolding postback_for
    postback_for-keeps q subid ctx h =
        elim (Option-cases (amount_of lib (lookup (codes "amount") q))) [
          | inl bad ↦ rw (bad, postback_for) h
          | inr (amount, read) ↦ rw (read, postback_for) (record_postback-keeps _ ctx h)
        ]

    abbrev token_outcome : Option Bytes → Query → Context → Outcome
    token_outcome o q ctx = elim o [
      | none ↦ refuse 400 (codes "missing subid") ctx
      | some subid ↦ postback_for lib draws q subid ctx
    ]

    token-keeps :
        (o : Option Bytes) (q : Query) (ctx : Context) → P ctx → P (token_outcome o q ctx).0
    token-keeps none q ctx h = h
    token-keeps (some subid) q ctx h = postback_for-keeps q subid ctx h

    handle_postback-keeps :
        (q : Query) (ctx : Context) → P ctx → P (handle_postback lib draws q ctx).0
    unfolding handle_postback
    handle_postback-keeps q ctx h = if-keeps (is_empty ctx.cfg.postback_secret) _ _ h (
        if-keeps (not (signed (lookup (codes "sign") q) ctx.cfg.postback_secret)) _
          (token_outcome (some_token (lookup (codes "subid") q)) q ctx) h
          (token-keeps (some_token (lookup (codes "subid") q)) q ctx h))

    with_id-keeps :
        (fs : FileSystem) (o : Option ℤ) (handler : ℤ → Context → Outcome) (ctx : Context)
        → P ctx
        → ((n : ℤ) → P (handler n ctx).0)
        → P (with_id lib fs draws req client_ip o handler ctx).0
    with_id-keeps fs none handler ctx h k = h
    with_id-keeps fs (some n) handler ctx h k = k n

    -- The routes, `handle_feed` being given.
    pub run_route-keeps :
        (fs : FileSystem) (r : Route) (q : Query) (ctx : Context)
        → P ctx
        → P (handle_feed lib q ctx).0
        → P (run_route lib fs draws req client_ip r id q ctx).0
    unfolding run_route
    run_route-keeps fs feed q ctx h f = f
    run_route-keeps fs (item rest) q ctx h f =
        with_id-keeps fs (parse_int rest) _ ctx h (λ n. handle_item-keeps n q ctx h)
    run_route-keeps fs (redirect rest) q ctx h f =
        with_id-keeps fs (parse_int rest) _ ctx h (λ n. handle_redirect-keeps n q ctx h)
    run_route-keeps fs (static rest) q ctx h f = h
    run_route-keeps fs (media rest) q ctx h f = h
    run_route-keeps fs beacon q ctx h f = handle_beacon-keeps ctx h
    run_route-keeps fs postback q ctx h f = handle_postback-keeps q ctx h
    run_route-keeps fs healthz q ctx h f = h
    run_route-keeps fs unknown q ctx h f = h

-- What pushes keep and the cache has no part in is kept by a request of any kind.
pub dispatch-keeps :
    (P : Context → Type 0) (stable : IsStable P)
    (forgets : (ctx : Context) (owner : Option CatalogPtr) (cache : List (Bytes × Bytes))
      → P ctx
      → P (record ctx { feed_cache = cache; feed_cache_for = owner }))
    (lib : Library) (fs : FileSystem) (draws : Draws) (req : HttpRequest) (client_ip : Bytes)
    (ctx : Context)
    → P ctx
    → P (dispatch lib fs draws req client_ip ctx).0
unfolding dispatch handled
dispatch-keeps P stable forgets lib fs draws req client_ip ctx h =
    let target = split_target req.target in
    let q = parse_query target.query in
    run_route-keeps P stable lib draws (identify req draws) req client_ip fs
      (route req.method (local_path ctx.cfg.base_path target.path)) q ctx h
      (handle_feed-keeps P stable forgets lib q ctx h)
