-- ===== src/Handlers/Feed/Fresh.antt =====
-- No visitor is shown a stale feed.
use s_size_store.Prelude.{
  ◌≡◌, ◌∙◌, refl, sym, ap, Bool, true, false, [], ◌∷◌, Option, none, some, arith, lookup, list_eq,
  nat_eq,
}
use s_size_store.Bytes.{Bytes, codes, Lacks}
use s_size_store.Query.{Query}
use s_size_store.Http.{HttpResponse}
use s_size_store.Handlers.{Library, Context, param}
use s_size_store.Handlers.Feed.{
  render_feed, refresh_cache, cache_key, serve_feed, handle_feed, page, rendered, cached_or,
}
use s_size_store.Handlers.Feed.Keys.{separator, cache_key_injective}
use s_size_store.Handlers.Feed.Coherence.{
  IsCoherent, IsCurrent, IsPage, lookup-All, refresh-IsCurrent,
}

-- What a visitor is shown if the feed is rendered afresh.
abbrev pub fresh_page : Option Bytes → Option HttpResponse
fresh_page none = none
fresh_page (some html) = some (page html)

module _ (lib : Library) (tag size : Bytes) (ht : Lacks separator tag)
    (hs : Lacks separator size) where
  hit_is_fresh :
      (ctx : Context) (html : Bytes)
      → IsCurrent lib ctx
      → lookup (cache_key tag size) ctx.feed_cache ≡ some html
      → render_feed lib ctx.cfg ctx.catalog.snapshot tag size [] ≡ some html
  hit_is_fresh ctx html c e =
      let (tag', size', key, shown) =
        lookup-All (IsPage lib ctx.cfg ctx.catalog.snapshot) (cache_key tag size) html
          ctx.feed_cache c.pages e in
      let (same_tag, same_size) = cache_key_injective tag size tag' size' ht hs (sym key) in
      rw (← same_tag, ← same_size) shown

  rendered_fresh :
      (cacheable : Bool) (key : Bytes) (ctx : Context) (o : Option Bytes)
      → (rendered cacheable key ctx o).1 ≡ fresh_page o
  rendered_fresh cacheable key ctx none = refl
  rendered_fresh cacheable key ctx (some html) = refl

  cached_or_fresh :
      (ctx : Context) (hit o : Option Bytes)
      → ((html : Bytes) → hit ≡ some html → o ≡ some html)
      → (cached_or hit ctx (rendered true (cache_key tag size) ctx o)).1 ≡ fresh_page o
  cached_or_fresh ctx none o h = rendered_fresh true (cache_key tag size) ctx o
  cached_or_fresh ctx (some html) o h = ap fresh_page (sym (h html refl))

  serve_feed_fresh :
      (query : Bytes) (ctx : Context)
      → IsCurrent lib ctx
      → (serve_feed lib tag size query ctx).1
        ≡ fresh_page (render_feed lib ctx.cfg ctx.catalog.snapshot tag size query)
  unfolding serve_feed
  serve_feed_fresh [] ctx c =
      cached_or_fresh ctx (lookup (cache_key tag size) ctx.feed_cache) _
        (λ html. hit_is_fresh ctx html c)
  serve_feed_fresh (b ∷ query) ctx c = rendered_fresh false (cache_key tag size) ctx _

refresh_cache_keeps :
    (ctx : Context)
    → ((refresh_cache ctx).cfg ≡ ctx.cfg) × ((refresh_cache ctx).catalog ≡ ctx.catalog)
unfolding refresh_cache
refresh_cache_keeps ctx = ground arith

-- Whatever stands in a coherent cache, and whichever snapshot it was filled from, a visitor gets
-- the page that rendering the current snapshot afresh gives (or the same exception), if the tag and
-- the size of the request are free of the byte that separates them in a key.
pub handle_feed_fresh :
    (lib : Library) (q : Query) (ctx : Context)
    → IsCoherent lib ctx
    → Lacks separator (param q (codes "tag") [])
    → Lacks separator (param q (codes "size") [])
    → (handle_feed lib q ctx).1
      ≡ fresh_page (
          render_feed lib ctx.cfg ctx.catalog.snapshot
            (param q (codes "tag") [])
            (param q (codes "size") [])
            (param q (codes "q") []))
unfolding handle_feed
handle_feed_fresh lib q ctx h ht hs =
    let (same_cfg, same_catalog) = refresh_cache_keeps ctx in
    serve_feed_fresh lib _ _ ht hs (param q (codes "q") []) (refresh_cache ctx)
      (refresh-IsCurrent lib ctx h)
    ∙ cc (same_cfg, same_catalog)
