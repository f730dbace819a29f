-- ===== src/Handlers/Feed.antt =====
-- `handle_feed`: the feed page and the cache of its renderings.
pub mod Keys
pub mod Coherence
pub mod Fresh
use s_size_store.Prelude.{
  ℕ, suc, ℤ, pos, Bool, true, false, List, [], ◌∷◌, ◌++◌, Option, none, some, ◌==◌, if◌then◌else◌,
  ltb, length, lookup, emplace, nat_eq, list_eq,
}
use s_size_store.Bytes.{Bytes, codes, utf8, is_empty}
use s_size_store.Models.{Item}
use s_size_store.Query.{Query}
use s_size_store.Catalog.{Catalog}
use s_size_store.Catalog
use s_size_store.Json.{
  Json, integer, string, array, object, Elements, nil, cons, end, member, strings,
}
use s_size_store.Config.{Config}
use s_size_store.Http.{HttpResponse}
use s_size_store.Handlers.{
  Library, CatalogPtr, Context, Outcome, html_type, make_response, param, item_to_json,
}

-- The cards, numbered from `i`.
unfoldable pub cards : Config → ℕ → List Item → Elements
cards cfg i [] = nil
cards cfg i (item ∷ items) = cons (item_to_json item cfg (pos i)) (cards cfg (suc i) items)

-- The value that the template `feed.html` is rendered with.
unfoldable pub feed_data : Config → Catalog → Bytes → Bytes → Bytes → Json
unfolding cards
feed_data cfg catalog tag size query = object (
    member (codes "base") (string cfg.base_path) (
      member (codes "page_title") (string (utf8 "s-size — отобранные вещи")) (
        member (codes "query") (string query) (
          member (codes "metrica_counter") (integer (pos cfg.metrica_counter)) (
            member (codes "active_tag") (string tag) (
              member (codes "active_size") (string size) (
                member (codes "items") (array (cards cfg 0 (Catalog.query catalog tag size 0 120)))
                  (member (codes "total") (integer (pos (length catalog.items)))
                    (member (codes "tags") (array (strings catalog.all_tags)) end)))))))))

unfoldable pub render_feed : Library → Config → Catalog → Bytes → Bytes → Bytes → Option Bytes
unfolding feed_data
render_feed lib cfg catalog tag size query =
    lib.render (codes "feed.html") (feed_data cfg catalog tag size query)

abbrev pub same_object : Option CatalogPtr → CatalogPtr → Bool
same_object none p = false
same_object (some p) q = p.address == q.address

-- A new snapshot invalidates everything rendered from the old one.
unfoldable pub refresh_cache : Context → Context
refresh_cache ctx =
    if same_object ctx.feed_cache_for ctx.catalog
    then ctx
    else record ctx { feed_cache = []; feed_cache_for = some ctx.catalog }

unfoldable pub cache_key : Bytes → Bytes → Bytes
cache_key tag size = tag ++ 0x1F ∷ size

abbrev pub max_cached_feeds : ℕ
max_cached_feeds = 64

unfoldable pub store_page : Bool → Bytes → Bytes → Context → Context
store_page cacheable key html ctx =
    if cacheable
    then (if ltb (length ctx.feed_cache) max_cached_feeds
        then record ctx { feed_cache = emplace key html ctx.feed_cache }
        else ctx)
    else ctx

abbrev pub page : Bytes → HttpResponse
page html = make_response 200 html html_type

abbrev pub rendered : Bool → Bytes → Context → Option Bytes → Outcome
rendered cacheable key ctx none = (ctx, none)
rendered cacheable key ctx (some html) = (store_page cacheable key html ctx, some (page html))

abbrev pub cached_or : Option Bytes → Context → Outcome → Outcome
cached_or none ctx other = other
cached_or (some html) ctx other = (ctx, some (page html))

-- The part of `handle_feed` behind the refresh of the cache.
unfoldable pub serve_feed : Library → Bytes → Bytes → Bytes → Context → Outcome
unfolding render_feed store_page cache_key
serve_feed lib tag size query ctx =
    let cacheable = is_empty query in
    let key = cache_key tag size in
    let hit = if cacheable then lookup key ctx.feed_cache else none in
    cached_or hit ctx
      (rendered cacheable key ctx (render_feed lib ctx.cfg ctx.catalog.snapshot tag size query))

unfoldable pub handle_feed : Library → Query → Context → Outcome
unfolding serve_feed refresh_cache
handle_feed lib q ctx =
    serve_feed lib (param q (codes "tag") []) (param q (codes "size") []) (param q (codes "q") [])
      (refresh_cache ctx)
