-- ===== src/Handlers/Dispatch.antt =====
-- `dispatch`: the routes, and what every response gets on its way out.
pub mod Plain
pub mod Outgoing
pub mod Links
pub mod Keeping
pub mod Caching
use s_size_store.Prelude.{
  ℕ, ℤ, Bool, true, false, not, ◌&&◌, List, [], ◌∷◌, ◌++◌, Option, none, some, ◌==◌, if◌then◌else◌,
  list_eq, nat_eq,
}
use s_size_store.Bytes.{Bytes, codes, is_empty, strip_prefix}
use s_size_store.Decimal.{parse_int}
use s_size_store.Query.{Query, Target, split_target, parse_query}
use s_size_store.Http.{
  Verb, get, post, other, HttpRequest, HttpResponse, response, set_header, values, cache_control,
  server,
}
use s_size_store.Handlers.{Library, Draws, Context, Outcome, Identity, text_response}
use s_size_store.Handlers.Cookies.{identify, apply_identity}
use s_size_store.Handlers.Feed.{handle_feed}
use s_size_store.Handlers.Pages.{handle_item, handle_redirect}
use s_size_store.Handlers.Files.{FileSystem, handle_file}
use s_size_store.Handlers.Postback.{handle_postback}
use s_size_store.Handlers.Beacon.{handle_beacon}

-- The routes, with the rest of the path where a prefix takes one.
pub data Route : Type 0 where
  feed beacon postback healthz unknown : Route
  item redirect static media : Bytes → Route

abbrev or_route : Option Bytes → (Bytes → Route) → Route → Route
or_route none route later = later
or_route (some rest) route later = route rest

abbrev route_get : Bytes → Route
route_get p =
    if p == codes "/"
    then feed
    else or_route (strip_prefix (codes "/item/") p) item (
        or_route (strip_prefix (codes "/r/") p) redirect (
          or_route (strip_prefix (codes "/static/") p) static (
            or_route (strip_prefix (codes "/media/") p) media (
              if p == codes "/cpa/postback"
              then postback
              else if p == codes "/healthz"
              then healthz
              else unknown))))

unfoldable pub route : Verb → Bytes → Route
route get p = route_get p
route post p = if p == codes "/api/ev" then beacon else unknown
route other p = unknown

abbrev kept_path : Bytes → Option Bytes → Bytes
kept_path path none = path
kept_path path (some rest) = rest

-- The path without the prefix under which the site is served.
unfoldable pub local_path : Bytes → Bytes → Bytes
local_path base path =
    let p = if is_empty base then path else kept_path path (strip_prefix base path) in
    if is_empty p then codes "/" else p

abbrev pub answer : ℕ → Bytes → Context → Outcome
answer status body ctx = (ctx, some (text_response status body))

module _ (lib : Library) (fs : FileSystem) (draws : Draws) (req : HttpRequest)
    (client_ip : Bytes) where
  abbrev pub with_id : Option ℤ → (ℤ → Context → Outcome) → Context → Outcome
  with_id none handler ctx = answer 400 (codes "bad id") ctx
  with_id (some item_id) handler ctx = handler item_id ctx

  unfoldable pub run_route : Route → Identity → Query → Context → Outcome
  run_route feed id q ctx = handle_feed lib q ctx
  run_route (item rest) id q ctx =
      with_id (parse_int rest) (λ n. handle_item lib draws id req client_ip n q) ctx
  run_route (redirect rest) id q ctx =
      with_id (parse_int rest) (λ n. handle_redirect lib draws id req client_ip n q) ctx
  run_route (static rest) id q ctx = (ctx, some (handle_file fs req ctx.cfg.static_dir rest))
  run_route (media rest) id q ctx = (ctx, some (handle_file fs req ctx.cfg.media_root rest))
  run_route beacon id q ctx = handle_beacon lib draws id req client_ip ctx
  run_route postback id q ctx = handle_postback lib draws q ctx
  run_route healthz id q ctx = answer 200 (codes "ok") ctx
  run_route unknown id q ctx = answer 404 (codes "not found") ctx

  -- The `try` block: the response is none if a handler threw.
  unfoldable pub handled : Identity → Context → Outcome
  handled id ctx =
      let target = split_target req.target in
      run_route (route req.method (local_path ctx.cfg.base_path target.path)) id
        (parse_query target.query) ctx

  abbrev pub caught : Option HttpResponse → HttpResponse
  caught none = text_response 500 (codes "internal error")
  caught (some res) = res

  abbrev pub default_cache : HttpResponse → HttpResponse
  default_cache res =
      if is_empty (values cache_control res.headers)
      then set_header cache_control (codes "no-store") res
      else res

  unfoldable pub finish : Identity → Context → HttpResponse → HttpResponse
  finish id ctx res =
      default_cache (set_header server (codes "ssize") (apply_identity id ctx.cfg res))

  unfoldable pub dispatch : Context → Context × HttpResponse
  dispatch ctx =
      let id = identify req draws in
      let (ctx', res) = handled id ctx in (ctx', finish id ctx (caught res))
