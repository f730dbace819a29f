-- ===== src/Handlers/Dispatch/Plain.antt =====
-- The handlers set no cookies.
use s_size_store.Prelude.{
  ℕ, ℤ, ◌≡◌, refl, true, false, Bool, [], ◌∷◌, Option, none, some, Option-cases, inl, inr,
  if◌then◌else◌,
}
use s_size_store.Bytes.{Bytes, codes}
use s_size_store.Query.{Query}
use s_size_store.Catalog
use s_size_store.Json.{Json, array}
use s_size_store.Decimal.{parse_int}
use s_size_store.Handlers.Postback.Acceptance.{handle_postback_cases, handle_postback_accepts}
use s_size_store.Http.{
  HttpRequest, HttpResponse, values, set_header, set_cookie, field_beq, without,
}
use s_size_store.Handlers.{Library, Draws, Context, Identity, Outcome, make_response, text_response}
use s_size_store.Handlers.Feed.{handle_feed, rendered, cached_or}
use s_size_store.Handlers.Pages.{handle_item, handle_redirect, redirect_response, page_or_throw}
use s_size_store.Handlers.Files.{
  FileSystem, handle_file, serve_file, not_modified, file_response, confine,
}
use s_size_store.Handlers.Postback.{handle_postback}
use s_size_store.Handlers.Beacon.{handle_beacon, beacon_body}
use s_size_store.Handlers.Dispatch.{
  Route, run_route, handled, caught, with_id, feed, item, redirect, static, media, beacon, postback,
  healthz, unknown,
}

-- A response that sets no cookie: only `apply_identity` does.
abbrev pub NoCookie : HttpResponse → Type 0
NoCookie res = values set_cookie res.headers ≡ []

abbrev pub NoCookieIn : Option HttpResponse → Type 0
NoCookieIn none = Unit
NoCookieIn (some res) = NoCookie res

make_response-NoCookie :
    (status : ℕ) (body type : Bytes) → NoCookie (make_response status body type)
unfolding make_response set_header values without field_beq
make_response-NoCookie status body type = refl

text_response-NoCookie : (status : ℕ) (body : Bytes) → NoCookie (text_response status body)
unfolding text_response set_header values without field_beq
text_response-NoCookie status body = refl

redirect-NoCookie : (target : Bytes) → NoCookie (redirect_response target)
unfolding redirect_response set_header values without field_beq
redirect-NoCookie target = refl

not_modified-NoCookie : (tag : Bytes) → NoCookie (not_modified tag)
unfolding not_modified set_header values without field_beq
not_modified-NoCookie tag = refl

file_response-NoCookie : (path tag : Bytes) (o : Option Bytes) → NoCookie (file_response path tag o)
unfolding file_response make_response set_header values without field_beq
file_response-NoCookie path tag none = text_response-NoCookie 404 (codes "not found")
file_response-NoCookie path [] (some body) = refl
file_response-NoCookie path (c ∷ tag) (some body) = refl

-- Either branch of a test.
NoCookie-if :
    (b : Bool) (r s : HttpResponse) → NoCookie r → NoCookie s → NoCookie (if b then r else s)
NoCookie-if true r s p q = p
NoCookie-if false r s p q = q

NoCookieIn-if :
    (b : Bool) (r s : Outcome) → NoCookieIn r.1 → NoCookieIn s.1 → NoCookieIn (if b then r else s).1
NoCookieIn-if true r s p q = p
NoCookieIn-if false r s p q = q

confine-NoCookie :
    (fs : FileSystem) (req : HttpRequest) (root : Bytes) (o : Option Bytes)
    → NoCookie (confine fs req root o)
unfolding serve_file
confine-NoCookie fs req root none = text_response-NoCookie 403 (codes "forbidden")
confine-NoCookie fs req root (some path) =
    search (NoCookie-if, text_response-NoCookie, not_modified-NoCookie, file_response-NoCookie)

handle_file-NoCookie :
    (fs : FileSystem) (req : HttpRequest) (root rel : Bytes)
    → NoCookie (handle_file fs req root rel)
unfolding handle_file
handle_file-NoCookie fs req root rel =
    search (NoCookie-if, text_response-NoCookie, confine-NoCookie)

cached_or-NoCookie :
    (hit : Option Bytes) (ctx : Context) (out : Outcome)
    → NoCookieIn out.1
    → NoCookieIn (cached_or hit ctx out).1
cached_or-NoCookie none ctx out h = h
cached_or-NoCookie (some html) ctx out h = make_response-NoCookie 200 html _

rendered-NoCookie :
    (b : Bool) (key : Bytes) (ctx : Context) (o : Option Bytes)
    → NoCookieIn (rendered b key ctx o).1
rendered-NoCookie b key ctx none = tt
rendered-NoCookie b key ctx (some html) = make_response-NoCookie 200 html _

page_or_throw-NoCookie : (o : Option Bytes) → NoCookieIn (page_or_throw o)
page_or_throw-NoCookie none = tt
page_or_throw-NoCookie (some html) = make_response-NoCookie 200 html _

module _ (lib : Library) (fs : FileSystem) (draws : Draws) (req : HttpRequest)
    (client_ip : Bytes) where
  handle_feed-NoCookie : (q : Query) (ctx : Context) → NoCookieIn (handle_feed lib q ctx).1
  unfolding handle_feed
  handle_feed-NoCookie q ctx = search (cached_or-NoCookie, rendered-NoCookie)

  handle_item-NoCookie :
      (id : Identity) (n : ℤ) (q : Query) (ctx : Context)
      → NoCookieIn (handle_item lib draws id req client_ip n q ctx).1
  unfolding handle_item
  handle_item-NoCookie id n q ctx = elim (Option-cases (Catalog.find ctx.catalog.snapshot n)) [
    | inl missing ↦ rw (missing, handle_item) (text_response-NoCookie 404 (codes "not found"))
    | inr (it, found) ↦ rw (found, handle_item) (page_or_throw-NoCookie _)
  ]

  handle_redirect-NoCookie :
      (id : Identity) (n : ℤ) (q : Query) (ctx : Context)
      → NoCookieIn (handle_redirect lib draws id req client_ip n q ctx).1
  unfolding handle_redirect
  handle_redirect-NoCookie id n q ctx = elim (Option-cases (Catalog.find ctx.catalog.snapshot n)) [
    | inl missing ↦ rw (missing, handle_redirect) (text_response-NoCookie 404 (codes "not found"))
    | inr (it, found) ↦ rw (found, handle_redirect) (redirect-NoCookie _)
  ]

  beacon_body-NoCookie :
      (id : Identity) (o : Option Json) (ctx : Context)
      → NoCookieIn (beacon_body lib draws id req client_ip o ctx).1
  unfolding beacon_body
  beacon_body-NoCookie id none ctx = text_response-NoCookie 400 (codes "bad json")
  beacon_body-NoCookie id (some (array es)) ctx = text_response-NoCookie 204 []
  beacon_body-NoCookie id (some _) ctx = text_response-NoCookie 400 (codes "expected array")

  handle_beacon-NoCookie :
      (id : Identity) (ctx : Context) → NoCookieIn (handle_beacon lib draws id req client_ip ctx).1
  unfolding handle_beacon
  handle_beacon-NoCookie id ctx = beacon_body-NoCookie id (lib.parse_json req.body) ctx

  handle_postback-NoCookie :
      (q : Query) (ctx : Context) → NoCookieIn (handle_postback lib draws q ctx).1
  handle_postback-NoCookie q ctx = elim (handle_postback_cases lib draws q ctx) [
    | inl a ↦
        rw (handle_postback_accepts lib draws q ctx a) (text_response-NoCookie 200 (codes "ok"))
    | inr (status, body, _, e) ↦ rw e (text_response-NoCookie status body)
  ]

  with_id-NoCookie :
      (o : Option ℤ) (handler : ℤ → Context → Outcome) (ctx : Context)
      → ((n : ℤ) → NoCookieIn (handler n ctx).1)
      → NoCookieIn (with_id lib fs draws req client_ip o handler ctx).1
  with_id-NoCookie none handler ctx h = text_response-NoCookie 400 (codes "bad id")
  with_id-NoCookie (some n) handler ctx h = h n

  run_route-NoCookie :
      (r : Route) (id : Identity) (q : Query) (ctx : Context)
      → NoCookieIn (run_route lib fs draws req client_ip r id q ctx).1
  unfolding run_route
  run_route-NoCookie feed id q ctx = handle_feed-NoCookie q ctx
  run_route-NoCookie (item rest) id q ctx =
      with_id-NoCookie (parse_int rest) _ ctx (λ n. handle_item-NoCookie id n q ctx)
  run_route-NoCookie (redirect rest) id q ctx =
      with_id-NoCookie (parse_int rest) _ ctx (λ n. handle_redirect-NoCookie id n q ctx)
  run_route-NoCookie (static rest) id q ctx = handle_file-NoCookie fs req ctx.cfg.static_dir rest
  run_route-NoCookie (media rest) id q ctx = handle_file-NoCookie fs req ctx.cfg.media_root rest
  run_route-NoCookie beacon id q ctx = handle_beacon-NoCookie id ctx
  run_route-NoCookie postback id q ctx = handle_postback-NoCookie q ctx
  run_route-NoCookie healthz id q ctx = text_response-NoCookie 200 (codes "ok")
  run_route-NoCookie unknown id q ctx = text_response-NoCookie 404 (codes "not found")

  pub caught-NoCookie :
      (o : Option HttpResponse) → NoCookieIn o → NoCookie (caught lib fs draws req client_ip o)
  caught-NoCookie none h = text_response-NoCookie 500 (codes "internal error")
  caught-NoCookie (some res) h = h

  pub handled-NoCookie :
      (id : Identity) (ctx : Context) → NoCookieIn (handled lib fs draws req client_ip id ctx).1
  unfolding handled
  handled-NoCookie id ctx = run_route-NoCookie _ id _ ctx
