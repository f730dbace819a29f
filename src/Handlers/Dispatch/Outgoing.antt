-- ===== src/Handlers/Dispatch/Outgoing.antt =====
-- What every response carries on its way out.
use s_size_store.Prelude.{
  ◌≡◌, ◌∙◌, refl, ap, true, false, Bool, List, [], ◌∷◌, ◌++◌, Bool-cases, inl, inr, if◌then◌else◌,
}
use s_size_store.Bytes.{Bytes, codes, is_empty}
use s_size_store.Config.{Config}
use s_size_store.Http.{
  HttpRequest, HttpResponse, values, set_header, insert_header, set_cookie, cache_control, server,
  field_beq, Field,
}
use s_size_store.Http.Headers.{values-set_header, values-set_header_ne, values-insert_header}
use s_size_store.Handlers.{Library, Draws, Context, Identity}
use s_size_store.Handlers.Cookies.{identify, apply_identity, cookie_text}
use s_size_store.Handlers.Files.{FileSystem}
use s_size_store.Handlers.Dispatch.{handled, finish, dispatch, caught, default_cache}
use s_size_store.Handlers.Dispatch.Plain.{NoCookie, caught-NoCookie, handled-NoCookie}

-- The cookies of the answer to a visitor.
abbrev pub cookies_for : Identity → Config → List Bytes
cookies_for id cfg =
    (if id.set_anon then cookie_text cfg (codes "aid") id.anon_id cfg.anon_cookie_ttl ∷ [] else [])
    ++ cookie_text cfg (codes "sid") id.session_id cfg.session_idle_ttl ∷ []

insert_cookie :
    (w : Bytes) (res : HttpResponse)
    → values set_cookie (insert_header set_cookie w res).headers
      ≡ values set_cookie res.headers ++ w ∷ []
insert_cookie w res = values-insert_header set_cookie set_cookie w res ∙ unfold field_beq in refl

two_cookies :
    (b : Bool) (v w : Bytes) (res : HttpResponse)
    → NoCookie res
    → values set_cookie
        (insert_header set_cookie w (if b then insert_header set_cookie v res else res)).headers
      ≡ (if b then v ∷ [] else []) ++ w ∷ []
two_cookies true v w res h =
    insert_cookie w (insert_header set_cookie v res)
    ∙ ap (λ (vs : List Bytes). vs ++ w ∷ [])
        (insert_cookie v res ∙ ap (λ (vs : List Bytes). vs ++ v ∷ []) h)
two_cookies false v w res h = insert_cookie w res ∙ ap (λ (vs : List Bytes). vs ++ w ∷ []) h

apply_identity-cookies :
    (id : Identity) (cfg : Config) (res : HttpResponse)
    → NoCookie res
    → values set_cookie (apply_identity id cfg res).headers ≡ cookies_for id cfg
unfolding apply_identity
apply_identity-cookies id cfg res h = two_cookies id.set_anon _ _ res h

module _ (lib : Library) (fs : FileSystem) (draws : Draws) (req : HttpRequest)
    (client_ip : Bytes) where
  default_cache-values :
      (f : Field) (res : HttpResponse)
      → field_beq cache_control f ≡ false
      → values f (default_cache lib fs draws req client_ip res).headers ≡ values f res.headers
  default_cache-values f res h = elim (Bool-cases (is_empty (values cache_control res.headers))) [
    | inl nil ↦
        rw (nil, default_cache) (values-set_header_ne f cache_control (codes "no-store") res h)
    | inr other ↦ rw (other, default_cache) refl
  ]

  default_cache-ne-nil :
      (res : HttpResponse)
      → is_empty (values cache_control (default_cache lib fs draws req client_ip res).headers)
        ≡ false
  default_cache-ne-nil res = elim (Bool-cases (is_empty (values cache_control res.headers))) [
    | inl nil ↦ rw (nil, default_cache, values-set_header cache_control (codes "no-store") res) refl
    | inr other ↦ rw (other, default_cache) other
  ]

  -- Every response, also to a request that a handler failed on, names the server, says how it may
  -- be cached, refreshes the visit's cookie, and sets the device's cookie exactly if the request had
  -- none; no other cookie is set.
  pub dispatch-outgoing :
      (ctx : Context)
      → let headers : List (Field × Bytes) = (dispatch lib fs draws req client_ip ctx).1.headers in
        (values server headers ≡ codes "ssize" ∷ [])
        × (is_empty (values cache_control headers) ≡ false)
        × (values set_cookie headers ≡ cookies_for (identify req draws) ctx.cfg)
  unfolding dispatch finish
  dispatch-outgoing ctx =
      let id = identify req draws in
      let res = caught lib fs draws req client_ip (handled lib fs draws req client_ip id ctx).1 in
      let out = apply_identity id ctx.cfg res in
      let named = set_header server (codes "ssize") out in
      (
        default_cache-values server named (unfold field_beq in refl)
            ∙ values-set_header server (codes "ssize") out,
        default_cache-ne-nil named,
        default_cache-values set_cookie named (unfold field_beq in refl)
            ∙ values-set_header_ne set_cookie server (codes "ssize") out (unfold field_beq in refl)
            ∙ apply_identity-cookies id ctx.cfg res (
                caught-NoCookie lib fs draws req client_ip _
                  (handled-NoCookie lib fs draws req client_ip id ctx)),
      )
