-- ===== src/Handlers/Cookies.antt =====
-- The identity cookies: `aid` names the device, `sid` the visit.
use s_size_store.Prelude.{
  ℕ, ◌/◌, ◌%◌, ℤ, [], ◌∷◌, ◌++◌, Option, none, some, if◌then◌else◌, get_elem?,
}
use s_size_store.Bytes.{Bytes, codes, is_empty}
use s_size_store.Decimal.{to_string}
use s_size_store.Query.{cookie_value}
use s_size_store.Config.{Config}
use s_size_store.Http.{HttpRequest, HttpResponse, insert_header, set_cookie}
use s_size_store.Handlers.{Identity, Draws}

abbrev digit_at : Option ℕ → ℕ
digit_at none = 0
digit_at (some c) = c

abbrev hex_char : ℕ → ℕ
hex_char v = digit_at (get_elem? (codes "0123456789abcdef") v)

-- `random_id` on the sixteen bytes that `randombytes_buf` leaves in `raw`.
unfoldable pub random_id : Bytes → Bytes
random_id [] = []
random_id (b ∷ raw) = hex_char (b / 16) ∷ hex_char (b % 16) ∷ random_id raw

-- A cookie that the request has, or a new one.
abbrev pub kept_or : Bytes → Bytes → Bytes
kept_or cookie raw = if is_empty cookie then random_id raw else cookie

unfoldable pub identify : HttpRequest → Draws → Identity
unfolding random_id
identify req draws =
    let aid = cookie_value req.cookie (codes "aid") in
    let sid = cookie_value req.cookie (codes "sid") in
    record {
      anon_id = kept_or aid draws.anon_raw;
      session_id = kept_or sid draws.session_raw;
      set_anon = is_empty aid;
      set_session = is_empty sid;
    }

-- The lambda `cookie`.
unfoldable pub cookie_text : Config → Bytes → Bytes → ℤ → Bytes
cookie_text cfg name value max_age =
    name
    ++ (b'='
        ∷ (value
            ++ (codes "; Path="
                ++ ((if is_empty cfg.base_path then codes "/" else cfg.base_path)
                    ++ (codes "; Max-Age="
                        ++ (to_string max_age
                            ++ (codes "; HttpOnly; SameSite=Lax"
                                ++ (if cfg.cookie_secure then codes "; Secure" else []))))))))

abbrev pub aid_cookie : Identity → Config → HttpResponse → HttpResponse
aid_cookie id cfg res =
    if id.set_anon
    then insert_header set_cookie (cookie_text cfg (codes "aid") id.anon_id cfg.anon_cookie_ttl) res
    else res

unfoldable pub apply_identity : Identity → Config → HttpResponse → HttpResponse
apply_identity id cfg res =
    insert_header set_cookie (cookie_text cfg (codes "sid") id.session_id cfg.session_idle_ttl)
      (aid_cookie id cfg res)
