-- ===== src/Http.antt =====
-- The requests and responses of Boost.Beast, as far as the handlers read and set them.
pub mod Headers
use s_size_store.Prelude.{
  ℕ, Bool, true, false, not, List, [], ◌∷◌, ◌++◌, Option, none, some, if◌then◌else◌, ◌≡◌, ◌↔◌,
  arith, Eq, ◌==◌, filter,
}
use s_size_store.Bytes.{Bytes}

pub data Verb : Type 0 where
  get post other : Verb

-- A header is what `req[field]` returns: empty if the request has none.
pub record HttpRequest : Type 0 where
  pub method : Verb
  pub target : Bytes
  pub cookie : Bytes
  pub user_agent : Bytes
  pub referer : Bytes
  pub if_none_match : Bytes
  pub forwarded_for : Bytes
  pub body : Bytes

pub data Field : Type 0 where
  content_type etag cache_control location referrer_policy set_cookie server : Field

unfoldable pub field_beq : Field → Field → Bool
field_beq content_type content_type = true
field_beq etag etag = true
field_beq cache_control cache_control = true
field_beq location location = true
field_beq referrer_policy referrer_policy = true
field_beq set_cookie set_cookie = true
field_beq server server = true
field_beq _ _ = false

pub record HttpResponse : Type 0 where
  pub status : ℕ
  pub headers : List (Field × Bytes)
  pub body : Bytes

-- `HttpResponse res{status, 11}`
abbrev pub response : ℕ → HttpResponse
response status = record { status = status; headers = []; body = [] }

unfoldable pub without : Field → List (Field × Bytes) → List (Field × Bytes)
without f [] = []
without f ((g, v) ∷ hs) = if field_beq g f then without f hs else (g, v) ∷ without f hs

-- `res.set`: the field has this one value.
unfoldable pub set_header : Field → Bytes → HttpResponse → HttpResponse
set_header f v res = record res { headers = without f res.headers ++ (f, v) ∷ [] }

-- `res.insert`: one more value.
unfoldable pub insert_header : Field → Bytes → HttpResponse → HttpResponse
insert_header f v res = record res { headers = res.headers ++ (f, v) ∷ [] }

-- The values of a field, in order.
unfoldable pub values : Field → List (Field × Bytes) → List Bytes
values f [] = []
values f ((g, v) ∷ hs) = if field_beq g f then v ∷ values f hs else values f hs
