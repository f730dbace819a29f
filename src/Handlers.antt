-- ===== src/Handlers.antt =====
-- src/handlers.hpp and src/handlers.cpp: what a handler reads and writes, and the parts that the
-- handlers share. A handler is a function of the context that returns the new context.
pub mod Cookies
pub mod Feed
pub mod Pages
pub mod Files
pub mod Postback
pub mod Beacon
pub mod Dispatch
pub mod Life
use s_size_store.Prelude.{
  ℕ, suc, ◌+◌, ◌/◌, ◌%◌, ℤ, pos, negsuc, div_trunc, cast_signed, Bool, true, false, List, [], ◌∷◌,
  ◌++◌, Option, none, some, ◌==◌, if◌then◌else◌, ltb, lookup, get_elem?, nat_eq, list_eq,
}
use s_size_store.Bytes.{Bytes, codes, is_empty}
use s_size_store.Models.{Item, Image, Color, Event, TsMs, Kopek}
use s_size_store.Decimal.{to_string, parse_int}
use s_size_store.Query.{Query}
use s_size_store.Catalog.{Catalog}
use s_size_store.Events.{EventQueue, push_event, ConversionQueue, classify_ua, hash_ip}
use s_size_store.Json.{
  Json, integer, string, array, object, Elements, nil, cons, Members, end, member, strings,
}
use s_size_store.Config.{Config}
use s_size_store.Http.{HttpRequest, HttpResponse, response, set_header, content_type}

-- The code outside the repository. `render name value` is `Templating::render` (none is an
-- exception), `parse_json` is nlohmann's parser (none is an exception), `generichash` is
-- libsodium's keyed hash of a size, a text and a key (none is a failure), and `rubles` is `std::stod(s) * 100.0` cast to kopecks (none is an exception:
-- the model has no floating point).
pub record Library : Type 0 where
  pub render : Bytes → Json → Option Bytes
  pub parse_json : Bytes → Option Json
  pub generichash : ℕ → Bytes → Bytes → Option Bytes
  pub rubles : Bytes → Option Kopek

-- What one request draws from the system: the bytes for the two cookies and the click token, and
-- the clock, which is read once for each event.
pub record Draws : Type 0 where
  pub anon_raw : Bytes
  pub session_raw : Bytes
  pub token_raw : Bytes
  pub clock : ℕ → TsMs

-- A `std::shared_ptr<Catalog const>`: which object it points to, and what that object holds.
pub record CatalogPtr : Type 0 where
  pub address : ℕ
  pub snapshot : Catalog

-- `HandlerContext`, with the objects that its references lead to: the handle's snapshot and the
-- two queues.
pub record Context : Type 0 where
  pub cfg : Config
  pub catalog : CatalogPtr
  pub events : EventQueue
  pub conversions : ConversionQueue
  pub feed_cache_for : Option CatalogPtr
  pub feed_cache : List (Bytes × Bytes)

-- A handler's end: the context that it leaves, and its response, or none if it threw.
abbrev pub Outcome : Type 0
Outcome = Context × Option HttpResponse

abbrev pub html_type : Bytes
html_type = codes "text/html; charset=utf-8"

unfoldable pub make_response : ℕ → Bytes → Bytes → HttpResponse
make_response status body type =
    let res = set_header content_type type (response status) in record res { body = body }

unfoldable pub text_response : ℕ → Bytes → HttpResponse
unfolding make_response
text_response status body = make_response status body (codes "text/plain; charset=utf-8")

-- `q.count(key) ? q.at(key) : fallback`
abbrev pub value_or : Option Bytes → Bytes → Bytes
value_or none fallback = fallback
value_or (some v) fallback = v

abbrev pub param : Query → Bytes → Bytes → Bytes
param q key fallback = value_or (lookup key q) fallback

abbrev as_position : Option ℤ → Option ℤ
as_position none = none
as_position (some p) = some (cast_signed 32 p)

abbrev parsed_position : Option Bytes → Option ℤ
parsed_position none = none
parsed_position (some v) = as_position (parse_int v)

-- The parameter `p`: a 64-bit integer cast to an `int`.
unfoldable pub position_param : Query → Option ℤ
position_param q = parsed_position (lookup (codes "p") q)

pub record Identity : Type 0 where
  pub anon_id : Bytes
  pub session_id : Bytes
  pub set_anon : Bool
  pub set_session : Bool

-- `log_event`, its `i`-th in this request: the event is completed and pushed, and the answer of the
-- queue is only logged.
unfoldable pub log_event :
    Library → Draws → ℕ → Identity → HttpRequest → Bytes → Event → Context → Context
log_event lib draws i id req client_ip ev ctx =
    let completed = record ev {
      ts = draws.clock i;
      anon_id = id.anon_id;
      session_id = id.session_id;
      ua_class = classify_ua req.user_agent;
      ip_hash = hash_ip lib.generichash client_ip ctx.cfg.ip_hash_secret;
    } in
    record ctx { events = (push_event completed ctx.events).0 }

abbrev old_price : Option Kopek → Members → Members
old_price none rest = rest
old_price (some k) rest = member (codes "old_price") (integer (div_trunc k 100)) rest

-- The picture of a card: the preview of the first image, or the image itself.
unfoldable pub image_url : Config → List Image → Bytes
image_url cfg [] = []
image_url cfg (img ∷ _) =
    cfg.base_path
    ++ (codes "/media/" ++ (if is_empty img.thumb_path then img.path else img.thumb_path))

unfoldable pub color_list : List Color → Elements
color_list [] = nil
color_list (c ∷ cs) =
    cons (object (member (codes "name") (string c.name) (member (codes "hex") (string c.hex) end)))
      (color_list cs)

-- The link of a card's button, which logs the click and redirects.
unfoldable pub out_link : Config → Item → ℤ → Bytes
out_link cfg item position =
    cfg.base_path ++ (codes "/r/" ++ (to_string item.id ++ (codes "?p=" ++ to_string position)))

unfoldable pub item_link : Config → Item → Bytes
item_link cfg item = cfg.base_path ++ (codes "/item/" ++ to_string item.id)

-- The members of `item_to_json`; the order of an object's members is of no account.
unfoldable pub item_members : Item → Config → ℤ → Members
unfolding image_url color_list out_link item_link
item_members item cfg position = member (codes "id") (integer item.id) (
    member (codes "title") (string item.title) (
      member (codes "brand") (string item.brand) (
        member (codes "price") (integer (div_trunc item.price_kopek 100)) (
          old_price item.old_price_kopek (
            member (codes "tags") (array (strings item.tags)) (
              member (codes "sizes") (array (strings item.sizes)) (
                member (codes "position") (integer position) (
                  member (codes "url") (string (item_link cfg item)) (
                    member (codes "out") (string (out_link cfg item position)) (
                      member (codes "image") (string (image_url cfg item.images))
                        (member (codes "colors") (array (color_list item.colors)) end)))))))))))

abbrev pub item_to_json : Item → Config → ℤ → Json
item_to_json item cfg position = object (item_members item cfg position)
