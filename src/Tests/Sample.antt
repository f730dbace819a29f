-- ===== src/Tests/Sample.antt =====
-- The data that the tests run on.
use s_size_store.Prelude.{pos, true, false, [], ◌∷◌, Option, none, some}
use s_size_store.Bytes.{Bytes, codes}
use s_size_store.Models.{Item, Partner, published}
use s_size_store.Catalog.{Catalog, build}
use s_size_store.Events.{event_queue, conversion_queue}
use s_size_store.Json.{Json, integer, string, array, object, cons, nil, member, end, find_member}
use s_size_store.Config.{Config, default_config}
use s_size_store.Http.{HttpRequest, get}
use s_size_store.Handlers.{Library, Draws, Context, CatalogPtr, Identity}
use s_size_store.Handlers.Files.{FileSystem}

abbrev pub cap_item : Item
cap_item = record {
  id = pos 7;
  title = codes "Cap";
  description = [];
  brand = codes "B";
  price_kopek = pos 149000;
  old_price_kopek = none;
  currency = codes "RUB";
  partner_id = pos 1;
  product_url = codes "https://s.ru/7";
  campaign = codes "77";
  status = published;
  score = pos 2;
  images = [];
  tags = codes "hats" ∷ codes "new" ∷ [];
  sizes = codes "M" ∷ [];
  colors = [];
  created_at = pos 1;
  updated_at = pos 1;
  published_at = some (pos 5);
}

abbrev pub sock_item : Item
sock_item = record cap_item {
  id = pos 8;
  title = codes "Sock";
  score = pos 3;
  tags = codes "new" ∷ [];
  sizes = codes "L" ∷ [];
  published_at = none;
}

abbrev pub shop : Partner
shop = record {
  id = pos 1;
  code = codes "shop";
  title = codes "Shop";
  link_template = codes "https://ad.ru/?u={url_enc}&s={subid}";
  enabled = true;
}

abbrev pub sample_catalog : Catalog
sample_catalog = build (cap_item ∷ sock_item ∷ []) (shop ∷ []) (pos 10)

abbrev pub sample_ptr : CatalogPtr
sample_ptr = record { address = 1; snapshot = sample_catalog }

abbrev pub sample_config : Config
sample_config = record default_config {
  base_path = codes "/s";
  ip_hash_secret = codes "salt";
  postback_secret = codes "key";
}

abbrev shown : Option Json → Bytes
shown (some (string s)) = s
shown _ = []

abbrev shown_as : Bytes → Json → Option Bytes
shown_as name (object ms) = some (shown (find_member (codes "active_tag") ms))
shown_as name _ = none

abbrev seen : Json
seen = object (member (codes "item") (integer (pos 7)) (member (codes "p") (integer (pos 3)) end))

-- Templates that show the tag, a parser that knows one text, and a hash that is constant.
abbrev pub sample_library : Library
sample_library = record {
  render = shown_as;
  parse_json = λ s. some (array (cons seen (cons (string s) nil)));
  generichash = λ size ip secret. some (codes "h");
  rubles = λ s. some (pos 1000);
}

abbrev pub sample_draws : Draws
sample_draws = record {
  anon_raw = 1 ∷ 171 ∷ [];
  session_raw = 2 ∷ 205 ∷ [];
  token_raw = 0 ∷ 61 ∷ 255 ∷ [];
  clock = λ i. pos i;
}

abbrev pub sample_request : HttpRequest
sample_request = record {
  method = get;
  target = codes "/s/";
  cookie = codes "aid=42";
  user_agent = codes "Mozilla";
  referer = [];
  if_none_match = [];
  forwarded_for = [];
  body = [];
}

abbrev pub sample_identity : Identity
sample_identity = record {
  anon_id = codes "42";
  session_id = codes "s";
  set_anon = false;
  set_session = false;
}

-- A cache that holds one page, of this snapshot.
abbrev pub sample_context : Context
sample_context = record {
  cfg = sample_config;
  catalog = sample_ptr;
  events = event_queue 2;
  conversions = conversion_queue;
  feed_cache_for = none;
  feed_cache = [];
}

-- One file, `/w/a.css`, below the root `/w`.
abbrev pub sample_files : FileSystem
sample_files = record {
  canonical = λ p. some p;
  write_time = λ p. pos 12;
  file_size = λ p. some 3;
  contents = λ p. some (codes "a{}");
}
