-- ===== src/Config.antt =====
-- src/config.hpp and src/config.cpp: the settings, and how they are read from a parsed TOML file.
-- Parsing is toml++'s: a node is what its three conversions `value<T>()` return, a table is what its
-- keys hold, and none is a key that is not there.
pub mod Loading
use s_size_store.Prelude.{
  ℕ, ◌+◌, ◌*◌, ◌%◌, ◌^◌, ◌-◌, ℤ, pos, negsuc, suc, cast_signed, Bool, true, false, Option, none,
  some, [], if◌then◌else◌,
}
use s_size_store.Bytes.{Bytes, codes, is_empty}

pub record Config : Type 0 where
  pub bind_address : Bytes
  pub port : ℕ
  pub io_threads : ℤ
  pub base_path : Bytes
  pub db_path : Bytes
  pub migrations_dir : Bytes
  pub templates_dir : Bytes
  pub static_dir : Bytes
  pub media_root : Bytes
  pub refresh_interval : ℤ
  pub event_flush_interval : ℤ
  pub event_queue_capacity : ℕ
  pub event_retention_days : ℤ
  pub ip_hash_secret : Bytes
  pub postback_secret : Bytes
  pub metrica_counter : ℕ
  pub anon_cookie_ttl : ℤ
  pub session_idle_ttl : ℤ
  pub cookie_secure : Bool

-- The initialisers of the members. Intervals are in the units of the members: seconds, but
-- milliseconds for the flush.
abbrev pub default_config : Config
default_config = record {
  bind_address = codes "127.0.0.1";
  port = 8080;
  io_threads = pos 1;
  base_path = [];
  db_path = codes "ssize.db";
  migrations_dir = codes "migrations";
  templates_dir = codes "templates";
  static_dir = codes "static";
  media_root = codes "media";
  refresh_interval = pos 10;
  event_flush_interval = pos 1000;
  event_queue_capacity = 100000;
  event_retention_days = pos 90;
  ip_hash_secret = [];
  postback_secret = [];
  metrica_counter = 0;
  anon_cookie_ttl = pos 31536000;
  session_idle_ttl = pos 1800;
  cookie_secure = true;
}

pub record Node : Type 0 where
  pub as_string : Option Bytes
  pub as_int64 : Option ℤ
  pub as_bool : Option Bool

abbrev pub Table : Type 0
Table = Bytes → Option Node

pub data Error : Type 0 where
  bad_type : Bytes → Error
  cannot_parse secret_not_set : Error

pub data Result {ℓ} (A : Type ℓ) : Type ℓ where
  ok : A → Result A
  err : Error → Result A

infixl 5 ◌>>=◌
abbrev pub ◌>>=◌ {ℓ κ} : {A : Type ℓ} {B : Type κ} → Result A → (A → Result B) → Result B
ok a >>= f = f a
err e >>= f = err e

abbrev typed {ℓ} : {T : Type ℓ} → Bytes → Option T → Result T
typed key none = err (bad_type key)
typed key (some v) = ok v

-- `get_or<T>`, the conversion to `T` being `value`.
unfoldable pub get_or {ℓ} : {T : Type ℓ} → (Node → Option T) → Table → Bytes → T → Result T
get_or value tbl key fallback = elim (tbl key) [
  | none ↦ ok fallback
  | some node ↦ typed key (value node)
]

abbrev text : Node → Option Bytes
text n = n.as_string

abbrev number : Node → Option ℤ
number n = n.as_int64

abbrev flag : Node → Option Bool
flag n = n.as_bool

-- `static_cast` to an unsigned type of `w` bits
unfoldable pub cast_unsigned : ℕ → ℤ → ℕ
cast_unsigned w (pos n) = n % 2 ^ w
cast_unsigned w (negsuc n) = (2 ^ w - suc n % 2 ^ w) % 2 ^ w

unfoldable pub load_http : Table → Config → Result Config
unfolding get_or cast_unsigned cast_signed
load_http t cfg = do
  bind_address ← get_or text t (codes "bind_address") cfg.bind_address
  port ← get_or number t (codes "port") (pos cfg.port)
  io_threads ← get_or number t (codes "io_threads") cfg.io_threads
  base_path ← get_or text t (codes "base_path") cfg.base_path
  ok (record cfg {
    bind_address = bind_address;
    port = cast_unsigned 16 port;
    io_threads = cast_signed 32 io_threads;
    base_path = base_path;
  })

unfoldable pub load_storage : Table → Config → Result Config
unfolding get_or
load_storage t cfg = do
  db_path ← get_or text t (codes "db_path") cfg.db_path
  migrations_dir ← get_or text t (codes "migrations_dir") cfg.migrations_dir
  templates_dir ← get_or text t (codes "templates_dir") cfg.templates_dir
  static_dir ← get_or text t (codes "static_dir") cfg.static_dir
  media_root ← get_or text t (codes "media_root") cfg.media_root
  ok (record cfg {
    db_path = db_path;
    migrations_dir = migrations_dir;
    templates_dir = templates_dir;
    static_dir = static_dir;
    media_root = media_root;
  })

unfoldable pub load_catalog : Table → Config → Result Config
unfolding get_or
load_catalog t cfg = do
  refresh ← get_or number t (codes "refresh_interval_sec") cfg.refresh_interval
  ok (record cfg { refresh_interval = refresh })

unfoldable pub load_metrics : Table → Config → Result Config
unfolding get_or cast_unsigned cast_signed
load_metrics t cfg = do
  flush ← get_or number t (codes "flush_interval_ms") cfg.event_flush_interval
  capacity ←
      get_or number t (codes "queue_capacity") (cast_signed 64 (pos cfg.event_queue_capacity))
  days ← get_or number t (codes "retention_days") cfg.event_retention_days
  ip_secret ← get_or text t (codes "ip_hash_secret") []
  postback ← get_or text t (codes "postback_secret") []
  counter ← get_or number t (codes "metrica_counter") (pos 0)
  ok (record cfg {
    event_flush_interval = flush;
    event_queue_capacity = cast_unsigned 64 capacity;
    event_retention_days = cast_signed 32 days;
    ip_hash_secret = ip_secret;
    postback_secret = postback;
    metrica_counter = cast_unsigned 64 counter;
  })

unfoldable pub load_cookies : Table → Config → Result Config
unfolding get_or
load_cookies t cfg = do
  secure ← get_or flag t (codes "secure") cfg.cookie_secure
  idle ← get_or number t (codes "session_idle_sec") cfg.session_idle_ttl
  ok (record cfg { cookie_secure = secure; session_idle_ttl = idle })

-- A section of the file: one that is missing leaves the settings as they are.
abbrev section : Option Table → (Table → Config → Result Config) → Config → Result Config
section none load cfg = ok cfg
section (some t) load cfg = load t cfg

-- `load_config` on what toml++ makes of the file: none is a parse error, and otherwise each name of
-- a top-level table has its table.
unfoldable pub load_config : Option (Bytes → Option Table) → Result Config
unfolding load_http load_storage load_catalog load_metrics load_cookies
load_config none = err cannot_parse
load_config (some tbl) = do
  with_http ← section (tbl (codes "http")) load_http default_config
  with_storage ← section (tbl (codes "storage")) load_storage with_http
  with_catalog ← section (tbl (codes "catalog")) load_catalog with_storage
  with_metrics ← section (tbl (codes "metrics")) load_metrics with_catalog
  cfg ← section (tbl (codes "cookies")) load_cookies with_metrics
  if is_empty cfg.ip_hash_secret then err secret_not_set else ok cfg
