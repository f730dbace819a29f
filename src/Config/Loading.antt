-- ===== src/Config/Loading.antt =====
-- What `load_config` makes of a file.
use s_size_store.Prelude.{
  ℕ, ◌<◌, ◌-◌, ◌^◌, ◌≡◌, ◌∙◌, refl, ap, arith, ℤ, pos, InRange, cast_signed-32, Bool, false, Option,
  none, some, ◌==◌, if◌then◌else◌, list_eq, nat_eq,
}
use s_size_store.Bytes.{Bytes, codes, is_empty}
use s_size_store.Config.{
  Config, default_config, Node, Table, Result, ok, err, secret_not_set, load_config, load_http,
  load_storage, load_catalog, load_metrics, load_cookies, get_or, ◌>>=◌, cast_unsigned,
}

abbrev string_node : Bytes → Node
string_node s = record { as_string = some s; as_int64 = none; as_bool = none }

abbrev int_node : ℤ → Node
int_node n = record { as_string = none; as_int64 = some n; as_bool = none }

abbrev bool_node : Bool → Node
bool_node b = record { as_string = none; as_int64 = none; as_bool = some b }

-- A table of the file that writes out the settings.
abbrev entry {ℓ} : {A : Type ℓ} → Bytes → A → (Bytes → Option A) → Bytes → Option A
entry key a others k = if k == key then some a else others k

abbrev empty {ℓ} : {A : Type ℓ} → Bytes → Option A
empty k = none

abbrev http_table : Config → Table
http_table c = entry (codes "bind_address") (string_node c.bind_address) (
    entry (codes "port") (int_node (pos c.port)) (
      entry (codes "io_threads") (int_node c.io_threads)
        (entry (codes "base_path") (string_node c.base_path) empty)))

abbrev storage_table : Config → Table
storage_table c = entry (codes "db_path") (string_node c.db_path) (
    entry (codes "migrations_dir") (string_node c.migrations_dir) (
      entry (codes "templates_dir") (string_node c.templates_dir) (
        entry (codes "static_dir") (string_node c.static_dir)
          (entry (codes "media_root") (string_node c.media_root) empty))))

abbrev catalog_table : Config → Table
catalog_table c = entry (codes "refresh_interval_sec") (int_node c.refresh_interval) empty

abbrev metrics_table : Config → Table
metrics_table c = entry (codes "flush_interval_ms") (int_node c.event_flush_interval) (
    entry (codes "queue_capacity") (int_node (pos c.event_queue_capacity)) (
      entry (codes "retention_days") (int_node c.event_retention_days) (
        entry (codes "ip_hash_secret") (string_node c.ip_hash_secret) (
          entry (codes "postback_secret") (string_node c.postback_secret)
            (entry (codes "metrica_counter") (int_node (pos c.metrica_counter)) empty)))))

abbrev cookies_table : Config → Table
cookies_table c =
    entry (codes "secure") (bool_node c.cookie_secure)
      (entry (codes "session_idle_sec") (int_node c.session_idle_ttl) empty)

-- The file that writes out the settings, each under the name that config.example.toml gives it.
abbrev pub written : Config → Bytes → Option Table
written c = entry (codes "http") (http_table c) (
    entry (codes "storage") (storage_table c) (
      entry (codes "catalog") (catalog_table c) (
        entry (codes "metrics") (metrics_table c)
          (entry (codes "cookies") (cookies_table c) empty))))

-- The settings that a file can state.
pub record IsWritable (c : Config) : Type 0 where
  pub port_fits : c.port < 2 ^ 16
  pub threads_fit : InRange (2 ^ 31 - 1) c.io_threads
  pub days_fit : InRange (2 ^ 31 - 1) c.event_retention_days
  pub capacity_fits : c.event_queue_capacity < 2 ^ 63
  pub counter_fits : c.metrica_counter < 2 ^ 63
  pub has_secret : is_empty c.ip_hash_secret ≡ false
  pub usual_ttl : c.anon_cookie_ttl ≡ default_config.anon_cookie_ttl

-- The settings `d` with those of one section of `c`.
abbrev with_http : Config → Config → Config
with_http c d = record d {
  bind_address = c.bind_address;
  port = c.port;
  io_threads = c.io_threads;
  base_path = c.base_path;
}

abbrev with_storage : Config → Config → Config
with_storage c d = record d {
  db_path = c.db_path;
  migrations_dir = c.migrations_dir;
  templates_dir = c.templates_dir;
  static_dir = c.static_dir;
  media_root = c.media_root;
}

abbrev with_catalog : Config → Config → Config
with_catalog c d = record d { refresh_interval = c.refresh_interval }

abbrev with_metrics : Config → Config → Config
with_metrics c d = record d {
  event_flush_interval = c.event_flush_interval;
  event_queue_capacity = c.event_queue_capacity;
  event_retention_days = c.event_retention_days;
  ip_hash_secret = c.ip_hash_secret;
  postback_secret = c.postback_secret;
  metrica_counter = c.metrica_counter;
}

abbrev with_cookies : Config → Config → Config
with_cookies c d = record d {
  cookie_secure = c.cookie_secure;
  session_idle_ttl = c.session_idle_ttl;
}

same_unsigned-16 : (n : ℕ) → n < 2 ^ 16 → cast_unsigned 16 (pos n) ≡ n
unfolding cast_unsigned
same_unsigned-16 n h = omega (arith, h)

same_unsigned-64 : (n : ℕ) → n < 2 ^ 63 → cast_unsigned 64 (pos n) ≡ n
unfolding cast_unsigned
same_unsigned-64 n h = omega (arith, h)

http_written : (c d : Config) → IsWritable c → load_http (http_table c) d ≡ ok (with_http c d)
unfolding load_http get_or
http_written c d h =
    rw (same_unsigned-16 c.port h.port_fits, cast_signed-32 c.io_threads h.threads_fit) refl

storage_written : (c d : Config) → load_storage (storage_table c) d ≡ ok (with_storage c d)
unfolding load_storage get_or
storage_written c d = refl

catalog_written : (c d : Config) → load_catalog (catalog_table c) d ≡ ok (with_catalog c d)
unfolding load_catalog get_or
catalog_written c d = refl

metrics_written :
    (c d : Config) → IsWritable c → load_metrics (metrics_table c) d ≡ ok (with_metrics c d)
unfolding load_metrics get_or
metrics_written c d h =
    rw
      (
        same_unsigned-64 c.event_queue_capacity h.capacity_fits,
        same_unsigned-64 c.metrica_counter h.counter_fits,
        cast_signed-32 c.event_retention_days h.days_fit,
      )
      refl

cookies_written : (c d : Config) → load_cookies (cookies_table c) d ≡ ok (with_cookies c d)
unfolding load_cookies get_or
cookies_written c d = refl

abbrev up_to_catalog : Config → Config
up_to_catalog c = with_catalog c (with_storage c (with_http c default_config))

abbrev usable : Config → Result Config
usable c = if is_empty c.ip_hash_secret then err secret_not_set else ok c

-- What is left to load behind each section.
abbrev behind_metrics : Config → Config → Result Config
behind_metrics c d = load_cookies (cookies_table c) d >>= usable

abbrev behind_catalog : Config → Config → Result Config
behind_catalog c d = load_metrics (metrics_table c) d >>= behind_metrics c

abbrev behind_storage : Config → Config → Result Config
behind_storage c d = load_catalog (catalog_table c) d >>= behind_catalog c

abbrev behind_http : Config → Config → Result Config
behind_http c d = load_storage (storage_table c) d >>= behind_storage c

finished :
    (c : Config)
    → IsWritable c
    → (if is_empty c.ip_hash_secret
        then err secret_not_set
        else ok (record c { anon_cookie_ttl = default_config.anon_cookie_ttl }))
      ≡ ok c
finished c h = rw (h.has_secret, ← h.usual_ttl) refl

-- A file that writes out settings is loaded as exactly those settings, whichever they are, if they
-- are within the ranges of their types, have a secret for the hashes, and leave the lifetime of the
-- device cookie at its default, which no file can change.
pub load_config-written : (c : Config) → IsWritable c → load_config (some (written c)) ≡ ok c
unfolding load_config
load_config-written c h =
    ap (λ r. r >>= behind_http c) (http_written c default_config h)
    ∙ ap (λ r. r >>= behind_storage c) (storage_written c (with_http c default_config))
    ∙ ap (λ r. r >>= behind_catalog c)
        (catalog_written c (with_storage c (with_http c default_config)))
    ∙ ap (λ r. r >>= behind_metrics c) (metrics_written c (up_to_catalog c) h)
    ∙ ap (λ r. r >>= usable) (cookies_written c (with_metrics c (up_to_catalog c)))
    ∙ finished c h
