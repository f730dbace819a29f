-- ===== src/Events.antt =====
-- src/events.hpp and src/events.cpp: the two buffers between the request coroutines and the
-- database thread, and the coarse class of a client. The mutex makes each operation one step.
pub mod Buffers
pub mod UserAgents
use s_size_store.Prelude.{
  ℕ, zero, suc, ◌+◌, Bool, true, false, ◌&&◌, List, [], ◌∷◌, ◌++◌, map, Option, none, some, leb,
  if◌then◌else◌, length, any,
}
use s_size_store.Bytes.{Bytes, codes, contains, is_empty}
use s_size_store.Models.{Event, TsMs, Kopek}

pub record EventQueue : Type 0 where
  pub pending : List Event
  pub max_pending : ℕ
  pub dropped : ℕ

-- The constructor.
abbrev pub event_queue : ℕ → EventQueue
event_queue max_pending = record { pending = []; max_pending = max_pending; dropped = 0 }

unfoldable pub push_event : Event → EventQueue → EventQueue × Bool
push_event ev q =
    if leb q.max_pending (length q.pending)
    then (record q { dropped = q.dropped + 1 }, false)
    else (record q { pending = q.pending ++ ev ∷ [] }, true)

-- What is pending goes to the caller, whose vector was cleared before the swap.
unfoldable pub drain_events : EventQueue → EventQueue × List Event
drain_events q = (record q { pending = [] }, q.pending)

pub record Conversion : Type 0 where
  pub click_token : Bytes
  pub ts : TsMs
  pub order_ref : Bytes
  pub amount : Option Kopek
  pub status : Bytes
  pub raw : Bytes

pub record ConversionQueue : Type 0 where
  pub pending : List Conversion

abbrev pub conversion_queue : ConversionQueue
conversion_queue = record { pending = [] }

unfoldable pub push_conversion : Conversion → ConversionQueue → ConversionQueue × Bool
push_conversion conv q = (record { pending = q.pending ++ conv ∷ [] }, true)

unfoldable pub drain_conversions : ConversionQueue → ConversionQueue × List Conversion
drain_conversions q = (record { pending = [] }, q.pending)

-- `std::tolower` in the C locale
unfoldable pub to_lower : ℕ → ℕ
to_lower c = if leb b'A' c && leb c b'Z' then c + 32 else c

abbrev pub bot_markers : List Bytes
bot_markers =
    codes "bot"
    ∷ codes "crawler"
    ∷ codes "spider"
    ∷ codes "slurp"
    ∷ codes "curl"
    ∷ codes "wget"
    ∷ codes "python-requests"
    ∷ codes "headlesschrome"
    ∷ codes "yandex.com/bots"
    ∷ codes "facebookexternalhit"
    ∷ codes "preview"
    ∷ []

abbrev pub mobile_markers : List Bytes
mobile_markers =
    codes "mobile"
    ∷ codes "android"
    ∷ codes "iphone"
    ∷ codes "ipad"
    ∷ codes "ipod"
    ∷ codes "opera mini"
    ∷ []

unfoldable pub classify_lower : Bytes → Bytes
classify_lower ua =
    if any (contains ua) bot_markers
    then codes "bot"
    else if any (contains ua) mobile_markers
    then codes "mobile"
    else if is_empty ua
    then codes "bot"
    else codes "desktop"

unfoldable pub classify_ua : Bytes → Bytes
classify_ua user_agent = classify_lower (map to_lower user_agent)

-- `crypto_generichash_BYTES_MIN`
abbrev pub hash_size : ℕ
hash_size = 16

-- The array `out{}`.
abbrev pub blank_hash : ℕ → Bytes
blank_hash zero = []
blank_hash (suc n) = 0 ∷ blank_hash n

abbrev filled_or : Bytes → Option Bytes → Bytes
filled_or out none = out
filled_or out (some h) = h

-- `hash_ip`: `crypto_generichash` on a size, a text and a key is libsodium's, an argument. Its return
-- value is ignored: where it fails, the array stays as it was.
unfoldable pub hash_ip : (ℕ → Bytes → Bytes → Option Bytes) → Bytes → Bytes → Bytes
hash_ip generichash ip secret = filled_or (blank_hash hash_size) (generichash hash_size ip secret)
