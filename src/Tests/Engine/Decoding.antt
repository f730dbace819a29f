-- ===== src/Tests/Engine/Decoding.antt =====
-- The rows that the parameters of a statement stand for.
use s_size_store.Prelude.{
  ℕ, ℤ, [], ◌∷◌, Option, none, some, if◌then◌else◌, ◌==◌, list_eq, nat_eq, ◌≡◌, refl,
}
use s_size_store.Bytes.{Bytes, codes}
use s_size_store.Models.{
  Event, EventType, impression, card_click, outbound, search_query, event_type_to_string,
}
use s_size_store.Events.{Conversion}
use s_size_store.Sqlite.{Value, null, integer, text, blob, of_optional, of_text, of_span}
use s_size_store.Sqlite.Effects.{IsEventRow, IsConversionRow}

abbrev integer_in : Value → Option ℤ
integer_in (integer v) = some v
integer_in _ = none

abbrev text_of : Value → Option Bytes
text_of (text s) = some s
text_of _ = none

abbrev optional_of : Value → Option (Option ℤ)
optional_of null = some none
optional_of (integer v) = some (some v)
optional_of _ = none

abbrev blank_or_text : Value → Option Bytes
blank_or_text null = some []
blank_or_text (text s) = some s
blank_or_text _ = none

abbrev blank_or_blob : Value → Option Bytes
blank_or_blob null = some []
blank_or_blob (blob s) = some s
blank_or_blob _ = none

abbrev type_of : Bytes → Option EventType
type_of w =
    if w == codes "impression"
    then some impression
    else if w == codes "card_click"
    then some card_click
    else if w == codes "outbound"
    then some outbound
    else if w == codes "search"
    then some search_query
    else none

abbrev type_from : Value → Option EventType
type_from (text w) = type_of w
type_from _ = none

abbrev event_from :
    Option ℤ
    → Option Bytes
    → Option Bytes
    → Option EventType
    → Option (Option ℤ)
    → Option (Option ℤ)
    → Option Bytes
    → Option Bytes
    → Option Bytes
    → Option Bytes
    → Option Bytes
    → Option Bytes
    → Option Event
event_from (some ts) (some anon) (some session) (some type) (some item) (some position)
      (some surface) (some token) (some source) (some ua) (some ip) (some payload) =
    some (record {
      ts = ts;
      anon_id = anon;
      session_id = session;
      type = type;
      item_id = item;
      position = position;
      surface = surface;
      click_token = token;
      source = source;
      ua_class = ua;
      ip_hash = ip;
      payload = payload;
    })
event_from _ _ _ _ _ _ _ _ _ _ _ _ = none

pub decode_event : (ℕ → Value) → Option Event
decode_event p =
    event_from (integer_in (p 1)) (text_of (p 2)) (text_of (p 3)) (type_from (p 4))
      (optional_of (p 5)) (optional_of (p 6)) (text_of (p 7)) (blank_or_text (p 8)) (text_of (p 9))
      (text_of (p 10)) (blank_or_blob (p 11)) (text_of (p 12))

abbrev conversion_from :
    Option Bytes
    → Option ℤ
    → Option Bytes
    → Option (Option ℤ)
    → Option Bytes
    → Option Bytes
    → Option Conversion
conversion_from (some token) (some ts) (some order) (some amount) (some status) (some raw) =
    some (record {
      click_token = token;
      ts = ts;
      order_ref = order;
      amount = amount;
      status = status;
      raw = raw;
    })
conversion_from _ _ _ _ _ _ = none

unfoldable pub decode_conversion : (ℕ → Value) → Option Conversion
decode_conversion p =
    conversion_from (text_of (p 1)) (integer_in (p 2)) (blank_or_text (p 3)) (optional_of (p 4))
      (text_of (p 5)) (text_of (p 6))

optional_of-of_optional : (o : Option ℤ) → optional_of (of_optional o) ≡ some o
optional_of-of_optional none = refl
optional_of-of_optional (some v) = refl

blank_or_text-of_text : (s : Bytes) → blank_or_text (of_text s) ≡ some s
blank_or_text-of_text [] = refl
blank_or_text-of_text (c ∷ s) = refl

blank_or_blob-of_span : (s : Bytes) → blank_or_blob (of_span s) ≡ some s
blank_or_blob-of_span [] = refl
blank_or_blob-of_span (c ∷ s) = refl

type_of-to_string : (t : EventType) → type_of (event_type_to_string t) ≡ some t
unfolding event_type_to_string
type_of-to_string impression = refl
type_of-to_string card_click = refl
type_of-to_string outbound = refl
type_of-to_string search_query = refl

pub decode_event_lem : (p : ℕ → Value) (ev : Event) → IsEventRow p ev → decode_event p ≡ some ev
unfolding decode_event
decode_event_lem p ev h =
    rw
      (
        h.ts, h.anon_id, h.session_id, h.type, h.item_id, h.position, h.surface, h.click_token,
        h.source, h.ua_class, h.ip_hash, h.payload,
      )
      (rw
        (
          type_of-to_string ev.type,
          optional_of-of_optional ev.item_id,
          optional_of-of_optional ev.position,
          blank_or_text-of_text ev.click_token,
          blank_or_blob-of_span ev.ip_hash,
        )
        refl)

pub decode_conversion_lem :
    (p : ℕ → Value) (c : Conversion) → IsConversionRow p c → decode_conversion p ≡ some c
unfolding decode_conversion
decode_conversion_lem p c h =
    rw (h.click_token, h.ts, h.order_ref, h.amount, h.status, h.raw)
      (rw (blank_or_text-of_text c.order_ref, optional_of-of_optional c.amount) refl)
