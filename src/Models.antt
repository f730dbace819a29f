-- ===== src/Models.antt =====
-- src/models.hpp and src/models.cpp: the structs that pass between the components, and the words
-- that stand for the enumerations in the database.
pub mod Words
use s_size_store.Prelude.{
  ℕ, ℤ, pos, Bool, true, false, List, [], Option, none, some, ◌==◌, if◌then◌else◌, nat_eq, list_eq,
}
use s_size_store.Bytes.{Bytes, codes}

-- Money in kopecks, and Unix milliseconds: both are `std::int64_t`.
abbrev pub Kopek : Type 0
Kopek = ℤ

abbrev pub TsMs : Type 0
TsMs = ℤ

pub data ItemStatus : Type 0 where
  draft published archived : ItemStatus

unfoldable pub status_to_string : ItemStatus → Bytes
status_to_string draft = codes "draft"
status_to_string published = codes "published"
status_to_string archived = codes "archived"

unfoldable pub item_status_from_string : Bytes → Option ItemStatus
item_status_from_string s =
    if s == codes "draft"
    then some draft
    else if s == codes "published"
    then some published
    else if s == codes "archived"
    then some archived
    else none

pub record Image : Type 0 where
  pub id : ℤ
  pub path : Bytes
  pub thumb_path : Bytes
  pub width : ℤ
  pub height : ℤ
  pub sort_order : ℤ

pub record Partner : Type 0 where
  pub id : ℤ
  pub code : Bytes
  pub title : Bytes
  pub link_template : Bytes
  pub enabled : Bool

pub record Color : Type 0 where
  pub name : Bytes
  pub hex : Bytes

-- `score` is a double. Every finite double is an integer multiple of 2^-1074, and the program only
-- compares scores: the field holds that integer.
pub record Item : Type 0 where
  pub id : ℤ
  pub title : Bytes
  pub description : Bytes
  pub brand : Bytes
  pub price_kopek : Kopek
  pub old_price_kopek : Option Kopek
  pub currency : Bytes
  pub partner_id : ℤ
  pub product_url : Bytes
  pub campaign : Bytes
  pub status : ItemStatus
  pub score : ℤ
  pub images : List Image
  pub tags : List Bytes
  pub sizes : List Bytes
  pub colors : List Color
  pub created_at : TsMs
  pub updated_at : TsMs
  pub published_at : Option TsMs

pub data EventType : Type 0 where
  impression card_click outbound search_query : EventType

unfoldable pub event_type_to_string : EventType → Bytes
event_type_to_string impression = codes "impression"
event_type_to_string card_click = codes "card_click"
event_type_to_string outbound = codes "outbound"
event_type_to_string search_query = codes "search"

pub record Event : Type 0 where
  pub ts : TsMs
  pub anon_id : Bytes
  pub session_id : Bytes
  pub type : EventType
  pub item_id : Option ℤ
  pub position : Option ℤ
  pub surface : Bytes
  pub click_token : Bytes
  pub source : Bytes
  pub ua_class : Bytes
  pub ip_hash : Bytes
  pub payload : Bytes

-- `Event{}` with the given type: every other member has its default.
abbrev pub blank_event : EventType → Event
blank_event t = record {
  ts = pos 0;
  anon_id = [];
  session_id = [];
  type = t;
  item_id = none;
  position = none;
  surface = [];
  click_token = [];
  source = [];
  ua_class = [];
  ip_hash = [];
  payload = [];
}
