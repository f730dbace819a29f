-- ===== src/Db.antt =====
-- src/db.hpp and src/db.cpp, the metrics: the events, the conversions and the daily numbers. A
-- statement is read as a function of the rows of its table, with the constraints of
-- migrations/001_init.sql; sqlite may also refuse a statement for reasons of its own, and which it
-- refuses is an argument. A statement that is refused changes nothing.
pub mod Batches
pub mod Conversions
pub mod Rollup
pub mod Pruning
pub mod Items
pub mod Admin
use s_size_store.Prelude.{
  ℕ, suc, ◌+◌, ℤ, ltb_ℤ, div_trunc, Bool, true, false, not, ◌&&◌, ◌||◌, List, [], ◌∷◌, ◌++◌, Option,
  none, some, if◌then◌else◌, Eq, ◌==◌, ==_iff, ◌≡◌, ◌↔◌, arith, any, filter, insert_or_assign,
  int_eq, nat_eq, list_eq,
}
use s_size_store.Bytes.{Bytes, codes, is_empty}
use s_size_store.Models.{
  TsMs, Kopek, Event, EventType, impression, card_click, outbound, event_type_to_string,
}
use s_size_store.Events.{Conversion}

-- A row of `conversions`; an order reference that is missing is NULL.
pub record ConversionRow : Type 0 where
  pub click_token : Bytes
  pub ts : TsMs
  pub order_ref : Option Bytes
  pub amount : Option Kopek
  pub status : Bytes
  pub raw : Bytes

pub record Counts : Type 0 where
  pub impressions : ℕ
  pub card_clicks : ℕ
  pub outbounds : ℕ

-- A day and an item.
abbrev pub DayItem : Type 0
DayItem = ℤ × ℤ

abbrev pub same_pair : DayItem → DayItem → Bool
same_pair (d, i) (e, j) = d == e && i == j

pub same_pair_iff : (a b : DayItem) → (same_pair a b ≡ true) ↔ (a ≡ b)
same_pair_iff (d, i) (e, j) = ground (arith, ==_iff d e, ==_iff i j)

instance abbrev pub pair_eq : Eq DayItem
pair_eq = record { same = same_pair; same_iff = same_pair_iff }

-- The rows of `events` in the order of their keys (an empty click token is NULL), and the two tables
-- that the statements below write.
pub record Tables : Type 0 where
  pub events : List Event
  pub conversions : List ConversionRow
  pub daily : List (DayItem × Counts)

-- Does the row hold this click token? NULL equals nothing.
unfoldable pub has_token : Bytes → Event → Bool
has_token token ev = not (is_empty ev.click_token) && ev.click_token == token

-- The INSERT of one event: none if the unique index on the tokens refuses it.
unfoldable pub insert_event : Event → List Event → Option (List Event)
insert_event ev rows =
    if not (is_empty ev.click_token) && any (has_token ev.click_token) rows
    then none
    else some (rows ++ ev ∷ [])

-- The loop inside the transaction, and its COMMIT: `refused i` is statement `i`.
unfoldable pub insert_from : (ℕ → Bool) → ℕ → List Event → List Event → Option (List Event)
unfolding insert_event
insert_from refused i [] rows = if refused i then none else some rows
insert_from refused i (ev ∷ evs) rows = elim (if refused i then none else insert_event ev rows) [
  | none ↦ none
  | some rows' ↦ insert_from refused (suc i) evs rows'
]

-- `insert_events`: the tables, and whether it returned; after an exception the transaction is rolled
-- back.
unfoldable pub insert_events : (ℕ → Bool) → List Event → Tables → Tables × Bool
unfolding insert_from
insert_events refused [] t = (t, true)
insert_events refused (ev ∷ evs) t = elim (insert_from refused 0 (ev ∷ evs) t.events) [
  | none ↦ (t, false)
  | some rows ↦ (record t { events = rows }, true)
]

unfoldable pub row_of : Conversion → ConversionRow
row_of c = record {
  click_token = c.click_token;
  ts = c.ts;
  order_ref = if is_empty c.order_ref then none else some c.order_ref;
  amount = c.amount;
  status = c.status;
  raw = c.raw;
}

-- The conflict target of the upsert: two order references, neither of them NULL.
abbrev pub same_order : Option Bytes → Option Bytes → Bool
same_order (some a) (some b) = a == b
same_order _ _ = false

-- `INSERT ... ON CONFLICT(order_ref) ... DO UPDATE`
unfoldable pub upsert : ConversionRow → List ConversionRow → List ConversionRow
upsert row [] = row ∷ []
upsert row (r ∷ rows) =
    let rest = upsert row rows in
    if same_order r.order_ref row.order_ref
    then record r { status = row.status; amount = row.amount; ts = row.ts } ∷ rows
    else r ∷ rest

-- The CHECK on the status.
unfoldable pub known_status : Bytes → Bool
known_status status =
    status == codes "pending" || status == codes "approved" || status == codes "rejected"

-- `record_conversion`: the tables, and its answer, or none if it threw; `refused` says whether
-- sqlite refuses one of the statements that it runs.
unfoldable pub record_conversion : Bool → Conversion → Tables → Tables × Option Bool
unfolding upsert
record_conversion refused c t =
    if refused
    then (t, none)
    else if not (any (has_token c.click_token) t.events)
    then (t, some false)
    else if not (known_status c.status)
    then (t, none)
    else (record t { conversions = upsert (row_of c) t.conversions }, some true)

abbrev pub ms_per_day : ℕ
ms_per_day = 86400000

-- The group that an event belongs to: none if it is not counted.
unfoldable pub group_of : Event → Option DayItem
group_of ev = elim ev.item_id [
  | none ↦ none
  | some item ↦ if ev.ua_class == codes "bot" then none else some (div_trunc ev.ts ms_per_day, item)
]

abbrev pub in_group : DayItem → Option DayItem → Bool
in_group k none = false
in_group k (some j) = j == k

abbrev pub between : ℤ → ℤ → Option DayItem → Bool
between day_from day_to none = false
between day_from day_to (some (day, item)) = not (ltb_ℤ day day_from) && not (ltb_ℤ day_to day)

-- The events that the WHERE clause passes.
unfoldable pub selected : ℤ → ℤ → List Event → List Event
unfolding group_of
selected day_from day_to evs = filter (λ ev. between day_from day_to (group_of ev)) evs

-- `SUM(type = ...)` over a group.
unfoldable pub sum_type : Bytes → DayItem → List Event → ℕ
unfolding group_of
sum_type type k [] = 0
sum_type type k (ev ∷ evs) =
    let rest = sum_type type k evs in
    if in_group k (group_of ev) && event_type_to_string ev.type == type then suc rest else rest

unfoldable pub counts_of : DayItem → List Event → Counts
unfolding sum_type
counts_of k evs = record {
  impressions = sum_type (codes "impression") k evs;
  card_clicks = sum_type (codes "card_click") k evs;
  outbounds = sum_type (codes "outbound") k evs;
}

abbrev add_group : Option DayItem → List DayItem → List DayItem
add_group none ks = ks
add_group (some k) ks = if any (λ j. j == k) ks then ks else k ∷ ks

-- `GROUP BY day, item_id`: each group once.
unfoldable pub groups : List Event → List DayItem
unfolding group_of
groups [] = []
groups (ev ∷ evs) = add_group (group_of ev) (groups evs)

-- One row for each group, in place of the row that is there.
unfoldable pub write_groups :
    List DayItem → List Event → List (DayItem × Counts) → List (DayItem × Counts)
unfolding counts_of
write_groups [] evs daily = daily
write_groups (k ∷ ks) evs daily = insert_or_assign k (counts_of k evs) (write_groups ks evs daily)

unfoldable pub rollup_daily : ℤ → ℤ → Tables → Tables
unfolding selected groups write_groups
rollup_daily day_from day_to t =
    let evs = selected day_from day_to t.events in
    record t { daily = write_groups (groups evs) evs t.daily }

unfoldable pub prune_events : TsMs → Tables → Tables
prune_events older_than t = record t {
  events = filter (λ ev. not (ltb_ℤ ev.ts older_than)) t.events;
}
