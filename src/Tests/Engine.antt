-- ===== src/Tests/Engine.antt =====
-- A small sqlite in memory, which shows that the laws of Sqlite/Laws can hold: a transaction keeps the
-- tables that it started from, and a statement keeps its text and its parameters. As if it were built
-- with SQLITE_OMIT_AUTORESET, it refuses to step again before a reset, unless rows are left.
pub mod Decoding
pub mod Lawful
use s_size_store.Prelude.{
  ℕ, suc, ◌+◌, ◌-◌, ℤ, pos, Bool, true, false, List, [], ◌∷◌, Option, none, some, if◌then◌else◌,
  ◌==◌, nat_eq, any,
}
use s_size_store.Bytes.{Bytes}
use s_size_store.Events.{Conversion}
use s_size_store.Models.{Event}
use s_size_store.Db.{Tables, insert_event, has_token, rollup_daily, prune_events}
use s_size_store.Db.Items.{PartnerRow}
use s_size_store.Sqlite.{
  Sqlite, Sql, Command, Value, Code, null, integer, text, blob, row, done, refused, select_version,
  select_partners, find_partner, insert_into_events, find_click, upsert_conversion, insert_daily,
  delete_events, begin_immediate, commit, rollback, set_version,
}
use s_size_store.Sqlite.Effects.{Meaning, update, upsert_effect}
use Decoding.{decode_event, decode_conversion}

-- The row that a statement has returned last.
pub data CurrentRow : Type 0 where
  nothing : CurrentRow
  partner_cells : PartnerRow → CurrentRow
  number : ℤ → CurrentRow

pub record Engine : Type 0 where
  pub tables : Tables
  pub saved : Option Tables
  pub partner_rows : List PartnerRow
  pub alive : List ℕ
  pub next : ℕ
  pub texts : ℕ → Option Sql
  pub unstepped : ℕ → Bool
  pub params : ℕ → ℕ → Value
  pub rest : ℕ → List PartnerRow
  pub current : CurrentRow
  pub opened : ℕ
  pub schema : ℤ

abbrev pub at {ℓ} : {A : Type ℓ} → ℕ → A → (ℕ → A) → ℕ → A
at st v f j = if st == j then v else f j

abbrev pub home_of : Tables → Option Tables → Tables
home_of t none = t
home_of t (some u) = u

abbrev pub is_open : Option Tables → Bool
is_open none = false
is_open (some u) = true

abbrev pub begin_from : Engine → Option Tables → Engine × Bool
begin_from s none = (record s { saved = some s.tables }, true)
begin_from s (some u) = (s, false)

abbrev pub commit_from : Engine → Option Tables → Engine × Bool
commit_from s none = (s, false)
commit_from s (some u) = (record s { saved = none }, true)

abbrev pub rollback_from : Engine → Option Tables → Engine × Bool
rollback_from s none = (s, false)
rollback_from s (some u) = (record s { tables = u; saved = none }, true)

abbrev pub execute : Command → Engine → Engine × Bool
execute begin_immediate s = begin_from s s.saved
execute commit s = commit_from s s.saved
execute rollback s = rollback_from s s.saved
execute (set_version v) s = (record s { schema = v }, true)
execute _ s = (s, true)

abbrev pub rows_for : Sql → List PartnerRow → List PartnerRow
rows_for select_partners rows = rows
rows_for _ rows = []

abbrev pub prepared : Sql → Engine → Engine × Option ℕ
prepared sql s = (
  record s {
    alive = s.next ∷ s.alive;
    next = s.next + 1;
    texts = at s.next (some sql) s.texts;
    unstepped = at s.next true s.unstepped;
    rest = at s.next (rows_for sql s.partner_rows) s.rest;
  },
  some s.next,
)

abbrev pub written : Engine → Option Tables → Engine × Code
written s none = (s, refused)
written s (some t) = (record s { tables = t }, done)

abbrev pub rows_written : Tables → Option (List Event) → Option Tables
rows_written t none = none
rows_written t (some rows) = some (record t { events = rows })

abbrev pub event_written : Engine → Option Event → Engine × Code
event_written s none = (s, refused)
event_written s (some ev) = written s (rows_written s.tables (insert_event ev s.tables.events))

abbrev pub conversion_written : Engine → Option Conversion → Engine × Code
conversion_written s none = (s, refused)
conversion_written s (some c) = written s (upsert_effect c s.tables)

abbrev pub row_if : Bool → Code
row_if true = row
row_if false = done

abbrev pub found : Engine → Value → Engine × Code
found s (text token) = (s, row_if (any (has_token token) s.tables.events))
found s _ = (s, refused)

abbrev pub rolled_up : Engine → Value → Value → Engine × Code
rolled_up s (integer from) (integer to) =
    (record s { tables = rollup_daily from to s.tables }, done)
rolled_up s _ _ = (s, refused)

abbrev pub pruned : Engine → Value → Engine × Code
pruned s (integer t) = (record s { tables = prune_events t s.tables }, done)
pruned s _ = (s, refused)

abbrev pub next_row : Engine → ℕ → List PartnerRow → Engine × Code
next_row s st [] = (s, done)
next_row s st (r ∷ rows) = (record s { current = partner_cells r; rest = at st rows s.rest }, row)

abbrev pub run_text : Engine → ℕ → Option Sql → Engine × Code
run_text s st none = (s, refused)
run_text s st (some insert_into_events) = event_written s (decode_event (s.params st))
run_text s st (some find_click) = found s (s.params st 1)
run_text s st (some upsert_conversion) = conversion_written s (decode_conversion (s.params st))
run_text s st (some insert_daily) = rolled_up s (s.params st 1) (s.params st 2)
run_text s st (some delete_events) = pruned s (s.params st 1)
run_text s st (some select_partners) = next_row s st (s.rest st)
run_text s st (some select_version) = (record s { current = number s.schema }, row)
run_text s st (some find_partner) = (s, done)

-- May a statement be stepped, given whether it has not been since its reset?
abbrev pub may_step : Option Sql → Bool → Bool
may_step (some select_partners) unstepped = true
may_step _ unstepped = unstepped

abbrev pub marked : ℕ → Engine × Code → Engine × Code
marked st o = (record o.0 { unstepped = at st false o.0.unstepped }, o.1)

abbrev pub step_text : Engine → ℕ → Engine × Code
step_text s st =
    if may_step (s.texts st) (s.unstepped st)
    then marked st (run_text s st (s.texts st))
    else (s, refused)

abbrev pub erase : ℕ → List ℕ → List ℕ
erase st [] = []
erase st (x ∷ xs) = if x == st then xs else x ∷ erase st xs

abbrev pub int64_at : ℕ → CurrentRow → ℤ
int64_at i nothing = pos 0
int64_at i (partner_cells r) = if i == 0 then r.id else r.enabled
int64_at i (number n) = n

abbrev pub text_at : ℕ → CurrentRow → Option Bytes
text_at i (partner_cells r) =
    some (if i == 1 then r.code else if i == 2 then r.title else r.link_template)
text_at i _ = none

abbrev pub engine : Sqlite Engine
engine = record {
  sqlite3_open = λ path s. (record s { opened = suc s.opened }, true);
  sqlite3_close = λ s. record s { opened = s.opened - 1 };
  sqlite3_exec = execute;
  sqlite3_prepare_v2 = prepared;
  sqlite3_bind =
      λ st i v s. (record s { params = at st (update (s.params st) i v) s.params }, true);
  sqlite3_step = λ st s. step_text s st;
  sqlite3_reset = λ st s. record s { unstepped = at st true s.unstepped };
  sqlite3_clear_bindings = λ st s. record s { params = at st (λ i. null) s.params };
  sqlite3_finalize = λ st s. record s { alive = erase st s.alive };
  sqlite3_column_int64 = λ st i s. int64_at i s.current;
  sqlite3_column_text = λ st i s. text_at i s.current;
  sqlite3_column_is_null = λ st i s. false;
  sqlite3_changes = λ s. pos 0;
}

abbrev pub meaning : Meaning Engine
meaning = record {
  view = λ s. s.tables;
  home = λ s. home_of s.tables s.saved;
  in_transaction = λ s. is_open s.saved;
  partners = λ s. s.partner_rows;
  connections = λ s. s.opened;
  version = λ s. s.schema;
  live = λ s. s.alive;
  holds = λ st s. s.texts st;
  fresh = λ st s. s.unstepped st;
  param = λ st s. s.params st;
  left = λ st s. s.rest st;
}
