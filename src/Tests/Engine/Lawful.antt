-- ===== src/Tests/Engine/Lawful.antt =====
-- The small sqlite keeps the laws.
use s_size_store.Prelude.{
  ℕ, Bool, true, false, List, [], ◌∷◌, Option, none, some, nat_eq, ==_refl, any, ◌≡◌, ◌≢◌, refl,
  sym, ◌∙◌, ap, arith, Bool-cases, Option-cases, inl, inr,
}
use s_size_store.Bytes.{Bytes}
use s_size_store.Models.{Event}
use s_size_store.Db.{Tables, insert_event, has_token}
use s_size_store.Db.Items.{PartnerRow}
use s_size_store.Sqlite.{
  Sql, Command, Code, Value, null, real, blob, refused, text, integer, begin_immediate, commit,
  rollback, journal_mode, foreign_keys, busy_timeout, set_version, script, insert_into_events,
  find_click, upsert_conversion, insert_daily, delete_events, select_partners, select_version,
  find_partner,
}
use s_size_store.Sqlite.Laws.{IsSqlite, LetsRead}
use s_size_store.Sqlite.Effects.{
  SameTables, EventStep, FindStep, WriteStep, CommitStep, BeginStep, PartnerStep, upsert_effect,
}
use s_size_store.Tests.Engine.{
  Engine, engine, meaning, at, home_of, is_open, execute, begin_from, commit_from, rollback_from,
  run_text, may_step, marked, step_text, written, rows_written, found, row_if, rolled_up, pruned,
  next_row,
}
use s_size_store.Tests.Engine.Decoding.{
  decode_event, decode_conversion, decode_event_lem, decode_conversion_lem,
}

at_self {ℓ} : {A : Type ℓ} (st : ℕ) (v : A) (f : ℕ → A) → at st v f st ≡ v
at_self st v f = rw (==_refl st) refl

at-some {ℓ} :
    {A : Type ℓ} (n st : ℕ) (v : A) (f : ℕ → A)
    → ◌≡◌ {A = Option ℕ} (some n) (some st)
    → at n v f st ≡ v
at-some n st v f e = let same : n ≡ st = cc in rw same (at_self st v f)

home_settled : (t : Tables) (saved : Option Tables) → is_open saved ≡ false → home_of t saved ≡ t
home_settled t none e = refl
home_settled t (some u) e = ground arith

begin_law :
    (s : Engine) (saved : Option Tables)
    → s.saved ≡ saved
    → BeginStep meaning s (begin_from s saved).0 (begin_from s saved).1
begin_law s none e = (refl, rw e refl, refl)
begin_law s (some u) e = (refl, refl, refl)

commit_law :
    (s : Engine) (saved : Option Tables)
    → s.saved ≡ saved
    → CommitStep meaning s (commit_from s saved).0 (commit_from s saved).1
commit_law s none e = refl
commit_law s (some u) e = (refl, refl, refl)

rollback_law :
    (s : Engine) (saved : Option Tables)
    → s.saved ≡ saved
    → ((rollback_from s saved).0.tables ≡ home_of s.tables s.saved)
      × (is_open (rollback_from s saved).0.saved ≡ false)
rollback_law s none e = (rw e refl, rw e refl)
rollback_law s (some u) e = (rw e refl, refl)

exec_alive :
    (c : Command) (s : Engine)
    → ((execute c s).0.alive ≡ s.alive) × ((execute c s).0.opened ≡ s.opened)
exec_alive begin_immediate s = elim (Option-cases s.saved) [
  | inl e ↦ rw e (refl, refl)
  | inr (u, e) ↦ rw e (refl, refl)
]
exec_alive commit s = elim (Option-cases s.saved) [
  | inl e ↦ rw e (refl, refl)
  | inr (u, e) ↦ rw e (refl, refl)
]
exec_alive rollback s = elim (Option-cases s.saved) [
  | inl e ↦ rw e (refl, refl)
  | inr (u, e) ↦ rw e (refl, refl)
]
exec_alive journal_mode s = (refl, refl)
exec_alive foreign_keys s = (refl, refl)
exec_alive busy_timeout s = (refl, refl)
exec_alive (set_version v) s = (refl, refl)
exec_alive (script sql) s = (refl, refl)

-- No step changes the statements that are there, nor their texts.
abbrev IsKept : Engine → Engine × Code → Type 0
IsKept s o = (o.0.alive ≡ s.alive) × (o.0.texts ≡ s.texts)

written-IsKept : (s : Engine) (t : Option Tables) → IsKept s (written s t)
written-IsKept s none = (refl, refl)
written-IsKept s (some t) = (refl, refl)

rolled_up-IsKept : (s : Engine) (v w : Value) → IsKept s (rolled_up s v w)
rolled_up-IsKept s (integer from) (integer to) = (refl, refl)
rolled_up-IsKept s (integer from) null = (refl, refl)
rolled_up-IsKept s (integer from) (text w) = (refl, refl)
rolled_up-IsKept s (integer from) (blob w) = (refl, refl)
rolled_up-IsKept s (integer from) (real w) = (refl, refl)
rolled_up-IsKept s null w = (refl, refl)
rolled_up-IsKept s (real v) w = (refl, refl)
rolled_up-IsKept s (text v) w = (refl, refl)
rolled_up-IsKept s (blob v) w = (refl, refl)

run_text-IsKept : (s : Engine) (st : ℕ) (sql : Option Sql) → IsKept s (run_text s st sql)
run_text-IsKept s st none = (refl, refl)
run_text-IsKept s st (some insert_into_events) = elim (Option-cases (decode_event (s.params st))) [
  | inl e ↦ rw e (refl, refl)
  | inr (ev, e) ↦ rw e (written-IsKept s _)
]
run_text-IsKept s st (some find_click) = elim (s.params st 1) as (λ v. IsKept s (found s v)) [
  | text token ↦ (refl, refl)
  | _ ↦ (refl, refl)
]
run_text-IsKept s st (some upsert_conversion) =
    elim (Option-cases (decode_conversion (s.params st))) [
      | inl e ↦ rw e (refl, refl)
      | inr (c, e) ↦ rw e (written-IsKept s _)
    ]
run_text-IsKept s st (some insert_daily) = rolled_up-IsKept s (s.params st 1) (s.params st 2)
run_text-IsKept s st (some delete_events) = elim (s.params st 1) as (λ v. IsKept s (pruned s v)) [
  | integer t ↦ (refl, refl)
  | _ ↦ (refl, refl)
]
run_text-IsKept s st (some select_partners) =
    elim (s.rest st) as (λ rows. IsKept s (next_row s st rows)) [
      | [] ↦ (refl, refl)
      | r ∷ rows ↦ (refl, refl)
    ]
run_text-IsKept s st (some select_version) = (refl, refl)
run_text-IsKept s st (some find_partner) = (refl, refl)

step_text-IsKept : (s : Engine) (st : ℕ) → IsKept s (step_text s st)
step_text-IsKept s st = elim (Bool-cases (may_step (s.texts st) (s.unstepped st))) [
  | inl runs ↦ rw runs (run_text-IsKept s st (s.texts st))
  | inr stays ↦ rw stays (refl, refl)
]

home_open :
    (t u : Tables) (saved : Option Tables)
    → is_open saved ≡ true
    → home_of t saved ≡ home_of u saved
home_open t u none e = ground arith
home_open t u (some v) e = refl

event_law :
    (st : ℕ) (s : Engine) (ev : Event) (o : Option (List Event))
    → insert_event ev s.tables.events ≡ o
    → is_open s.saved ≡ true
    → EventStep meaning ev s
        (marked st (written s (rows_written s.tables o))).0
        (written s (rows_written s.tables o)).1
event_law st s ev none e inside = refl
event_law st s ev (some rows) e inside = (e, refl, refl, home_open _ _ s.saved inside, refl)

write_law :
    (st : ℕ) (s : Engine) (effect : Tables → Option Tables) (o : Option Tables)
    → effect s.tables ≡ o
    → is_open s.saved ≡ false
    → WriteStep meaning effect s (marked st (written s o)).0 (written s o).1
write_law st s effect none e outside = (refl, outside)
write_law st s effect (some t) e outside = (e, outside)

find_law :
    (st : ℕ) (s : Engine) (token : Bytes)
    → FindStep meaning token s (found s (text token)).1
      × SameTables meaning s (marked st (found s (text token))).0
find_law st s token = (
  answered (any (has_token token) s.tables.events) refl,
  record { view = refl; home = refl; in_transaction = refl },
)
  where
    answered :
        (b : Bool) → any (has_token token) s.tables.events ≡ b → FindStep meaning token s (row_if b)
    answered true e = e
    answered false e = e

partner_law :
    (s : Engine) (st : ℕ) (rows : List PartnerRow)
    → s.rest st ≡ rows
    → PartnerStep engine meaning st s (marked st (next_row s st rows)).0 (next_row s st rows).1
      × SameTables meaning s (marked st (next_row s st rows)).0
partner_law s st [] e = (e, record { view = refl; home = refl; in_transaction = refl })
partner_law s st (r ∷ rows) e = (
  (
    r,
    e ∙ ap (λ (rest : List PartnerRow). r ∷ rest) (sym (at_self st rows s.rest)),
    record { id = refl; code = refl; title = refl; link_template = refl; enabled = refl },
  ),
  record { view = refl; home = refl; in_transaction = refl },
)

row_or_done : (s : Engine) (st : ℕ) (rows : List PartnerRow) → (next_row s st rows).1 ≢ refused
row_or_done s st [] = λ e. cc
row_or_done s st (r ∷ rows) = λ e. cc

pub engine-IsSqlite : IsSqlite engine meaning
engine-IsSqlite = record {
  settled = λ s e. home_settled s.tables s.saved e;
  prepare_tables = λ sql s. record { view = refl; home = refl; in_transaction = refl };
  prepare_live = λ sql s. refl;
  prepare_holds = λ sql s st e. at-some s.next st (some sql) s.texts e;
  prepare_fresh = λ sql s st e. at-some s.next st true s.unstepped e;
  bind_fresh = λ st i v s. refl;
  reset_fresh = λ st s. at_self st true s.unstepped;
  clear_fresh = λ st s. refl;
  bind_tables = λ st i v s. record { view = refl; home = refl; in_transaction = refl };
  bind_statements = λ st i v s. record { live = refl; holds = refl };
  bind_param = λ st i v s e. at_self st _ s.params;
  step_statements = λ st s.
      let kept = step_text-IsKept s st in
      record { live = kept.0; holds = ap (λ (f : ℕ → Option Sql). f st) kept.1 };
  reset_tables = λ st s. record { view = refl; home = refl; in_transaction = refl };
  reset_statements = λ st s. record { live = refl; holds = refl };
  clear_tables = λ st s. record { view = refl; home = refl; in_transaction = refl };
  clear_statements = λ st s. record { live = refl; holds = refl };
  finalize_tables = λ st s. record { view = refl; home = refl; in_transaction = refl };
  finalize_live = λ st live s e. rw e (rw (==_refl st) refl);
  exec_live = λ c s. (exec_alive c s).0;
  begin = λ s. begin_law s s.saved refl;
  commit_step = λ s e. commit_law s s.saved refl;
  rollback_view = λ s. (rollback_law s s.saved refl).0;
  rollback_ends = λ s. (rollback_law s s.saved refl).1;
  step_event = λ st ev s held fresh columns inside.
      rw (held, fresh)
        (rw (decode_event_lem (s.params st) ev columns)
          (event_law st s ev (insert_event ev s.tables.events) refl inside));
  step_find = λ st token s held fresh p. rw (held, fresh) (rw p (find_law st s token));
  step_upsert = λ st c s held fresh columns outside.
      rw (held, fresh)
        (rw (decode_conversion_lem (s.params st) c columns)
          (write_law st s (upsert_effect c) (upsert_effect c s.tables) refl outside));
  step_daily = λ st day_from day_to s held fresh p1 p2 outside.
      rw (held, fresh) (rw (p1, p2) (refl, outside));
  step_delete = λ st older_than s held fresh p outside. rw (held, fresh) (rw p (refl, outside));
  prepare_left = λ s st e. at-some s.next st s.partner_rows s.rest e;
  step_partners = λ st s held. rw held (partner_law s st (s.rest st) refl);
  open_live = λ path s. refl;
  open_connections = λ path s opened. refl;
  open_failed = λ path s failed. ground arith;
  close_connections = λ n s none_left e. rw e (omega arith);
  exec_connections = λ c s. (exec_alive c s).1;
  exec_version = λ v s range e. refl;
  prepare_version = λ sql s. refl;
  step_version = λ st s held fresh. rw (held, fresh) refl;
}

pub engine-LetsRead : LetsRead engine meaning
engine-LetsRead = record {
  prepares = λ s. (s.next, refl);
  steps = λ st s held. rw held (row_or_done s st (s.rest st));
}
