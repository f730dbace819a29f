-- ===== src/Sqlite/Queries.antt =====
-- src/db.cpp: the methods of `DbConn` on the metrics and the partners, statement by statement.
use s_size_store.Prelude.{
  ℕ, zero, suc, ℤ, pos, Bool, true, false, not, List, [], ◌∷◌, ◌++◌, Option, none, some, ◌==◌,
  int_eq, if◌then◌else◌,
}
use s_size_store.Bytes.{Bytes}
use s_size_store.Models.{Event, Partner, TsMs, event_type_to_string}
use s_size_store.Events.{Conversion}
use s_size_store.Sqlite.{
  Sqlite, Value, integer, text, select_partners, find_partner, insert_into_events, find_click,
  upsert_conversion, insert_daily, delete_events, begin_immediate, commit, rollback, M, pure, ◌>>=◌,
  ◌>>◌, rethrow, of_span, of_optional, of_text, with_stmt, bind_all, step, reset, column_int,
  column_text,
}
use s_size_store.Sqlite.Connection.{exec}

-- The calls of `bind` for one event, in their order.
abbrev pub event_binds : Event → List (ℕ × Value)
event_binds ev =
    (1, integer ev.ts)
    ∷ (2, text ev.anon_id)
    ∷ (3, text ev.session_id)
    ∷ (4, text (event_type_to_string ev.type))
    ∷ (5, of_optional ev.item_id)
    ∷ (6, of_optional ev.position)
    ∷ (7, text ev.surface)
    ∷ (8, of_text ev.click_token)
    ∷ (9, text ev.source)
    ∷ (10, text ev.ua_class)
    ∷ (11, of_span ev.ip_hash)
    ∷ (12, text ev.payload)
    ∷ []

abbrev pub conversion_binds : Conversion → List (ℕ × Value)
conversion_binds c =
    (1, text c.click_token)
    ∷ (2, integer c.ts)
    ∷ (3, of_text c.order_ref)
    ∷ (4, of_optional c.amount)
    ∷ (5, text c.status)
    ∷ (6, text c.raw)
    ∷ []

module _ {S : Type 0} (q : Sqlite S) where
  -- The loop over the batch.
  unfoldable pub write_each : ℕ → List Event → M S (Unit {0})
  write_each st [] = pure tt
  write_each st (ev ∷ evs) =
      bind_all q st (event_binds ev) >> step q st >> reset q st >> write_each st evs

  -- `insert_events`
  unfoldable pub run_insert_events : List Event → M S (Unit {0})
  run_insert_events [] = pure tt
  run_insert_events (ev ∷ evs) = exec q begin_immediate >> λ s.
      rethrow (exec q rollback)
        (with_stmt q insert_into_events (λ st. write_each st (ev ∷ evs) >> exec q commit) s)

  -- Does the first statement of `record_conversion` find the click?
  unfoldable pub run_find_click : Bytes → M S Bool
  run_find_click token =
      with_stmt q find_click (λ st. bind_all q st ((1, text token) ∷ []) >> step q st)

  unfoldable pub run_upsert : Conversion → M S Bool
  run_upsert c =
      with_stmt q upsert_conversion (λ st. bind_all q st (conversion_binds c) >> step q st)
      >> pure true

  abbrev pub record_found : Conversion → Bool → M S Bool
  record_found c false = pure false
  record_found c true = run_upsert c

  -- `record_conversion`
  unfoldable pub run_record_conversion : Conversion → M S Bool
  run_record_conversion c = run_find_click c.click_token >>= record_found c

  -- `rollup_daily`
  unfoldable pub run_rollup_daily : ℤ → ℤ → M S (Unit {0})
  run_rollup_daily day_from day_to =
      with_stmt q insert_daily λ st.
        bind_all q st ((1, integer day_from) ∷ (2, integer day_to) ∷ []) >> step q st >> pure tt

  -- `prune_events`: how many rows it has removed.
  unfoldable pub run_prune_events : TsMs → M S ℤ
  run_prune_events older_than = with_stmt q delete_events λ st.
      bind_all q st ((1, integer older_than) ∷ []) >> step q st >> λ s.
      (s, some (q.sqlite3_changes s))

  -- The partner that the columns of the current row hold.
  unfoldable pub partner_of_columns : ℕ → S → Partner
  unfolding column_int column_text
  partner_of_columns st s = record {
    id = column_int q st 0 s;
    code = column_text q st 1 s;
    title = column_text q st 2 s;
    link_template = column_text q st 3 s;
    enabled = not (column_int q st 4 s == pos 0);
  }

  -- After a step of the loop of `list_partners`: `out` holds the partners so far.
  abbrev pub fetch_next :
      (List Partner → M S (Option (List Partner)))
      → ℕ
      → List Partner
      → Bool
      → M S (Option (List Partner))
  fetch_next again st out true s = again (out ++ partner_of_columns st s ∷ []) s
  fetch_next again st out false s = (s, some (some out))

  -- The loop, with fuel for its steps; the result none is a loop that has not ended.
  unfoldable pub fetch_each : ℕ → ℕ → List Partner → M S (Option (List Partner))
  fetch_each zero st out = pure none
  fetch_each (suc fuel) st out = step q st >>= fetch_next (fetch_each fuel st) st out

  -- `list_partners`
  unfoldable pub run_list_partners : ℕ → M S (Option (List Partner))
  run_list_partners fuel = with_stmt q select_partners (λ st. fetch_each fuel st [])

  -- `find_partner_by_code`
  unfoldable pub run_find_partner : Bytes → M S (Option Partner)
  run_find_partner code = with_stmt q find_partner λ st.
      bind_all q st ((1, text code) ∷ []) >> step q st >>= λ more s.
      (s, some (if more then some (partner_of_columns st s) else none))
