-- ===== src/Sqlite/Reading.antt =====
-- The loop of `list_partners` ends with the partners of the table.
use s_size_store.Prelude.{
  ℕ, zero, suc, ◌<◌, pos, Bool, true, false, not, List, [], ◌∷◌, ◌++◌, Option, none, some, ◌≡◌, ◌≢◌,
  ◌⊎◌, inl, inr, refl, ◌∙◌, ap, subst, arith, length, append_assoc, append-nil, ◌==◌, int_eq,
}
use s_size_store.Models.{Partner}
use s_size_store.Db.Items.{PartnerRow, partner_of_row, list_partners}
use s_size_store.Sqlite.{Sqlite, select_partners, M, column_int, column_text, or_blank}
use s_size_store.Sqlite.Queries.{partner_of_columns, fetch_next, fetch_each, run_list_partners}
use s_size_store.Sqlite.Laws.{IsSqlite, LetsRead}
use s_size_store.Sqlite.Effects.{Meaning, SameTables, IsPartnerRow, PartnerStep}
use s_size_store.Sqlite.Scopes.{step_after, SameTables-trans, with_stmt_after}
use s_size_store.Sqlite.Tidy.{IsTidy, pure-IsTidy, step-IsTidy, >>=-IsTidy, with_stmt-IsTidy}

module _ {S : Type 0} {q : Sqlite S} {m : Meaning S} (laws : IsSqlite q m) where
  partner_of_columns-row :
      (st : ℕ) (s : S) (r : PartnerRow)
      → IsPartnerRow q m st s r
      → partner_of_columns q st s ≡ partner_of_row r
  unfolding partner_of_columns partner_of_row column_int column_text
  partner_of_columns-row st s r h = λ i. record {
    id = h.id i;
    code = or_blank (h.code i);
    title = or_blank (h.title i);
    link_template = or_blank (h.link_template i);
    enabled = not (h.enabled i == pos 0);
  }

  -- The loop has thrown, or returned the partners so far and those of the rows that were left.
  record AreFetched (ps : List Partner) (s : S) (o : S × Option (Option (List Partner)))
      : Type 0 where
    pub same : SameTables m s o.0
    pub result : (o.1 ≡ none) ⊎ (o.1 ≡ some (some ps))

  fetch_each-AreFetched :
      (fuel st : ℕ) (out : List Partner) (s : S)
      → m.holds st s ≡ some select_partners
      → length (m.left st s) < fuel
      → AreFetched (out ++ list_partners (m.left st s)) s (fetch_each q fuel st out s)
  unfolding fetch_each list_partners
  fetch_each-AreFetched zero st out s held enough = absurd (omega arith)
  fetch_each-AreFetched (suc fuel) st out s held enough =
      let s' : S = (q.sqlite3_step st s).0 in
      let (law, kept) = laws.step_partners st s held in
      let ps : List Partner = out ++ list_partners (m.left st s) in
      step_after laws (AreFetched ps s) st s (fetch_next q (fetch_each q fuel st) st out)
        (λ code.
          let (r, left, columns) = subst (PartnerStep q m st s s') code law in
          let rest =
            fetch_each-AreFetched fuel st (out ++ partner_of_columns q st s' ∷ []) s'
              ((laws.step_statements st s).holds ∙ held)
              (omega (arith, ap (λ (rows : List PartnerRow). length rows) left)) in
          let all : out ++ partner_of_columns q st s' ∷ [] ++ list_partners (m.left st s') ≡ ps =
            rw (left, partner_of_columns-row st s' r columns)
              (append_assoc out (partner_of_row r ∷ []) (list_partners (m.left st s'))) in
          let whole : AreFetched ps s'
              (fetch_each q fuel st (out ++ partner_of_columns q st s' ∷ []) s') =
            subst
              (λ (xs : List Partner).
                AreFetched xs s' (fetch_each q fuel st (out ++ partner_of_columns q st s' ∷ []) s'))
              all rest in
          record { same = SameTables-trans m kept whole.same; result = whole.result })
        (λ code. record {
          same = kept;
          result = inr (rw (subst (PartnerStep q m st s s') code law) (rw append-nil refl));
        })
        (λ code. record { same = kept; result = inl refl })

  fetch_next-IsTidy :
      (again : List Partner → M S (Option (List Partner))) (st : ℕ) (out : List Partner)
      → ((ps : List Partner) → IsTidy laws (again ps))
      → (more : Bool) → IsTidy laws (fetch_next q again st out more)
  fetch_next-IsTidy again st out tidy true = record { live = λ s. (tidy _).live s }
  fetch_next-IsTidy again st out tidy false = record { live = λ s. refl }

  fetch_each-IsTidy : (fuel st : ℕ) (out : List Partner) → IsTidy laws (fetch_each q fuel st out)
  unfolding fetch_each
  fetch_each-IsTidy zero st out = pure-IsTidy laws none
  fetch_each-IsTidy (suc fuel) st out =
      >>=-IsTidy laws (step-IsTidy laws st)
        (fetch_next-IsTidy (fetch_each q fuel st) st out (fetch_each-IsTidy fuel st))

  run_list_partners-ends :
      (fuel : ℕ) (s : S)
      → length (m.partners s) < fuel
      → (((run_list_partners q fuel s).1 ≡ none)
          ⊎ ((run_list_partners q fuel s).1 ≡ some (some (list_partners (m.partners s)))))
        × (m.view (run_list_partners q fuel s).0 ≡ m.view s)
        × (m.live (run_list_partners q fuel s).0 ≡ m.live s)
  unfolding run_list_partners
  run_list_partners-ends fuel s enough =
      let read : AreFetched (list_partners (m.partners s)) s (run_list_partners q fuel s) =
        with_stmt_after laws (AreFetched (list_partners (m.partners s)) s) select_partners
          (λ st. fetch_each q fuel st []) s
          (λ missing. record { same = laws.prepare_tables select_partners s; result = inl refl })
          (λ st prepared.
            let left = laws.prepare_left s st prepared in
            let fetched =
              fetch_each-AreFetched fuel st [] (q.sqlite3_prepare_v2 select_partners s).0
                (laws.prepare_holds select_partners s st prepared) (rw left enough) in
            let rows =
              subst
                (λ (rows : List PartnerRow).
                  AreFetched (list_partners rows) (q.sqlite3_prepare_v2 select_partners s).0
                    (fetch_each q fuel st [] (q.sqlite3_prepare_v2 select_partners s).0))
                left fetched in
            record {
              same =
                  SameTables-trans m (laws.prepare_tables select_partners s)
                    (SameTables-trans m rows.same (laws.finalize_tables st _));
              result = rows.result;
            }) in
      let tidy =
        with_stmt-IsTidy laws select_partners (λ st. fetch_each q fuel st [])
          (λ st. fetch_each-IsTidy fuel st []) in
      (read.result, read.same.view, tidy.live s)

  fetch_each-returns :
      (fuel st : ℕ) (out : List Partner) (s : S)
      → LetsRead q m
      → m.holds st s ≡ some select_partners
      → (fetch_each q fuel st out s).1 ≢ none
  unfolding fetch_each
  fetch_each-returns zero st out s lets held = λ e. ground arith
  fetch_each-returns (suc fuel) st out s lets held =
      step_after laws (λ o. o.1 ≢ none) st s (fetch_next q (fetch_each q fuel st) st out)
        (λ code. fetch_each-returns fuel st _ _ lets ((laws.step_statements st s).holds ∙ held))
        (λ code e. ground arith) (λ code. absurd (lets.steps st s held code))

  -- If sqlite keeps the laws and refuses neither the SELECT of the partners nor one of its steps,
  -- `list_partners` ends with more fuel than there are partners, and returns the partners of the
  -- table in their order; the tables are as they were, and no statement is left behind.
  pub run_list_partners-returns :
      (fuel : ℕ) (s : S)
      → LetsRead q m
      → length (m.partners s) < fuel
      → ((run_list_partners q fuel s).1 ≡ some (some (list_partners (m.partners s))))
        × (m.view (run_list_partners q fuel s).0 ≡ m.view s)
        × (m.live (run_list_partners q fuel s).0 ≡ m.live s)
  unfolding run_list_partners
  run_list_partners-returns fuel s lets enough =
      let (st, prepared) = lets.prepares s in
      let returned : (run_list_partners q fuel s).1 ≢ none =
        with_stmt_after laws (λ o. o.1 ≢ none) select_partners (λ st. fetch_each q fuel st []) s
          (λ missing e. ground arith)
          (λ st prepared.
            fetch_each-returns fuel st [] _ lets
              (laws.prepare_holds select_partners s st prepared)) in
      elim (run_list_partners-ends fuel s enough).0 [
        | inl threw ↦ absurd (returned threw)
        | inr all ↦
            let (ends, view, live) = run_list_partners-ends fuel s enough in (all, view, live)
      ]
