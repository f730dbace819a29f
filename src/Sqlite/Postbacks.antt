-- ===== src/Sqlite/Postbacks.antt =====
-- `record_conversion`, statement by statement, does what the postback does to the tables.
use s_size_store.Prelude.{
  ℕ, Bool, true, false, [], ◌∷◌, Option, none, some, ◌≡◌, refl, ◌∙◌, ap, subst, arith, any,
  Option-cases, inl, inr,
}
use s_size_store.Bytes.{Bytes}
use s_size_store.Events.{Conversion}
use s_size_store.Db.{Tables, has_token, record_conversion}
use s_size_store.Sqlite.{
  Sqlite, Value, text, find_click, upsert_conversion, Code, row, done, refused, pure, continue,
  ◌>>◌, with_stmt, bind_all, step,
}
use s_size_store.Sqlite.Queries.{
  conversion_binds, run_find_click, run_upsert, record_found, run_record_conversion,
}
use s_size_store.Sqlite.Laws.{IsSqlite}
use s_size_store.Sqlite.Effects.{
  Meaning, SameTables, IsConversionRow, FindStep, WriteStep, upsert_effect,
}
use s_size_store.Sqlite.Scopes.{after, Code-cases, update_all, stepped_once, SameTables-trans}
use s_size_store.Sqlite.Tidy.{IsTidy, pure-IsTidy, stepped_once-IsTidy, >>=-IsTidy, >>-IsTidy}

conversion_binds-IsConversionRow :
    (p : ℕ → Value) (c : Conversion) → IsConversionRow (update_all p (conversion_binds c)) c
conversion_binds-IsConversionRow p c = record {
  click_token = refl;
  ts = refl;
  order_ref = refl;
  amount = refl;
  status = refl;
  raw = refl;
}

module _ {S : Type 0} {q : Sqlite S} {m : Meaning S} (laws : IsSqlite q m) where
  -- The first statement: whether the click is in the table.
  record IsFound (token : Bytes) (s : S) (o : S × Option Bool) : Type 0 where
    pub same : SameTables m s o.0
    pub tells : (found : Bool) → o.1 ≡ some found → any (has_token token) (m.view s).events ≡ found

  run_find_click-IsFound : (token : Bytes) (s : S) → IsFound token s (run_find_click q token s)
  unfolding run_find_click
  run_find_click-IsFound token s =
      stepped_once laws (IsFound token s) find_click ((1, text token) ∷ []) s
        (λ u same. record { same = same; tells = λ found e. ground arith })
        (λ st p t same held fresh params u later.
          let (law, kept) =
            laws.step_find st token t held fresh (ap (λ (f : ℕ → Value). f 1) params) in
          let whole = SameTables-trans m (SameTables-trans m same kept) later in
          let seen : (code : _) → (q.sqlite3_step st t).1 ≡ code → FindStep m token t code =
            λ code e. subst (FindStep m token t) e law in
          elim (Code-cases (q.sqlite3_step st t).1) [
            | inl e ↦ rw e (record {
              same = whole;
              tells = λ found h. rw (← same.view) (seen row e ∙ ground arith);
            })
            | inr (inl e) ↦ rw e (record {
              same = whole;
              tells = λ found h. rw (← same.view) (seen done e ∙ ground arith);
            })
            | inr (inr e) ↦ rw e (record { same = whole; tells = λ found h. ground arith })
          ])

  -- The second statement, after whose end `record_conversion` returns true.
  record IsUpserted (c : Conversion) (s : S) {A : Type 0} (o : S × Option A) : Type 0 where
    pub outside : m.in_transaction o.0 ≡ false
    pub returned : (a : A) → o.1 ≡ some a → upsert_effect c (m.view s) ≡ some (m.view o.0)
    pub threw : o.1 ≡ none → m.view o.0 ≡ m.view s

  step-IsUpserted :
      (c : Conversion) (s : S)
      → m.in_transaction s ≡ false
      → IsUpserted c s
          (with_stmt q upsert_conversion (λ st. bind_all q st (conversion_binds c) >> step q st) s)
  step-IsUpserted c s outside =
      stepped_once laws (IsUpserted c s) upsert_conversion (conversion_binds c) s
        (λ u same. record {
          outside = same.in_transaction ∙ outside;
          returned = λ a e. ground arith;
          threw = λ e. same.view;
        })
        (λ st p t same held fresh params u later.
          let law =
            laws.step_upsert st c t held fresh (rw params (conversion_binds-IsConversionRow p c))
              (same.in_transaction ∙ outside) in
          let seen : (code : Code)
              → (q.sqlite3_step st t).1 ≡ code
              → WriteStep m (upsert_effect c) t (q.sqlite3_step st t).0 code =
            λ code e. subst (WriteStep m (upsert_effect c) t (q.sqlite3_step st t).0) e law in
          elim (Code-cases (q.sqlite3_step st t).1) [
            | inl e ↦ absurd (seen row e)
            | inr (inl e) ↦ rw e (record {
              outside = later.in_transaction ∙ (seen done e).1;
              returned = λ a h. rw (← same.view) (rw later.view (seen done e).0);
              threw = λ h. ground arith;
            })
            | inr (inr e) ↦ rw e (record {
              outside = later.in_transaction ∙ (seen refused e).1;
              returned = λ a h. ground arith;
              threw = λ h. later.view ∙ (seen refused e).0 ∙ same.view;
            })
          ])

  run_upsert-IsUpserted :
      (c : Conversion) (s : S)
      → m.in_transaction s ≡ false
      → IsUpserted c s (run_upsert q c s) × ((b : Bool) → (run_upsert q c s).1 ≡ some b → b ≡ true)
  unfolding run_upsert
  run_upsert-IsUpserted c s outside =
      let stepped = step-IsUpserted c s outside in
      after (λ (o : S × Option Bool). IsUpserted c s o × ((b : Bool) → o.1 ≡ some b → b ≡ true))
        (with_stmt q upsert_conversion (λ st. bind_all q st (conversion_binds c) >> step q st) s)
        (λ more. pure true)
        (λ failed. (
          record {
            outside = stepped.outside;
            returned = λ a e. ground arith;
            threw = λ e. stepped.threw failed;
          },
          λ b e. ground arith,
        ))
        (λ more done. (
          record {
            outside = stepped.outside;
            returned = λ a e. stepped.returned more done;
            threw = λ e. ground arith;
          },
          λ b e. ground arith,
        ))

  upserted :
      (c : Conversion) (t t' : Tables)
      → any (has_token c.click_token) t.events ≡ true
      → upsert_effect c t ≡ some t'
      → (t', some true) ≡ record_conversion false c t
  unfolding record_conversion
  upserted c t t' served e = ground arith

  -- What the whole call has done.
  record IsRecorded (c : Conversion) (t : Tables) (o : S × Option Bool) : Type 0 where
    pub refused : Bool
    pub recorded : (m.view o.0, o.1) ≡ record_conversion refused c t
    pub outside : m.in_transaction o.0 ≡ false

  found-IsRecorded :
      (c : Conversion) (s : S) (o : S × Option Bool)
      → m.in_transaction s ≡ false
      → IsFound c.click_token s o
      → IsRecorded c (m.view s) (continue (record_found q c) o)
  unfolding record_conversion
  found-IsRecorded c s (w, none) outside f = record {
    refused = true;
    recorded = λ i. (f.same.view i, none);
    outside = f.same.in_transaction ∙ outside;
  }
  found-IsRecorded c s (w, some false) outside f = record {
    refused = false;
    recorded = rw (f.tells false refl) (λ i. (f.same.view i, some false));
    outside = f.same.in_transaction ∙ outside;
  }
  found-IsRecorded c s (w, some true) outside f =
      let (u, tells) = run_upsert-IsUpserted c w (f.same.in_transaction ∙ outside) in
      elim (Option-cases (run_upsert q c w).1) [
        | inl threw ↦ record {
          refused = true;
          recorded = rw threw (λ i. ((u.threw threw ∙ f.same.view) i, none));
          outside = u.outside;
        }
        | inr (b, returned) ↦ record {
          refused = false;
          recorded = rw returned (
              rw (tells b returned) (
                upserted c (m.view s) _ (f.tells true refl)
                  (rw (← f.same.view) (u.returned b returned))));
          outside = u.outside;
        }
      ]

  record_found-IsTidy : (c : Conversion) (found : Bool) → IsTidy laws (record_found q c found)
  unfolding run_upsert
  record_found-IsTidy c false = pure-IsTidy laws false
  record_found-IsTidy c true =
      >>-IsTidy laws (stepped_once-IsTidy laws upsert_conversion (conversion_binds c))
        (pure-IsTidy laws true)

  run_record_conversion-IsTidy : (c : Conversion) → IsTidy laws (run_record_conversion q c)
  unfolding run_record_conversion run_find_click
  run_record_conversion-IsTidy c =
      >>=-IsTidy laws (stepped_once-IsTidy laws find_click ((1, text c.click_token) ∷ []))
        (record_found-IsTidy c)

  -- If sqlite keeps the laws and no transaction is open, `record_conversion` does to the tables
  -- what the postback does, and answers or throws as that does, whether or not one of its
  -- statements is refused; no transaction is left open, and no statement is left behind.
  pub run_record_conversion-IsRecorded :
      (c : Conversion) (s : S)
      → m.in_transaction s ≡ false
      → (refused : Bool) × ((
        m.view (run_record_conversion q c s).0,
        (run_record_conversion q c s).1,
      )
          ≡ record_conversion refused c (m.view s))
        × (m.in_transaction (run_record_conversion q c s).0 ≡ false)
        × (m.live (run_record_conversion q c s).0 ≡ m.live s)
  unfolding run_record_conversion
  run_record_conversion-IsRecorded c s outside =
      let r =
        found-IsRecorded c s (run_find_click q c.click_token s) outside
          (run_find_click-IsFound c.click_token s) in
      (r.refused, r.recorded, r.outside, (run_record_conversion-IsTidy c).live s)
