-- ===== src/Sqlite/Writing.antt =====
-- The loop of `insert_events`, inside its transaction.
use s_size_store.Prelude.{
  ℕ, suc, true, false, List, [], ◌∷◌, Option, none, some, ◌≡◌, refl, ◌∙◌, ap, subst, arith,
}
use s_size_store.Models.{Event}
use s_size_store.Db.{Tables, insert_event, insert_from}
use s_size_store.Sqlite.{Sqlite, insert_into_events, ◌>>◌, bind_all, step, reset}
use s_size_store.Sqlite.Queries.{event_binds, write_each}
use s_size_store.Sqlite.Laws.{IsSqlite}
use s_size_store.Sqlite.Effects.{Meaning, IsEventRow, EventStep}
use s_size_store.Sqlite.Scopes.{
  after, step_after, bind_all-fresh, reset-fresh, update_all, bind_all-AreBound, reset-SameTables,
  reset-SameStatements,
}
use s_size_store.Sqlite.Tidy.{IsTidy, bind_all-IsTidy, step-IsTidy, >>-IsTidy, reset-IsTidy}

event_binds-IsEventRow : (p : ℕ → _) (ev : Event) → IsEventRow (update_all p (event_binds ev)) ev
event_binds-IsEventRow p ev = record {
  ts = refl;
  anon_id = refl;
  session_id = refl;
  type = refl;
  item_id = refl;
  position = refl;
  surface = refl;
  click_token = refl;
  source = refl;
  ua_class = refl;
  ip_hash = refl;
  payload = refl;
}

module _ {S : Type 0} {q : Sqlite S} {m : Meaning S} (laws : IsSqlite q m) where
  -- The loop over the batch, from inside a transaction.
  pub record Wrote (i : ℕ) (evs : List Event) (s : S) (o : S × Option (Unit {0})) : Type 0 where
    pub returned :
        o.1 ≡ some tt
        → (insert_from (λ n. false) i evs (m.view s).events ≡ some (m.view o.0).events)
          × ((m.view o.0).conversions ≡ (m.view s).conversions)
          × ((m.view o.0).daily ≡ (m.view s).daily)
          × (m.home o.0 ≡ m.home s)
          × (m.in_transaction o.0 ≡ true)
    pub threw : o.1 ≡ none → m.home o.0 ≡ m.home s

  -- One event has been inserted, and the rest of the batch is written behind it.
  Wrote-later :
      (i : ℕ) (ev : Event) (evs : List Event) {s t : S} {o : S × Option (Unit {0})}
      → insert_event ev (m.view s).events ≡ some (m.view t).events
      → (m.view t).conversions ≡ (m.view s).conversions
      → (m.view t).daily ≡ (m.view s).daily
      → m.home t ≡ m.home s
      → Wrote (suc i) evs t o
      → Wrote i (ev ∷ evs) s o
  unfolding insert_from
  Wrote-later i ev evs inserted conversions daily home w = record {
    returned = λ e.
        let (rows, c, d, h, inside) = w.returned e in
        (rw (inserted, insert_from) rows, c ∙ conversions, d ∙ daily, h ∙ home, inside);
    threw = λ e. w.threw e ∙ home;
  }

  pub write_each-Wrote :
      (st i : ℕ) (evs : List Event) (s : S)
      → m.holds st s ≡ some insert_into_events
      → m.fresh st s ≡ true
      → m.in_transaction s ≡ true
      → Wrote i evs s (write_each q st evs s)
  unfolding write_each insert_from reset
  write_each-Wrote st i [] s held fresh inside = record {
    returned = λ e. (refl, refl, refl, refl, inside);
    threw = λ e. refl;
  }
  write_each-Wrote st i (ev ∷ evs) s held fresh inside =
      let (tables, statements, params) = bind_all-AreBound laws st (event_binds ev) s in
      after (Wrote i (ev ∷ evs) s) (bind_all q st (event_binds ev) s)
        (λ u. step q st >> reset q st >> write_each q st evs)
        (λ failed. record { returned = λ e. ground arith; threw = λ e. tables.home })
        (λ u bound.
          let t : S = (bind_all q st (event_binds ev) s).0 in
          let t' : S = (q.sqlite3_step st t).0 in
          let bound_row : IsEventRow (m.param st t) ev =
            rw (params bound) (event_binds-IsEventRow (m.param st s) ev) in
          let law : EventStep m ev t t' (q.sqlite3_step st t).1 =
            laws.step_event st ev t (statements.holds ∙ held)
              (bind_all-fresh laws st (event_binds ev) s ∙ fresh) bound_row
              (tables.in_transaction ∙ inside) in
          step_after laws (Wrote i (ev ∷ evs) s) st t (λ more. reset q st >> write_each q st evs)
            (λ code. absurd (subst (EventStep m ev t t') code law))
            (λ code.
              let (inserted, conversions, daily, home, kept) =
                subst (EventStep m ev t t') code law in
              let again = reset-SameTables laws st t' in
              let stays = reset-SameStatements laws st t' in
              Wrote-later i ev evs
                (rw again.view (
                  subst (λ (v : Tables). insert_event ev v.events ≡ some (m.view t').events)
                    tables.view inserted))
                (ap (λ (v : Tables). v.conversions) again.view
                  ∙ conversions
                  ∙ ap (λ (v : Tables). v.conversions) tables.view)
                (ap (λ (v : Tables). v.daily) again.view
                  ∙ daily
                  ∙ ap (λ (v : Tables). v.daily) tables.view)
                (again.home ∙ home ∙ tables.home)
                (write_each-Wrote st (suc i) evs (reset q st t').0
                  (stays.holds ∙ (laws.step_statements st t).holds ∙ statements.holds ∙ held)
                  (reset-fresh laws st t')
                  (again.in_transaction ∙ kept ∙ tables.in_transaction ∙ inside)))
            (λ code. record {
              returned = λ e. ground arith;
              threw = λ e. subst (EventStep m ev t t') code law ∙ tables.home;
            }))

  pub write_each-IsTidy : (st : ℕ) (evs : List Event) → IsTidy laws (write_each q st evs)
  unfolding write_each
  write_each-IsTidy st [] = record { live = λ s. refl }
  write_each-IsTidy st (ev ∷ evs) = >>-IsTidy laws (bind_all-IsTidy laws st (event_binds ev)) (
      >>-IsTidy laws (step-IsTidy laws st)
        (>>-IsTidy laws (reset-IsTidy laws st) (write_each-IsTidy st evs)))
