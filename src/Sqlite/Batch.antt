-- ===== src/Sqlite/Batch.antt =====
-- `insert_events`, statement by statement, does what the batch does to the tables.
use s_size_store.Prelude.{
  inl, inr, ℕ, Bool, true, false, List, [], ◌∷◌, Option, none, some, ◌≡◌, refl, ◌∙◌, ap, subst,
  arith, Bool-cases,
}
use s_size_store.Models.{Event}
use s_size_store.Db.{Tables, insert_from, insert_events}
use s_size_store.Sqlite.{
  is_some, Sqlite, insert_into_events, begin_immediate, commit, rollback, M, ◌>>◌, rethrow,
  with_stmt,
}
use s_size_store.Sqlite.Connection.{exec}
use s_size_store.Sqlite.Queries.{write_each, run_insert_events}
use s_size_store.Sqlite.Laws.{IsSqlite}
use s_size_store.Sqlite.Effects.{Meaning, CommitStep, BeginStep}
use s_size_store.Sqlite.Scopes.{exec-state, after, with_stmt_after}
use s_size_store.Sqlite.Tidy.{exec-IsTidy, IsTidy, >>-IsTidy, with_stmt-IsTidy}
use s_size_store.Sqlite.Writing.{Wrote, write_each-Wrote, write_each-IsTidy}

module _ {S : Type 0} {q : Sqlite S} {m : Meaning S} (laws : IsSqlite q m) where
  -- What the whole call has done: the batch is written, or the tables are as they were.
  record AreWritten (evs : List Event) (t : Tables) (o : S × Option (Unit {0})) : Type 0 where
    pub refused : ℕ → Bool
    pub written : (m.view o.0, is_some o.1) ≡ insert_events refused evs t
    pub outside : m.in_transaction o.0 ≡ false

  -- Up to the end of the try block, from the tables before the transaction.
  record Committed (evs : List Event) (t : Tables) (o : S × Option (Unit {0})) : Type 0 where
    pub returned :
        o.1 ≡ some tt
        → (insert_from (λ n. false) 0 evs t.events ≡ some (m.view o.0).events)
          × ((m.view o.0).conversions ≡ t.conversions)
          × ((m.view o.0).daily ≡ t.daily)
          × (m.in_transaction o.0 ≡ false)
    pub threw : o.1 ≡ none → m.home o.0 ≡ t

  commit-Committed :
      (evs : List Event) (t : Tables) {s : S} (w : S)
      → m.view s ≡ t
      → m.home s ≡ t
      → Wrote laws 0 evs s (w, some tt)
      → Committed evs t (exec q commit w)
  unfolding exec
  commit-Committed evs t w view home wrote =
      let (rows, conversions, daily, kept, inside) = wrote.returned refl in
      elim (Bool-cases (q.sqlite3_exec commit w).1) [
        | inl ended ↦
            let (seen, _, outside) =
              subst (CommitStep m w (q.sqlite3_exec commit w).0) ended
                (laws.commit_step w inside) in
            rw ended (record {
              returned = λ e. (
                rw seen (
                    subst
                      (λ (v : Tables).
                        insert_from (λ n. false) 0 evs v.events ≡ some (m.view w).events)
                      view rows),
                ap (λ (v : Tables). v.conversions) seen
                    ∙ conversions
                    ∙ ap (λ (v : Tables). v.conversions) view,
                ap (λ (v : Tables). v.daily) seen ∙ daily ∙ ap (λ (v : Tables). v.daily) view,
                outside,
              );
              threw = λ e. ground arith;
            })
        | inr failed ↦ rw failed (record {
          returned = λ e. ground arith;
          threw = λ e.
              subst (CommitStep m w (q.sqlite3_exec commit w).0) failed (laws.commit_step w inside)
              ∙ kept
              ∙ home;
        })
      ]

  Committed-finalize :
      (st : ℕ) (evs : List Event) (t : Tables) (o : S × Option (Unit {0}))
      → Committed evs t o
      → Committed evs t (q.sqlite3_finalize st o.0, o.1)
  Committed-finalize st evs t o c =
      let same = laws.finalize_tables st o.0 in
      record {
        returned = λ e.
            let (rows, conversions, daily, outside) = c.returned e in
            (
              rw same.view rows,
              ap (λ (v : Tables). v.conversions) same.view ∙ conversions,
              ap (λ (v : Tables). v.daily) same.view ∙ daily,
              same.in_transaction ∙ outside,
            );
        threw = λ e. same.home ∙ c.threw e;
      }

  written-Committed :
      (evs : List Event) (t : Tables) (s : S)
      → m.view s ≡ t
      → m.home s ≡ t
      → m.in_transaction s ≡ true
      → Committed evs t
          (with_stmt q insert_into_events (λ st. write_each q st evs >> exec q commit) s)
  written-Committed evs t s view home inside =
      with_stmt_after laws (Committed evs t) insert_into_events
        (λ st. write_each q st evs >> exec q commit) s
        (λ missing. record {
          returned = λ e. ground arith;
          threw = λ e. (laws.prepare_tables insert_into_events s).home ∙ home;
        })
        (λ st prepared.
          let s' : S = (q.sqlite3_prepare_v2 insert_into_events s).0 in
          let same = laws.prepare_tables insert_into_events s in
          let wrote =
            write_each-Wrote laws st 0 evs s' (laws.prepare_holds insert_into_events s st prepared)
              (laws.prepare_fresh insert_into_events s st prepared)
              (same.in_transaction ∙ inside) in
          Committed-finalize st evs t ((write_each q st evs >> exec q commit) s') (
            after (Committed evs t) (write_each q st evs s') (λ u. exec q commit)
              (λ failed. record {
                returned = λ e. ground arith;
                threw = λ e. wrote.threw failed ∙ same.home ∙ home;
              })
              (λ u returned.
                commit-Committed evs t (write_each q st evs s').0 (same.view ∙ view)
                  (same.home ∙ home)
                  (record { returned = λ e. wrote.returned returned; threw = λ e. ground arith }))))

  caught-Committed :
      (ev : Event) (evs : List Event) (t : Tables) (o : S × Option (Unit {0}))
      → Committed (ev ∷ evs) t o
      → AreWritten (ev ∷ evs) t (rethrow (exec q rollback) o)
  unfolding insert_events insert_from
  caught-Committed ev evs t (w, some u) c =
      let (rows, conversions, daily, outside) = c.returned refl in
      record {
        refused = λ n. false;
        written =
            rw (rows, insert_events)
              (λ i. (
                record { events = (m.view w).events; conversions = conversions i; daily = daily i },
                true,
              ));
        outside = outside;
      }
  caught-Committed ev evs t (w, none) c = record {
    refused = λ n. true;
    written = rw (exec-state laws) (λ i. ((laws.rollback_view w ∙ c.threw refl) i, false));
    outside = rw (exec-state laws) (laws.rollback_ends w);
  }

  write_events-AreWritten :
      (ev : Event) (evs : List Event) (s : S)
      → m.in_transaction s ≡ false
      → AreWritten (ev ∷ evs) (m.view s) (run_insert_events q (ev ∷ evs) s)
  unfolding run_insert_events exec insert_events insert_from
  write_events-AreWritten ev evs s outside =
      elim (Bool-cases (q.sqlite3_exec begin_immediate s).1) [
        | inl begun ↦
            let (view, home, inside) =
              subst (BeginStep m s (q.sqlite3_exec begin_immediate s).0) begun (laws.begin s) in
            rw begun (
              caught-Committed ev evs (m.view s) _ (
                written-Committed (ev ∷ evs) (m.view s) _ view (home ∙ laws.settled s outside)
                  inside))
        | inr failed ↦
            let (view, home, kept) =
              subst (BeginStep m s (q.sqlite3_exec begin_immediate s).0) failed (laws.begin s) in
            rw failed (record {
              refused = λ n. true;
              written = λ i. (view i, false);
              outside = kept ∙ outside;
            })
      ]

  rethrow-live : (o : S × Option (Unit {0})) → m.live (rethrow (exec q rollback) o).0 ≡ m.live o.0
  rethrow-live (t, some u) = refl
  rethrow-live (t, none) = (exec-IsTidy laws rollback).live t

  rethrow-IsTidy :
      {f : M S (Unit {0})} → IsTidy laws f → IsTidy laws (λ s. rethrow (exec q rollback) (f s))
  rethrow-IsTidy {f} tidy = record { live = λ s. rethrow-live (f s) ∙ tidy.live s }

  run_insert_events-IsTidy : (evs : List Event) → IsTidy laws (run_insert_events q evs)
  unfolding run_insert_events
  run_insert_events-IsTidy [] = record { live = λ s. refl }
  run_insert_events-IsTidy (ev ∷ evs) = >>-IsTidy laws (exec-IsTidy laws begin_immediate) (
      rethrow-IsTidy (
        with_stmt-IsTidy laws insert_into_events (λ st. write_each q st (ev ∷ evs) >> exec q commit)
          (λ st. >>-IsTidy laws (write_each-IsTidy laws st (ev ∷ evs)) (exec-IsTidy laws commit))))

  -- If sqlite keeps the laws and no transaction is open, `insert_events` does to the tables what
  -- the batch does under some choice of refused statements, and it returns exactly when the batch
  -- is written; no transaction is left open, and no statement is left behind.
  pub run_insert_events-AreWritten :
      (batch : List Event) (s : S)
      → m.in_transaction s ≡ false
      → (refused : ℕ → Bool) × ((
        m.view (run_insert_events q batch s).0,
        is_some (run_insert_events q batch s).1,
      )
          ≡ insert_events refused batch (m.view s))
        × (m.in_transaction (run_insert_events q batch s).0 ≡ false)
        × (m.live (run_insert_events q batch s).0 ≡ m.live s)
  unfolding run_insert_events insert_events
  run_insert_events-AreWritten [] s outside = ((λ n. false), refl, outside, refl)
  run_insert_events-AreWritten (ev ∷ evs) s outside =
      let w = write_events-AreWritten ev evs s outside in
      (w.refused, w.written, w.outside, (run_insert_events-IsTidy (ev ∷ evs)).live s)
