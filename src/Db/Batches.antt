-- ===== src/Db/Batches.antt =====
-- The transaction that writes a batch of events.
use s_size_store.Prelude.{
  ℕ, suc, ◌≡◌, ◌≢◌, ◌∙◌, ◌↔◌, ◌⊎◌, inl, inr, refl, sym, ap, true, false, Bool, not, ◌&&◌, List, [],
  ◌∷◌, ◌++◌, Option, none, some, arith, any, append_assoc, append-nil, Option-cases, list_eq,
  nat_eq,
}
use s_size_store.Bytes.{is_empty}
use s_size_store.Models.{Event}
use s_size_store.Db.{Tables, has_token, insert_event, insert_from, insert_events}

insert_from_appends :
    (refused : ℕ → Bool) (i : ℕ) (evs rows rows' : List Event)
    → insert_from refused i evs rows ≡ some rows'
    → rows' ≡ rows ++ evs
unfolding insert_from insert_event
insert_from_appends refused i [] rows rows' e = ground (arith, append-nil rows)
insert_from_appends refused i (ev ∷ evs) rows rows' e = ground (
  arith,
  insert_from_appends refused (suc i) evs (rows ++ ev ∷ []) rows',
  append_assoc rows (ev ∷ []) evs,
)

-- A batch is written as a whole, in its order and behind the rows that are there, or not at all:
-- then `insert_events` has thrown, and the tables are as they were.
pub insert_events_cases :
    (refused : ℕ → Bool) (batch : List Event) (t : Tables)
    → (insert_events refused batch t ≡ (record t { events = t.events ++ batch }, true))
      ⊎ (insert_events refused batch t ≡ (t, false))
unfolding insert_events
insert_events_cases refused [] t = inl (rw (append-nil t.events) refl)
insert_events_cases refused (ev ∷ evs) t =
    elim (Option-cases (insert_from refused 0 (ev ∷ evs) t.events)) [
      | inl failed ↦ inr (rw (failed, insert_events) refl)
      | inr (rows, written) ↦ inl (
          rw (written, insert_events)
            (rw (insert_from_appends refused 0 (ev ∷ evs) t.events rows written) refl))
    ]

-- The unique index: a token stands in one row at most.
abbrev pub IsTokenSet : List Event → List Event → Type 0
IsTokenSet seen [] = Unit
IsTokenSet seen (ev ∷ evs) =
    ((not (is_empty ev.click_token) && any (has_token ev.click_token) seen) ≡ false)
    × IsTokenSet (seen ++ ev ∷ []) evs

insert_from_iff :
    (i : ℕ) (evs rows : List Event)
    → (insert_from (λ n. false) i evs rows ≡ some (rows ++ evs)) ↔ IsTokenSet rows evs
unfolding insert_from insert_event
insert_from_iff i [] rows = (λ e. tt, λ h. rw (append-nil rows) refl)
insert_from_iff i (ev ∷ evs) rows =
    ground (arith, insert_from_iff (suc i) evs (rows ++ ev ∷ []), append_assoc rows (ev ∷ []) evs)

false-ne-true : false ≢ true
false-ne-true e = cc

none-ne-some : (rows : List Event) → ◌≢◌ {A = Option (List Event)} none (some rows)
none-ne-some rows e = ground arith

insert_events_returned :
    (batch : List Event) (t : Tables)
    → ((insert_events (λ n. false) batch t).1 ≡ true) ↔ IsTokenSet t.events batch
unfolding insert_events
insert_events_returned [] t = (λ e. tt, λ h. refl)
insert_events_returned (ev ∷ evs) t =
    elim (Option-cases (insert_from (λ n. false) 0 (ev ∷ evs) t.events)) [
      | inl failed ↦ (
        λ e. absurd (false-ne-true (rw (failed, insert_events) at e)),
        λ h. absurd (none-ne-some _ (sym failed ∙ (insert_from_iff 0 (ev ∷ evs) t.events).1 h)),
      )
      | inr (rows, written) ↦ (
        λ e. (insert_from_iff 0 (ev ∷ evs) t.events).0 (
            written
            ∙ ap some (insert_from_appends (λ n. false) 0 (ev ∷ evs) t.events rows written)),
        λ h. rw (written, insert_events) refl,
      )
    ]

-- With no statement refused for reasons of its own, `insert_events` returns with the batch behind the
-- rows that were there exactly if none of its tokens stands in one of them or in an earlier event of
-- the batch; otherwise, and only then, it throws and the tables are as they were.
pub insert_events_iff :
    (batch : List Event) (t : Tables)
    → ((insert_events (λ n. false) batch t ≡ (record t { events = t.events ++ batch }, true))
        ↔ IsTokenSet t.events batch)
      × ((insert_events (λ n. false) batch t ≡ (t, false)) ↔ (¬ IsTokenSet t.events batch))
insert_events_iff batch t =
    let (unique, returned) = insert_events_returned batch t in
    let answer : Tables × Bool → Bool = λ o. o.1 in
    let threw : (insert_events (λ n. false) batch t ≡ (t, false)) → ¬ IsTokenSet t.events batch =
      λ e h. false-ne-true (sym (ap answer e) ∙ returned h) in
    elim (insert_events_cases (λ n. false) batch t) [
      | inl written ↦ (
        (λ e. unique (ap answer e), λ h. written),
        (threw, λ h. absurd (h (unique (ap answer written)))),
      )
      | inr refused ↦
          ((λ e. unique (ap answer e), λ h. absurd (threw refused h)), (threw, λ h. refused))
    ]

-- A batch of new tokens is written if nothing else refuses it.
pub insert_events_written :
    (batch : List Event) (t : Tables)
    → IsTokenSet t.events batch
    → (insert_events (λ n. false) batch t).1 ≡ true
insert_events_written batch t = (insert_events_returned batch t).1

IsTokenSet-append :
    (seen xs ys : List Event)
    → IsTokenSet seen xs
    → IsTokenSet (seen ++ xs) ys
    → IsTokenSet seen (xs ++ ys)
IsTokenSet-append seen [] ys hx hy = rw (← append-nil seen) hy
IsTokenSet-append seen (x ∷ xs) ys (hx, hxs) hy =
    (hx, IsTokenSet-append (seen ++ x ∷ []) xs ys hxs (rw (append_assoc seen (x ∷ []) xs) hy))

append-IsTokenSet :
    (refused : ℕ → Bool) (i : ℕ) (evs rows rows' : List Event)
    → insert_from refused i evs rows ≡ some rows'
    → IsTokenSet rows evs
unfolding insert_from insert_event
append-IsTokenSet refused i [] rows rows' e = tt
append-IsTokenSet refused i (ev ∷ evs) rows rows' e =
    ground (arith, append-IsTokenSet refused (suc i) evs (rows ++ ev ∷ []) rows')

-- Whatever is refused, the unique index holds in the tables that a batch leaves.
pub insert_events-IsTokenSet :
    (refused : ℕ → Bool) (batch : List Event) (t : Tables)
    → IsTokenSet [] t.events
    → IsTokenSet [] (insert_events refused batch t).0.events
unfolding insert_events
insert_events-IsTokenSet refused [] t h = h
insert_events-IsTokenSet refused (ev ∷ evs) t h =
    elim (Option-cases (insert_from refused 0 (ev ∷ evs) t.events)) [
      | inl failed ↦ rw (failed, insert_events) h
      | inr (rows, written) ↦
          rw (written, insert_events)
            (rw (insert_from_appends refused 0 (ev ∷ evs) t.events rows written) (
              IsTokenSet-append [] t.events (ev ∷ evs) h
                (append-IsTokenSet refused 0 (ev ∷ evs) t.events rows written)))
    ]
