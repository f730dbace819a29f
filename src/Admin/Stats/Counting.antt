-- ===== src/Admin/Stats/Counting.antt =====
-- The counts of the report.
use s_size_store.Prelude.{
  ℕ, suc, ◌+◌, ◌≤◌, ◌≡◌, ◌∙◌, refl, subst, ◌≢◌, ◌||◌, sym, true, false, not, ◌&&◌, ltb_ℤ, div_trunc,
  List, [], ◌∷◌, map, any, filter, length, All, arith, Bool-cases, inl, inr, ◌==◌, ==_iff, ==_refl,
  list_eq, nat_eq, if◌then◌else◌,
}
use s_size_store.Bytes.{Bytes, codes}
use s_size_store.Models.{Event, TsMs, event_type_to_string}
use s_size_store.Db.{ConversionRow}
use s_size_store.Admin.Stats.{
  group_keys, group_rows, ev_word, FunnelRow, OrdersRow, count_users, funnel, orders, sum_amounts,
}

true-ne-false : true ≢ false
true-ne-false e = cc

-- The sum of the sizes of some groups.
module _ {A : Type 0} (key : A → Bytes) where
  abbrev pub sum_sizes : List Bytes → List A → ℕ
  sum_sizes [] rows = 0
  sum_sizes (k ∷ keys) rows = length (group_rows key k rows) + sum_sizes keys rows

  sum_sizes-nil : (keys : List Bytes) → sum_sizes keys [] ≡ 0
  sum_sizes-nil [] = refl
  sum_sizes-nil (k ∷ keys) = omega (arith, sum_sizes-nil keys)

  -- How often a key stands in a list.
  abbrev occurrences : Bytes → List Bytes → ℕ
  occurrences j [] = 0
  occurrences j (k ∷ keys) = (if j == k then 1 else 0) + occurrences j keys

  sum_sizes-cons :
      (keys : List Bytes) (a : A) (rows : List A)
      → sum_sizes keys (a ∷ rows) ≡ occurrences (key a) keys + sum_sizes keys rows
  sum_sizes-cons [] a rows = refl
  sum_sizes-cons (k ∷ keys) a rows = ground (arith, sum_sizes-cons keys a rows)

  occurrences_none :
      (j : Bytes) (keys : List Bytes) → any (λ k. k == j) keys ≡ false → occurrences j keys ≡ 0
  occurrences_none j [] h = refl
  occurrences_none j (k ∷ keys) h =
      ground (arith, occurrences_none j keys, ==_iff j k, ==_iff k j, ==_refl j)

  -- Each key stands in the list of the groups once at most.
  once :
      (j : Bytes) (rows : List A)
      → occurrences j (group_keys key rows)
        ≡ (if any (λ k. k == j) (group_keys key rows) then 1 else 0)
  unfolding group_keys
  once j [] = refl
  once j (a ∷ rows) = elim (Bool-cases (any (λ k. k == key a) (group_keys key rows))) [
    | inl there ↦ rw (there, group_keys) (once j rows)
    | inr new ↦ elim (Bool-cases (key a == j)) [
      | inl same ↦
          let e : key a ≡ j = (==_iff (key a) j).0 same in
          let new' : any (λ k. k == j) (group_keys key rows) ≡ false =
            subst (λ x. any (λ k. k == x) (group_keys key rows) ≡ false) e new in
          rw (new, group_keys)
            (ground (arith, occurrences_none j (group_keys key rows) new', ==_iff j (key a)))
      | inr other ↦
          rw (new, group_keys) (ground (arith, once j rows, ==_iff j (key a), ==_iff (key a) j))
    ]
  ]

  absent :
      (j : Bytes) (rows : List A)
      → any (λ k. k == j) (group_keys key rows) ≡ false
      → length (group_rows key j rows) ≡ 0
  unfolding group_keys
  absent j [] h = refl
  absent j (a ∷ rows) h = elim (Bool-cases (any (λ k. k == key a) (group_keys key rows))) [
    | inl there ↦
        let h' : any (λ k. k == j) (group_keys key rows) ≡ false = rw (there, group_keys) at h in
        elim (Bool-cases (key a == j)) [
          | inl same ↦
              let e : key a ≡ j = (==_iff (key a) j).0 same in
              let there' : any (λ k. k == j) (group_keys key rows) ≡ true =
                subst (λ x. any (λ k. k == x) (group_keys key rows) ≡ true) e there in
              absurd (true-ne-false (sym there' ∙ h'))
          | inr other ↦ rw (other, group_rows) (absent j rows h')
        ]
    | inr new ↦
        let h' : (key a == j || any (λ k. k == j) (group_keys key rows)) ≡ false =
          rw (new, group_keys) at h in
        ground (arith, absent j rows)
  ]

  sum_sizes_step :
      (a : A) (rows : List A)
      → sum_sizes (group_keys key (a ∷ rows)) (a ∷ rows)
        ≡ suc (sum_sizes (group_keys key rows) rows)
  unfolding group_keys
  sum_sizes_step a rows = elim (Bool-cases (any (λ k. k == key a) (group_keys key rows))) [
    | inl there ↦
        rw (there, group_keys)
          (ground (arith, sum_sizes-cons (group_keys key rows) a rows, once (key a) rows))
    | inr new ↦
        rw (new, group_keys)
          (ground (
            arith,
            sum_sizes-cons (group_keys key rows) a rows,
            once (key a) rows,
            absent (key a) rows new,
            ==_refl (key a),
          ))
  ]

  -- The groups part the rows: their sizes add up to the number of the rows.
  pub sum_sizes-group_keys : (rows : List A) → sum_sizes (group_keys key rows) rows ≡ length rows
  unfolding group_keys
  sum_sizes-group_keys [] = refl
  sum_sizes-group_keys (a ∷ rows) = omega (arith, sum_sizes_step a rows, sum_sizes-group_keys rows)

  pub length-group_keys : (rows : List A) → length (group_keys key rows) ≤ length rows
  unfolding group_keys
  length-group_keys [] = omega arith
  length-group_keys (a ∷ rows) = ground (arith, length-group_keys rows)

abbrev pub sum_events : List FunnelRow → ℕ
sum_events [] = 0
sum_events (r ∷ rows) = r.events + sum_events rows

abbrev funnel_row : List Event → Bytes → FunnelRow
funnel_row evs k = record {
  word = k;
  events = length (group_rows ev_word k evs);
  users = count_users (group_rows ev_word k evs);
}

sum_events-map :
    (keys : List Bytes) (evs : List Event)
    → sum_events (map (funnel_row evs) keys) ≡ sum_sizes ev_word keys evs
sum_events-map [] evs = refl
sum_events-map (k ∷ keys) evs = omega (arith, sum_events-map keys evs)

-- The events that a report since a time is about: no older ones, and no bot's.
abbrev pub window : TsMs → List Event → List Event
window since evs = filter (λ ev. not (ltb_ℤ ev.ts since) && not (ev.ua_class == codes "bot")) evs

-- A row of the funnel counts the events of its word, and no more visitors than events.
abbrev pub CountsWord : List Event → FunnelRow → Type 0
CountsWord evs r =
    (r.events ≡ length (filter (λ ev. event_type_to_string ev.type == r.word) evs))
    × (r.users ≤ r.events)

rows-CountsWord :
    (keys : List Bytes) (evs : List Event) → All (CountsWord evs) (map (funnel_row evs) keys)
unfolding count_users
rows-CountsWord [] evs = tt
rows-CountsWord (k ∷ keys) evs = (
  (refl, length-group_keys (λ (ev : Event). ev.anon_id) (group_rows ev_word k evs)),
  rows-CountsWord keys evs,
)

-- The funnel of the report counts each event exactly once that is not older than the window and not a
-- bot's: its rows add up to the number of those events, each row has as many as there are of its word,
-- and no row has more users than events.
pub funnel_totals :
    (since : TsMs) (evs : List Event)
    → (sum_events (funnel since evs) ≡ length (window since evs))
      × All (CountsWord (window since evs)) (funnel since evs)
unfolding funnel
funnel_totals since evs =
    let counted = window since evs in
    let keys = group_keys ev_word counted in
    (
      sum_events-map keys counted ∙ sum_sizes-group_keys ev_word counted,
      rows-CountsWord keys counted,
    )

abbrev pub sum_orders : List OrdersRow → ℕ
sum_orders [] = 0
sum_orders (r ∷ rows) = r.orders + sum_orders rows

abbrev status_of : ConversionRow → Bytes
status_of c = c.status

abbrev orders_row : List ConversionRow → Bytes → OrdersRow
orders_row rows k = record {
  status = k;
  orders = length (group_rows status_of k rows);
  rubles = div_trunc (sum_amounts (group_rows status_of k rows)) 100;
}

sum_orders-map :
    (keys : List Bytes) (rows : List ConversionRow)
    → sum_orders (map (orders_row rows) keys) ≡ sum_sizes status_of keys rows
sum_orders-map [] rows = refl
sum_orders-map (k ∷ keys) rows = omega (arith, sum_orders-map keys rows)

-- The report counts each order of the window under exactly one status.
pub orders_total :
    (since : TsMs) (rows : List ConversionRow)
    → sum_orders (orders since rows) ≡ length (filter (λ c. not (ltb_ℤ c.ts since)) rows)
unfolding orders
orders_total since rows =
    let recent = filter (λ (c : ConversionRow). not (ltb_ℤ c.ts since)) rows in
    sum_orders-map (group_keys status_of recent) recent ∙ sum_sizes-group_keys status_of recent
