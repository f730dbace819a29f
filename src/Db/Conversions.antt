-- ===== src/Db/Conversions.antt =====
-- What becomes of a postback.
use s_size_store.Prelude.{
  ◌≡◌, ◌∙◌, ◌↔◌, ◌⊎◌, inl, inr, refl, sym, ap, true, false, Bool, not, ◌||◌, List, [], ◌∷◌, Option,
  none, some, arith, any, if◌then◌else◌, ==_iff, list_eq, nat_eq,
}
use s_size_store.Bytes.{Bytes, is_empty}
use s_size_store.Events.{Conversion}
use s_size_store.Db.{
  Tables, ConversionRow, row_of, same_order, upsert, record_conversion, has_token, known_status,
}

-- The row that an order reference leads to.
abbrev pub order_row : Bytes → List ConversionRow → Option ConversionRow
order_row order [] = none
order_row order (r ∷ rows) =
    if same_order r.order_ref (some order) then some r else order_row order rows

pub same_order_iff : (o : Option Bytes) (a : Bytes) → (same_order o (some a) ≡ true) ↔ (o ≡ some a)
same_order_iff none a = ground arith
same_order_iff (some b) a = ground (arith, ==_iff b a)

same_order_trans : (a b c : Option Bytes) → same_order a b ≡ true → same_order a c ≡ same_order b c
same_order_trans none b c e = ground arith
same_order_trans (some a) none c e = ground arith
same_order_trans (some a) (some b) c e = let same : a ≡ b = (==_iff a b).0 e in rw same refl

same_order_sym : (a b : Option Bytes) → same_order a b ≡ same_order b a
same_order_sym none none = refl
same_order_sym none (some b) = refl
same_order_sym (some a) none = refl
same_order_sym (some a) (some b) = ground (arith, ==_iff a b, ==_iff b a)

-- The partial unique index: no order reference stands in two rows.
abbrev pub IsOrderSet : List ConversionRow → Type 0
IsOrderSet [] = Unit
IsOrderSet (r ∷ rows) =
    (any (λ s. same_order s.order_ref r.order_ref) rows ≡ false) × IsOrderSet rows

pub any-upsert :
    (o : Option Bytes) (row : ConversionRow) (rows : List ConversionRow)
    → any (λ s. same_order s.order_ref o) (upsert row rows)
      ≡ (same_order row.order_ref o || any (λ s. same_order s.order_ref o) rows)
unfolding upsert
any-upsert o row [] = refl
any-upsert o row (r ∷ rows) =
    ground (arith, any-upsert o row rows, same_order_trans r.order_ref row.order_ref o)

upsert-IsOrderSet :
    (row : ConversionRow) (rows : List ConversionRow)
    → IsOrderSet rows
    → IsOrderSet (upsert row rows)
unfolding upsert
upsert-IsOrderSet row [] h = (refl, tt)
upsert-IsOrderSet row (r ∷ rows) (hr, h) = ground (
  arith,
  upsert-IsOrderSet row rows h,
  any-upsert r.order_ref row rows,
  same_order_sym r.order_ref row.order_ref,
)

-- The row that a repeated order has: the first click, and the news of the last postback.
abbrev pub updated : Option ConversionRow → ConversionRow → ConversionRow
updated none row = row
updated (some r) row = record r { status = row.status; amount = row.amount; ts = row.ts }

order_row-upsert :
    (order : Bytes) (row : ConversionRow) (rows : List ConversionRow)
    → row.order_ref ≡ some order
    → order_row order (upsert row rows) ≡ some (updated (order_row order rows) row)
unfolding upsert
order_row-upsert order row [] e = ground (arith, same_order_iff row.order_ref order)
order_row-upsert order row (r ∷ rows) e = ground (
  arith,
  e,
  same_order_iff r.order_ref order,
  same_order_trans row.order_ref (some order) r.order_ref,
  same_order_sym r.order_ref row.order_ref,
  same_order_iff row.order_ref order,
  same_order_sym (some order) r.order_ref,
  order_row-upsert order row rows e,
)

upsert_again :
    (order : Bytes) (row : ConversionRow) (rows : List ConversionRow)
    → row.order_ref ≡ some order
    → upsert row (upsert row rows) ≡ upsert row rows
unfolding upsert
upsert_again order row [] e = ground (arith, e, same_order_iff row.order_ref order)
upsert_again order row (r ∷ rows) e = ground (arith, e, upsert_again order row rows)

-- The click was served, and the status is one of the three words.
pub record IsRecordable (c : Conversion) (t : Tables) : Type 0 where
  pub served : any (has_token c.click_token) t.events ≡ true
  pub known : known_status c.status ≡ true

recorded :
    (c : Conversion) (t : Tables)
    → IsRecordable c t
    → record_conversion false c t
      ≡ (record t { conversions = upsert (row_of c) t.conversions }, some true)
unfolding record_conversion
recorded c t h = rw (h.served, h.known, record_conversion) refl

row_of_order :
    (c : Conversion) → is_empty c.order_ref ≡ false → (row_of c).order_ref ≡ some c.order_ref
unfolding row_of
row_of_order c h = rw h refl

-- A postback with an order reference, for a click that is in the table, is recorded: the order's row
-- then has the postback's status, amount and time, and still the click and the raw text of the first
-- postback of the order.
pub record_conversion-order_row :
    (c : Conversion) (t : Tables)
    → IsRecordable c t
    → is_empty c.order_ref ≡ false
    → ((record_conversion false c t).1 ≡ some true)
      × (order_row c.order_ref (record_conversion false c t).0.conversions
          ≡ some (updated (order_row c.order_ref t.conversions) (row_of c)))
record_conversion-order_row c t h order =
    let done = recorded c t h in
    (
      ap (λ (o : Tables × Option Bool). o.1) done,
      ap (λ (o : Tables × Option Bool). order_row c.order_ref o.0.conversions) done
          ∙ order_row-upsert c.order_ref (row_of c) t.conversions (row_of_order c order),
    )

-- A network that repeats a postback with an order reference changes nothing by it.
pub record_conversion_again :
    (c : Conversion) (t : Tables)
    → IsRecordable c t
    → is_empty c.order_ref ≡ false
    → record_conversion false c (record_conversion false c t).0 ≡ record_conversion false c t
record_conversion_again c t h order =
    let done = recorded c t h in
    let next : Tables = record t { conversions = upsert (row_of c) t.conversions } in
    ap (λ (o : Tables × Option Bool). record_conversion false c o.0) done
    ∙ recorded c next (record { served = h.served; known = h.known })
    ∙ ap (λ (rows : List ConversionRow). (record t { conversions = rows }, some true))
        (upsert_again c.order_ref (row_of c) t.conversions (row_of_order c order))
    ∙ sym done

abbrev answer_of : Bool → Bool → Bool → Tables → Tables → Tables × Option Bool
answer_of refused served bad t t' =
    if refused
    then (t, none)
    else if not served
    then (t, some false)
    else if bad
    then (t, none)
    else (t', some true)

answer_cases :
    (refused served bad : Bool) (t t' : Tables)
    → (((answer_of refused served bad t t').1 ≡ some false)
        ↔ ((refused ≡ false) × (served ≡ false)))
      × (((answer_of refused served bad t t').1 ≡ some true)
          ⊎ ((answer_of refused served bad t t').0 ≡ t))
answer_cases true served bad t t' = ((λ e. ground arith, λ (e, f). cc), inr refl)
answer_cases false false bad t t' = ((λ e. (refl, refl), λ e. refl), inr refl)
answer_cases false true true t t' = ((λ e. ground arith, λ (e, f). cc), inr refl)
answer_cases false true false t t' = ((λ e. ground arith, λ (e, f). cc), inl refl)

-- A conversion is answered by false exactly if sqlite refuses nothing and no event holds its token;
-- then, and whenever the call throws, the tables are as they were.
pub record_conversion_unmatched :
    (refused : Bool) (c : Conversion) (t : Tables)
    → (((record_conversion refused c t).1 ≡ some false)
        ↔ ((refused ≡ false) × (any (has_token c.click_token) t.events ≡ false)))
      × (((record_conversion refused c t).1 ≡ some true) ⊎ ((record_conversion refused c t).0 ≡ t))
unfolding record_conversion
record_conversion_unmatched refused c t =
    answer_cases refused (any (has_token c.click_token) t.events) (not (known_status c.status)) t _

-- The unique index on the orders holds in the tables that a postback leaves.
pub record_conversion-IsOrderSet :
    (refused : Bool) (c : Conversion) (t : Tables)
    → IsOrderSet t.conversions
    → IsOrderSet (record_conversion refused c t).0.conversions
unfolding record_conversion
record_conversion-IsOrderSet refused c t h =
    ground (arith, upsert-IsOrderSet (row_of c) t.conversions h)
