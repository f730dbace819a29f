-- ===== src/Admin/Stats.antt =====
-- src/admin_cli.cpp, `cmd_stats`: its three queries as functions of the rows of their tables. The order
-- in which sqlite gives the groups is not specified; here it is that of the last row of each.
pub mod Counting
pub mod Ranking
use s_size_store.Prelude.{
  ℕ, zero, suc, ◌+◌, ◌*◌, ℤ, pos, neg, ltb, ltb_ℤ, ◌-ℤ◌, ◌+ℤ◌, div_trunc, Bool, true, false, not,
  ◌&&◌, List, [], ◌∷◌, map, any, filter, length, take, Option, none, some, if◌then◌else◌, ◌==◌,
  int_eq, nat_eq, list_eq, leb,
}
use s_size_store.Bytes.{Bytes, codes}
use s_size_store.Models.{Item, Event, TsMs, event_type_to_string}
use s_size_store.Db.{Tables, ConversionRow, ms_per_day}
use s_size_store.Worker.{scale}

-- The groups of `GROUP BY key`: each value of the key once.
module _ {A : Type 0} (key : A → Bytes) where
  unfoldable pub group_keys : List A → List Bytes
  group_keys [] = []
  group_keys (a ∷ rows) =
      let keys = group_keys rows in if any (λ k. k == key a) keys then keys else key a ∷ keys

  abbrev pub group_rows : Bytes → List A → List A
  group_rows k rows = filter (λ a. key a == k) rows

abbrev pub ev_word : Event → Bytes
ev_word ev = event_type_to_string ev.type

-- `ts >= ?1 AND ua_class != 'bot'`
abbrev pub is_counted : TsMs → Event → Bool
is_counted since ev = not (ltb_ℤ ev.ts since) && not (ev.ua_class == codes "bot")

pub record FunnelRow : Type 0 where
  pub word : Bytes
  pub events : ℕ
  pub users : ℕ

-- `COUNT(DISTINCT anon_id)`
unfoldable pub count_users : List Event → ℕ
unfolding group_keys
count_users evs = length (group_keys (λ ev. ev.anon_id) evs)

unfoldable pub funnel : TsMs → List Event → List FunnelRow
unfolding count_users
funnel since evs =
    let counted = filter (is_counted since) evs in
    map
      (λ k. record {
        word = k;
        events = length (group_rows ev_word k counted);
        users = count_users (group_rows ev_word k counted);
      })
      (group_keys ev_word counted)

pub record TopRow : Type 0 where
  pub id : ℤ
  pub title : Bytes
  pub impressions : ℕ
  pub outbounds : ℕ

abbrev pub of_item : Option ℤ → ℤ → Bool
of_item none id = false
of_item (some item) id = item == id

-- `SUM(e.type = ...)` over the group of an item.
abbrev pub count_word : Bytes → ℤ → List Event → ℕ
count_word word id evs = length (filter (λ ev. of_item ev.item_id id && ev_word ev == word) evs)

unfoldable pub top_row : List Event → Item → TopRow
top_row evs it = record {
  id = it.id;
  title = it.title;
  impressions = count_word (codes "impression") it.id evs;
  outbounds = count_word (codes "outbound") it.id evs;
}

abbrev pub min_impressions : ℕ
min_impressions = 20

-- `HAVING imp >= 20`; an item without an event has no group and no impressions.
abbrev pub is_eligible : TopRow → Bool
is_eligible r = leb min_impressions r.impressions

-- Is the rate of outbound clicks of `a` above that of `b`? The quotients are compared as fractions.
abbrev pub is_better : TopRow → TopRow → Bool
is_better a b = ltb (b.outbounds * a.impressions) (a.outbounds * b.impressions)

-- `ORDER BY ... DESC`; the order of equal rates is not specified, and here it is that of the items.
unfoldable pub insert_ranked : TopRow → List TopRow → List TopRow
insert_ranked r [] = r ∷ []
insert_ranked r (q ∷ rows) =
    let rest = insert_ranked r rows in if is_better q r then q ∷ rest else r ∷ q ∷ rows

unfoldable pub rank : List TopRow → List TopRow
unfolding insert_ranked
rank [] = []
rank (r ∷ rows) = insert_ranked r (rank rows)

abbrev pub eligible : TsMs → List Item → List Event → List TopRow
eligible since items evs = filter is_eligible (map (top_row (filter (is_counted since) evs)) items)

-- `LIMIT 10`
unfoldable pub top_items : TsMs → List Item → List Event → List TopRow
unfolding rank top_row
top_items since items evs = take 10 (rank (eligible since items evs))

pub record OrdersRow : Type 0 where
  pub status : Bytes
  pub orders : ℕ
  pub rubles : ℤ

abbrev or_zero : Option ℤ → ℤ
or_zero none = pos 0
or_zero (some k) = k

-- `COALESCE(SUM(amount_kopek),0)`
unfoldable pub sum_amounts : List ConversionRow → ℤ
sum_amounts [] = pos 0
sum_amounts (c ∷ rows) = or_zero c.amount +ℤ sum_amounts rows

unfoldable pub orders : TsMs → List ConversionRow → List OrdersRow
unfolding sum_amounts
orders since rows =
    let recent = filter (λ c. not (ltb_ℤ c.ts since)) rows in
    map
      (λ k. record {
        status = k;
        orders = length (group_rows (λ (c : ConversionRow). c.status) k recent);
        rubles =
            div_trunc (sum_amounts (group_rows (λ (c : ConversionRow). c.status) k recent)) 100;
      })
      (group_keys (λ (c : ConversionRow). c.status) recent)

-- What the command prints: its three tables.
pub record Report : Type 0 where
  pub funnel_rows : List FunnelRow
  pub top_rows : List TopRow
  pub orders_rows : List OrdersRow

unfoldable pub cmd_stats : TsMs → ℤ → List Item → Tables → Report
unfolding funnel top_items orders
cmd_stats now days items t =
    let since = now -ℤ scale days ms_per_day in
    record {
      funnel_rows = funnel since t.events;
      top_rows = top_items since items t.events;
      orders_rows = orders since t.conversions;
    }
