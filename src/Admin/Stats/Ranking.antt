-- ===== src/Admin/Stats/Ranking.antt =====
-- The ten best items.
use mathlib.Core.List.{Perm}
use mathlib.Core.List.Perm
use native.Mathlib.Nat.{mul-le-mul_left, le_of_mul-le-mul_left}
use s_size_store.Prelude.{
  ℕ, ℤ, zero, suc, ◌*◌, ◌≤◌, ◌<◌, ◌≡◌, refl, sym, ap, subst, true, false, List, [], ◌∷◌, ◌++◌, map,
  filter, if◌then◌else◌, ◌&&◌, ◌==◌, nat_eq, list_eq, int_eq, Option, none, some, ◌∙◌, leb, take,
  drop, length, All, All-map, arith, Bool-cases, Bool, inl, inr,
}
use s_size_store.Models.{Item, Event, TsMs, event_type_to_string}
use s_size_store.Bytes.{Bytes, codes}
use s_size_store.Admin.Stats.Counting.{window}
use s_size_store.Admin.Stats.{
  TopRow, is_better, is_eligible, insert_ranked, rank, top_items, min_impressions, top_row,
  eligible, of_item, count_word,
}

-- The rate of `a` is not below that of `b`.
abbrev pub NotBelow : TopRow → TopRow → Type 0
NotBelow a b = b.outbounds * a.impressions ≤ a.outbounds * b.impressions

NotBelow-trans : (a b c : TopRow) → 0 < b.impressions → NotBelow a b → NotBelow b c → NotBelow a c
NotBelow-trans a b c positive h k =
    let scaled : b.impressions * (c.outbounds * a.impressions)
        ≤ b.impressions * (a.outbounds * c.impressions) =
      omega (arith, mul-le-mul_left a.impressions k, mul-le-mul_left c.impressions h) in
    le_of_mul-le-mul_left scaled positive

below_or : (a b : TopRow) → is_better a b ≡ false → NotBelow b a
below_or a b h = ground arith

better_is : (a b : TopRow) → is_better a b ≡ true → NotBelow a b
better_is a b h = ground arith

-- Every row shows at least one impression.
abbrev AreSeen : List TopRow → Type 0
AreSeen = All (λ r. 0 < r.impressions)

-- The rates do not rise, from each row to all behind it.
abbrev pub IsRanked : List TopRow → Type 0
IsRanked [] = Unit
IsRanked (r ∷ rows) = All (NotBelow r) rows × IsRanked rows

NotBelow-All :
    (a b : TopRow) (rows : List TopRow)
    → 0 < b.impressions
    → NotBelow a b
    → All (NotBelow b) rows
    → All (NotBelow a) rows
NotBelow-All a b [] seen h k = tt
NotBelow-All a b (r ∷ rows) seen h (k, ks) =
    (NotBelow-trans a b r seen h k, NotBelow-All a b rows seen h ks)

insert_ranked-All :
    (P : TopRow → Type 0) (r : TopRow) (rows : List TopRow)
    → P r
    → All P rows
    → All P (insert_ranked r rows)
unfolding insert_ranked
insert_ranked-All P r [] h hs = (h, tt)
insert_ranked-All P r (q ∷ rows) h (k, ks) = elim (Bool-cases (is_better q r)) [
  | inl better ↦ rw (better, insert_ranked) (k, insert_ranked-All P r rows h ks)
  | inr other ↦ rw (other, insert_ranked) (h, (k, ks))
]

insert_ranked-IsRanked :
    (r : TopRow) (rows : List TopRow)
    → AreSeen rows
    → IsRanked rows
    → IsRanked (insert_ranked r rows)
unfolding insert_ranked
insert_ranked-IsRanked r [] seen h = (tt, tt)
insert_ranked-IsRanked r (q ∷ rows) (sq, seen) (k, h) = elim (Bool-cases (is_better q r)) [
  | inl better ↦
      rw (better, insert_ranked)
        (
          insert_ranked-All (NotBelow q) r rows (better_is q r better) k,
          insert_ranked-IsRanked r rows seen h,
        )
  | inr other ↦
      let above = below_or q r other in
      rw (other, insert_ranked) ((above, NotBelow-All r q rows sq above k), (k, h))
]

rank-IsRanked : (rows : List TopRow) → AreSeen rows → AreSeen (rank rows) × IsRanked (rank rows)
unfolding rank
rank-IsRanked [] seen = (tt, tt)
rank-IsRanked (r ∷ rows) (s, seen) =
    let (all, ranked) = rank-IsRanked rows seen in
    (
      insert_ranked-All (λ r. 0 < r.impressions) r (rank rows) s all,
      insert_ranked-IsRanked r (rank rows) all ranked,
    )

insert_ranked-perm : (r : TopRow) (rows : List TopRow) → Perm (insert_ranked r rows) (r ∷ rows)
unfolding insert_ranked
insert_ranked-perm r [] = Perm.refl (r ∷ [])
insert_ranked-perm r (q ∷ rows) = elim (Bool-cases (is_better q r)) [
  | inl better ↦
      rw (better, insert_ranked)
        (Perm.trans (Perm.cons q (insert_ranked-perm r rows)) (Perm.swap r q rows))
  | inr other ↦ rw (other, insert_ranked) (Perm.refl (r ∷ q ∷ rows))
]

rank-perm : (rows : List TopRow) → Perm (rank rows) rows
unfolding rank
rank-perm [] = Perm.refl []
rank-perm (r ∷ rows) = Perm.trans (insert_ranked-perm r (rank rows)) (Perm.cons r (rank-perm rows))

eligible-All :
    (rows : List TopRow) → All (λ r. min_impressions ≤ r.impressions) (filter is_eligible rows)
eligible-All [] = tt
eligible-All (r ∷ rows) = ground (arith, eligible-All rows)

take-drop : (n : ℕ) (rows : List TopRow) → take n rows ++ drop n rows ≡ rows
take-drop zero rows = refl
take-drop (suc n) [] = refl
take-drop (suc n) (r ∷ rows) = ap (λ (l : List TopRow). r ∷ l) (take-drop n rows)

abbrev pub at_most : ℕ → ℕ → ℕ
at_most n k = if leb n k then n else k

length-take : (n : ℕ) (rows : List TopRow) → length (take n rows) ≡ at_most n (length rows)
length-take zero rows = ground arith
length-take (suc n) [] = ground arith
length-take (suc n) (r ∷ rows) = ground (arith, length-take n rows)

length-insert_ranked :
    (r : TopRow) (rows : List TopRow) → length (insert_ranked r rows) ≡ suc (length rows)
unfolding insert_ranked
length-insert_ranked r [] = refl
length-insert_ranked r (q ∷ rows) = ground (arith, length-insert_ranked r rows)

length-rank : (rows : List TopRow) → length (rank rows) ≡ length rows
unfolding rank
length-rank [] = refl
length-rank (r ∷ rows) = omega (arith, length-insert_ranked r (rank rows), length-rank rows)

-- The events of some kind on an item.
abbrev pub hits : Bytes → Item → List Event → ℕ
hits word it evs = length (
    filter
      (λ ev.
        elim ev.item_id [ none ↦ false | some id ↦ id == it.id ]
        && event_type_to_string ev.type == word)
      evs)

abbrev pub seen_row : List Event → Item → TopRow
seen_row evs it = record {
  id = it.id;
  title = it.title;
  impressions = hits (codes "impression") it evs;
  outbounds = hits (codes "outbound") it evs;
}

-- The items that a report can show, with what it says of them: those that were shown twenty times
-- or more.
abbrev pub candidates : TsMs → List Item → List Event → List TopRow
candidates since items evs =
    filter (λ r. leb 20 r.impressions) (map (seen_row (window since evs)) items)

-- What a list of the best items is: ten rows, or all where there are fewer, by falling rates, and
-- nothing that is left out has a higher rate than anything shown.
pub record IsTop (rows shown : List TopRow) : Type 0 where
  pub rest : List TopRow
  pub size : length shown ≡ at_most 10 (length rows)
  pub ranked : IsRanked (shown ++ rest)
  pub complete : Perm (shown ++ rest) rows

positive_of : (r : TopRow) → min_impressions ≤ r.impressions → 0 < r.impressions
positive_of r h = omega arith

-- An event is on an item in the one way of saying so as in the other.
on_item :
    (word : Bytes) (it : Item) (ev : Event) (id : Option ℤ)
    → ((elim id as (λ _. Bool) [ none ↦ false | some id ↦ id == it.id ])
        && event_type_to_string ev.type == word)
      ≡ (of_item id it.id && event_type_to_string ev.type == word)
on_item word it ev none = refl
on_item word it ev (some id) = refl

hits_counted :
    (word : Bytes) (it : Item) (evs : List Event) → hits word it evs ≡ count_word word it.id evs
hits_counted word it [] = refl
hits_counted word it (ev ∷ evs) =
    rw (on_item word it ev ev.item_id) (ground (arith, hits_counted word it evs))

rows_counted :
    (evs : List Event) (items : List Item) → map (seen_row evs) items ≡ map (top_row evs) items
unfolding top_row
rows_counted evs [] = refl
rows_counted evs (it ∷ items) = λ i.
    record {
      id = it.id;
      title = it.title;
      impressions = hits_counted (codes "impression") it evs i;
      outbounds = hits_counted (codes "outbound") it evs i;
    }
    ∷ rows_counted evs items i

ranked-IsTop :
    (since : TsMs) (items : List Item) (evs : List Event)
    → IsTop (eligible since items evs) (top_items since items evs)
unfolding top_items
ranked-IsTop since items evs =
    let rows = eligible since items evs in
    let ranked = rank rows in
    let enough = eligible-All (map (top_row (window since evs)) items) in
    let (_, sorted) = rank-IsRanked rows (All-map rows positive_of enough) in
    let whole = sym (take-drop 10 ranked) in
    record {
      rest = drop 10 ranked;
      size = length-take 10 ranked ∙ ap (at_most 10) (length-rank rows);
      ranked = subst IsRanked whole sorted;
      complete = subst (λ l. Perm l rows) whole (rank-perm rows);
    }

-- The top list of the report is a list of the best among the items with at least twenty impressions
-- that are in the window and not a bot's: it shows ten of them, or all where there are fewer, by
-- falling rates of outbound clicks, and none that it leaves out has a higher rate than one it shows.
pub top_items-IsTop :
    (since : TsMs) (items : List Item) (evs : List Event)
    → IsTop (candidates since items evs) (top_items since items evs)
top_items-IsTop since items evs =
    let same : eligible since items evs ≡ candidates since items evs =
      ap (filter is_eligible) (sym (rows_counted (window since evs) items)) in
    subst (λ rows. IsTop rows (top_items since items evs)) same (ranked-IsTop since items evs)
