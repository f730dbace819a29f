-- ===== src/Catalog.antt =====
-- src/catalog.hpp and src/catalog.cpp: the immutable snapshot that requests read, and its handle.
pub mod Sorted
pub mod Lookups
pub mod Slices
pub mod Tags
use s_size_store.Prelude.{
  ℕ, zero, suc, ◌+◌, ℤ, pos, Bool, true, false, not, ◌&&◌, ◌||◌, List, [], ◌∷◌, ◌++◌, Option, none,
  some, ltb, leb, ltb_ℤ, ◌==◌, if◌then◌else◌, length, get_elem?, any, lookup, emplace, nat_eq,
  list_eq, int_eq,
}
use s_size_store.Bytes.{Bytes, is_empty}
use s_size_store.Models.{Item, Partner, TsMs}

abbrev pub published_or_zero : Option TsMs → TsMs
published_or_zero none = pos 0
published_or_zero (some t) = t

-- The comparison that `std::stable_sort` is given: does `a` go before `b`?
unfoldable pub before : Item → Item → Bool
before a b =
    if not (a.score == b.score)
    then ltb_ℤ b.score a.score
    else ltb_ℤ (published_or_zero b.published_at) (published_or_zero a.published_at)

-- `std::stable_sort`: the item that stood first goes behind exactly those that come strictly
-- before it.
unfoldable pub insert_sorted : Item → List Item → List Item
insert_sorted a [] = a ∷ []
insert_sorted a (b ∷ items) = if before b a then b ∷ insert_sorted a items else a ∷ b ∷ items

unfoldable pub stable_sort : List Item → List Item
unfolding insert_sorted
stable_sort [] = []
stable_sort (a ∷ items) = insert_sorted a (stable_sort items)

-- The order of `std::set<std::string>`: lexicographic, by unsigned bytes.
unfoldable pub less : Bytes → Bytes → Bool
less s [] = false
less [] (d ∷ t) = true
less (c ∷ s) (d ∷ t) = ltb c d || c == d && less s t

unfoldable pub set_insert : Bytes → List Bytes → List Bytes
set_insert t [] = t ∷ []
set_insert t (u ∷ tags) =
    let more = u ∷ set_insert t tags in
    if less t u then t ∷ u ∷ tags else if less u t then more else u ∷ tags

unfoldable pub insert_tags : List Bytes → List Bytes → List Bytes
insert_tags [] tags = tags
insert_tags (t ∷ ts) tags = insert_tags ts (set_insert t tags)

unfoldable pub collect_tags : List Item → List Bytes → List Bytes
collect_tags [] tags = tags
collect_tags (item ∷ items) tags = collect_tags items (insert_tags item.tags tags)

-- The loops over `items_` and `partners_`: `emplace` keeps the first index of an id.
unfoldable pub index_items : ℕ → List Item → List (ℤ × ℕ) → List (ℤ × ℕ)
index_items i [] by_id = by_id
index_items i (item ∷ items) by_id = index_items (suc i) items (emplace item.id i by_id)

unfoldable pub index_partners : ℕ → List Partner → List (ℤ × ℕ) → List (ℤ × ℕ)
index_partners i [] by_id = by_id
index_partners i (p ∷ ps) by_id = index_partners (suc i) ps (emplace p.id i by_id)

pub record Catalog : Type 0 where
  pub items : List Item
  pub partners : List Partner
  pub all_tags : List Bytes
  pub by_id : List (ℤ × ℕ)
  pub partner_by_id : List (ℤ × ℕ)
  pub built_at : TsMs

-- The constructor, at the time `now`.
unfoldable pub build : List Item → List Partner → TsMs → Catalog
build items partners now =
    let sorted = stable_sort items in
    record {
      items = sorted;
      partners = partners;
      all_tags = collect_tags sorted [];
      by_id = index_items 0 sorted [];
      partner_by_id = index_partners 0 partners [];
      built_at = now;
    }

-- `Catalog() = default`
abbrev pub empty_catalog : Catalog
empty_catalog = record {
  items = [];
  partners = [];
  all_tags = [];
  by_id = [];
  partner_by_id = [];
  built_at = pos 0;
}

abbrev at_index {ℓ} : {A : Type ℓ} → List A → Option ℕ → Option A
at_index xs none = none
at_index xs (some i) = get_elem? xs i

unfoldable pub find : Catalog → ℤ → Option Item
find c id = at_index c.items (lookup id c.by_id)

unfoldable pub partner : Catalog → ℤ → Option Partner
partner c id = at_index c.partners (lookup id c.partner_by_id)

-- `value.empty() || std::find(…) != end`: an empty filter passes everything.
unfoldable pub passes : Bytes → List Bytes → Bool
passes value values = is_empty value || any (λ v. v == value) values

-- The loop of `query`, with `out` reversed away: the items that it pushes from here on. `room` is
-- how many it has pushed already.
unfoldable pub query_from : Bytes → Bytes → ℕ → ℕ → List Item → ℕ → ℕ → List Item
query_from tag size offset limit [] skipped pushed = []
query_from tag size offset limit (item ∷ items) skipped pushed =
    let next = query_from tag size offset limit items skipped pushed in
    let skip = query_from tag size offset limit items (suc skipped) pushed in
    let push = query_from tag size offset limit items (suc skipped) (suc pushed) in
    if not (passes tag item.tags)
    then next
    else if not (passes size item.sizes)
    then next
    else if ltb skipped offset
    then skip
    else if leb limit (suc pushed)
    then item ∷ []
    else item ∷ push

unfoldable pub query : Catalog → Bytes → Bytes → ℕ → ℕ → List Item
query c tag size offset limit = query_from tag size offset limit c.items 0 0
