-- ===== src/Tests/Admin.antt =====
-- The theorems on the admin tool, at a concrete database.
use s_size_store.Prelude.{
  ℕ, ◌≡◌, ◌≢◌, ◌++◌, refl, ◌+◌, int_eq, pos, true, false, [], ◌∷◌, some, List, All, arith, length,
}
use s_size_store.Bytes.{codes}
use s_size_store.Models.{Event, Item, blank_event, impression, outbound}
use s_size_store.Db.Items.{PartnerRow, partner_of_row}
use s_size_store.Db.Admin.{find_partner_by_code, has_item, partner_with_code}
use s_size_store.Admin.{Draw, Stock, Transaction, cmd_seed, rounds_of}
use s_size_store.Admin.Rounds.{AreDistinct, AreNew, IsPlausible}
use s_size_store.Admin.Seeding.{cmd_seed_succeeds}
use s_size_store.Admin.Stats.{funnel, top_items}
use s_size_store.Admin.Stats.Counting.{CountsWord, funnel_totals, sum_events, window}
use s_size_store.Admin.Stats.Ranking.{IsTop, candidates, top_items-IsTop}
use s_size_store.Tests.Sample.{cap_item, sock_item}

abbrev direct : PartnerRow
direct = record {
  id = pos 1;
  code = codes "direct";
  title = codes "Direct";
  link_template = codes "{url}";
  enabled = pos 1;
}

abbrev stock : Stock
stock = record {
  shelf = record {
    partners = direct ∷ [];
    items = cap_item ∷ [];
    tags = [];
    item_tags = [];
    item_images = [];
  };
  item_sizes = [];
  item_colors = [];
}

abbrev draws : ℕ → Draw
draws k = record {
  price = 1990;
  kind = 3;
  brand = 1;
  score = pos 5;
  tags = (0, pos 1) ∷ (0, pos 2) ∷ [];
  sizes = 1 ∷ 1 ∷ 4 ∷ [];
  color = 2;
  refused = false;
  item_key = pos (20 + k);
  image_key = pos (30 + k);
}

abbrev open_transaction : Transaction
open_transaction = record { begins = true; commits = true }

found : find_partner_by_code (codes "direct") stock.shelf ≡ some (partner_of_row direct)
unfolding find_partner_by_code partner_with_code
found = refl

draws-AreDistinct : AreDistinct draws
draws-AreDistinct = record { items = λ j k h. ground arith; images = λ j k h. ground arith }

draws-AreNew : AreNew (pos 9) (partner_of_row direct) draws 0 stock.shelf
unfolding has_item
draws-AreNew = record { items = λ k h. ground arith; images = λ k h. refl }

cmd_seed_succeeds_example :
    ((cmd_seed (pos 9) open_transaction draws (pos 2) stock).1 ≡ some 0)
    × ((added : List Item) × ((cmd_seed (pos 9) open_transaction draws (pos 2) stock).0.shelf.items
          ≡ stock.shelf.items ++ added)
        × (length added ≡ rounds_of (pos 2))
        × All IsPlausible added)
cmd_seed_succeeds_example =
    cmd_seed_succeeds (pos 9) open_transaction draws (pos 2) stock (partner_of_row direct) found
      (λ k. record { price_from = omega arith; price_to = omega arith }) (λ k. refl)
      draws-AreDistinct draws-AreNew refl refl

abbrev busy_transaction : Transaction
busy_transaction = record { begins = false; commits = true }

busy-fails : (cmd_seed (pos 9) busy_transaction draws (pos 2) stock).1 ≢ some 0
unfolding cmd_seed find_partner_by_code partner_with_code
busy-fails e = cc

abbrev view : Event
view = record (blank_event impression) {
  item_id = some (pos 7);
  anon_id = codes "u";
  ts = pos 50;
  ua_class = codes "mobile";
}

abbrev crawl : Event
crawl = record view { ua_class = codes "bot" }

abbrev leave : Event
leave = record view { type = outbound }

abbrev history : List Event
history = view ∷ crawl ∷ view ∷ leave ∷ []

funnel_totals_example :
    (sum_events (funnel (pos 10) history) ≡ length (window (pos 10) history))
    × All (CountsWord (window (pos 10) history)) (funnel (pos 10) history)
funnel_totals_example = funnel_totals (pos 10) history

top_items-IsTop_example :
    IsTop
      (candidates (pos 10) (cap_item ∷ sock_item ∷ []) history)
      (top_items (pos 10) (cap_item ∷ sock_item ∷ []) history)
top_items-IsTop_example = top_items-IsTop (pos 10) (cap_item ∷ sock_item ∷ []) history
