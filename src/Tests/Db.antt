-- ===== src/Tests/Db.antt =====
-- The theorems on the database and its thread, at concrete inputs.
use mathlib.Core.List.Perm
use s_size_store.Prelude.{
  ◌&&◌, ◌≡◌, ◌↔◌, refl, pos, [], ◌∷◌, none, some, false, true, map, All, if◌then◌else◌, ◌==◌,
  int_eq, nat_eq, list_eq,
}
use s_size_store.Bytes.{codes}
use s_size_store.Models.{archived, status_to_string, Event, blank_event, outbound, impression}
use s_size_store.Catalog.{find, before}
use s_size_store.Catalog.Lookups.{first}
use s_size_store.Events.{Conversion}
use s_size_store.Db.{
  Tables, pair_eq, insert_events, record_conversion, has_token, known_status, row_of,
}
use s_size_store.Db.Batches.{insert_events_iff, IsTokenSet}
use s_size_store.Db.Conversions.{IsRecordable, record_conversion-order_row, order_row, updated}
use s_size_store.Db.Items.{Rows, ItemRow, item_of_row}
use s_size_store.Db.Items.Complete.{complete_item}
use s_size_store.Worker.{World, snapshot_of}
use s_size_store.Worker.Snapshots.{snapshot_of-complete_item}
use s_size_store.Db.Admin.{Shelf, has_item, restate, set_item_status}
use s_size_store.Db.Admin.Publishing.{
  IsSelected, row_of_item, is_on_sale, is_there, set_item_status-is_on_sale,
}
use s_size_store.Tests.Sample.{cap_item, sock_item}

abbrev click : Event
click = record (blank_event outbound) {
  item_id = some (pos 7);
  ts = pos 86400005;
  ua_class = codes "mobile";
  click_token = codes "0Z7";
}

abbrev view : Event
view = record (blank_event impression) {
  item_id = some (pos 7);
  ts = pos 86400001;
  ua_class = codes "mobile";
}

abbrev no_rows : Tables
no_rows = record { events = []; conversions = []; daily = [] }

abbrev click_rows : Tables
click_rows = record { events = click ∷ []; conversions = []; daily = [] }

insert_events_iff_example :
    ((insert_events (λ n. false) (view ∷ click ∷ []) click_rows
        ≡ (record click_rows { events = click ∷ view ∷ click ∷ [] }, true))
      ↔ IsTokenSet (click ∷ []) (view ∷ click ∷ []))
    × ((insert_events (λ n. false) (view ∷ click ∷ []) click_rows ≡ (click_rows, false))
        ↔ (¬ IsTokenSet (click ∷ []) (view ∷ click ∷ [])))
insert_events_iff_example = insert_events_iff (view ∷ click ∷ []) click_rows

abbrev order : Conversion
order = record {
  click_token = codes "0Z7";
  ts = pos 9;
  order_ref = codes "A1";
  amount = some (pos 1000);
  status = codes "pending";
  raw = [];
}

order-IsRecordable : IsRecordable order click_rows
unfolding has_token known_status
order-IsRecordable = record { served = refl; known = refl }

record_conversion-order_row_example :
    ((record_conversion false order click_rows).1 ≡ some true)
    × (order_row (codes "A1") (record_conversion false order click_rows).0.conversions
        ≡ some (updated none (row_of order)))
record_conversion-order_row_example =
    record_conversion-order_row order click_rows order-IsRecordable refl

abbrev world : World
world = record {
  events = record { pending = view ∷ click ∷ []; max_pending = 5; dropped = 0 };
  conversions = record { pending = order ∷ [] };
  tables = no_rows;
}

world_tokens : IsTokenSet [] (view ∷ click ∷ [])
unfolding has_token
world_tokens = ((refl), (refl, tt))

world_statuses : All (λ c. known_status c.status ≡ true) (order ∷ [])
unfolding known_status
world_statuses = (refl, tt)

abbrev cap_row : ItemRow
cap_row = record {
  id = pos 7;
  title = codes "Cap";
  description = [];
  brand = [];
  price_kopek = pos 100;
  old_price_kopek = none;
  currency = codes "RUB";
  partner_id = pos 1;
  product_url = codes "https://s.ru/7";
  campaign = [];
  status = codes "published";
  score = pos 0;
  created_at = pos 1;
  updated_at = pos 1;
  published_at = some (pos 5);
}

abbrev sock_row : ItemRow
sock_row = record cap_row { id = pos 8; title = codes "Sock"; published_at = some (pos 4) }

abbrev rows : Rows
rows = record {
  items = cap_row ∷ sock_row ∷ [];
  images = [];
  tags = (pos 3, codes "old") ∷ (pos 7, codes "hats") ∷ (pos 8, codes "new") ∷ [];
  sizes = (pos 8, codes "M") ∷ [];
  colors = [];
}

snapshot_of-complete_item_example :
    ((snapshot_of rows [] (pos 9)).items ≡ map (complete_item rows) (cap_row ∷ sock_row ∷ []))
    × (find (snapshot_of rows [] (pos 9)) (pos 8)
        ≡ first (λ it. it.id == pos 8) (map (complete_item rows) (cap_row ∷ sock_row ∷ [])))
snapshot_of-complete_item_example =
    snapshot_of-complete_item rows [] (pos 9) (pos 8) ((refl, tt), (tt, tt))
      (unfold before complete_item item_of_row in ((refl, tt), (tt, tt)))

abbrev shelf : Shelf
shelf = record { partners = []; items = []; tags = []; item_tags = []; item_images = [] }

abbrev pub two_items : Shelf
two_items = record {
  partners = [];
  items = cap_item ∷ sock_item ∷ [];
  tags = [];
  item_tags = [];
  item_images = [];
}

-- What the SELECT returns once the cap is archived.
abbrev pub sock_rows : Rows
sock_rows = record {
  items = row_of_item sock_item ∷ [];
  images = [];
  tags = [];
  sizes = [];
  colors = [];
}

pub archived-IsSelected :
    IsSelected (set_item_status (pos 7) archived (pos 9) two_items) sock_rows.items
unfolding set_item_status restate status_to_string
archived-IsSelected = record { selected = Perm.refl (row_of_item sock_item ∷ []); keyed = (tt, tt) }

set_item_status-is_on_sale_example : is_there (find (snapshot_of sock_rows [] (pos 10)) (pos 7)) ≡ (
    if pos 7 == pos 7
    then (status_to_string archived == codes "published") && has_item (pos 7) two_items
    else is_on_sale (pos 7) two_items)
set_item_status-is_on_sale_example =
    set_item_status-is_on_sale (pos 7) archived (pos 9) two_items sock_rows [] (pos 10) (pos 7)
      archived-IsSelected
