-- ===== src/Db/Items.antt =====
-- src/db.cpp, the reads of the catalogue: how the rows that the SELECT statements return become
-- items. What sqlite returns, in its order, is an argument.
pub mod Children
pub mod Complete
use s_size_store.Prelude.{
  ℕ, ℤ, pos, cast_signed, Bool, true, false, not, List, [], ◌∷◌, ◌++◌, map, Option, none, some,
  if◌then◌else◌, ◌==◌, int_eq, nat_eq, list_eq,
}
use s_size_store.Bytes.{Bytes, codes}
use s_size_store.Models.{
  Item, Image, Color, Partner, ItemStatus, draft, item_status_from_string, TsMs, Kopek,
}

-- One row of the SELECT over `items`; `score` as in `Item`.
pub record ItemRow : Type 0 where
  pub id : ℤ
  pub title : Bytes
  pub description : Bytes
  pub brand : Bytes
  pub price_kopek : Kopek
  pub old_price_kopek : Option Kopek
  pub currency : Bytes
  pub partner_id : ℤ
  pub product_url : Bytes
  pub campaign : Bytes
  pub status : Bytes
  pub score : ℤ
  pub created_at : TsMs
  pub updated_at : TsMs
  pub published_at : Option TsMs

-- A row of `item_images`; `sqlite3_column_int64` gives the numbers, which the code casts to `int`.
pub record ImageRow : Type 0 where
  pub id : ℤ
  pub path : Bytes
  pub thumb_path : Bytes
  pub width : ℤ
  pub height : ℤ
  pub sort_order : ℤ

-- A row of `partners`.
pub record PartnerRow : Type 0 where
  pub id : ℤ
  pub code : Bytes
  pub title : Bytes
  pub link_template : Bytes
  pub enabled : ℤ

-- What the five statements return; a child row starts with the id of its item.
pub record Rows : Type 0 where
  pub items : List ItemRow
  pub images : List (ℤ × ImageRow)
  pub tags : List (ℤ × Bytes)
  pub sizes : List (ℤ × Bytes)
  pub colors : List (ℤ × Color)

abbrev or_draft : Option ItemStatus → ItemStatus
or_draft none = draft
or_draft (some s) = s

unfoldable pub item_of_row : ItemRow → Item
item_of_row r = record {
  id = r.id;
  title = r.title;
  description = r.description;
  brand = r.brand;
  price_kopek = r.price_kopek;
  old_price_kopek = r.old_price_kopek;
  currency = r.currency;
  partner_id = r.partner_id;
  product_url = r.product_url;
  campaign = r.campaign;
  status = or_draft (item_status_from_string r.status);
  score = r.score;
  images = [];
  tags = [];
  sizes = [];
  colors = [];
  created_at = r.created_at;
  updated_at = r.updated_at;
  published_at = r.published_at;
}

unfoldable pub image_of_row : ImageRow → Image
unfolding cast_signed
image_of_row r = record {
  id = r.id;
  path = r.path;
  thumb_path = r.thumb_path;
  width = cast_signed 32 r.width;
  height = cast_signed 32 r.height;
  sort_order = cast_signed 32 r.sort_order;
}

-- `fn(items[it->second], st)`: the index leads to the first item with the id; without one the row is
-- skipped.
unfoldable pub update_first : ℤ → (Item → Item) → List Item → List Item
update_first id f [] = []
update_first id f (it ∷ items) =
    let rest = update_first id f items in if it.id == id then f it ∷ items else it ∷ rest

-- The lambda `attach`, on the rows of its statement.
unfoldable pub attach {ℓ} : {C : Type ℓ} → (C → Item → Item) → List (ℤ × C) → List Item → List Item
unfolding update_first
attach fn [] items = items
attach fn ((id, c) ∷ rows) items = attach fn rows (update_first id (fn c) items)

abbrev pub push_image : ImageRow → Item → Item
push_image r it = record it { images = it.images ++ image_of_row r ∷ [] }

abbrev pub push_tag : Bytes → Item → Item
push_tag t it = record it { tags = it.tags ++ t ∷ [] }

abbrev pub push_size : Bytes → Item → Item
push_size s it = record it { sizes = it.sizes ++ s ∷ [] }

abbrev pub push_color : Color → Item → Item
push_color c it = record it { colors = it.colors ++ c ∷ [] }

unfoldable pub load_published_items : Rows → List Item
unfolding attach item_of_row
load_published_items rows = attach push_color rows.colors (
    attach push_size rows.sizes
      (attach push_tag rows.tags (attach push_image rows.images (map item_of_row rows.items))))

unfoldable pub partner_of_row : PartnerRow → Partner
partner_of_row r = record {
  id = r.id;
  code = r.code;
  title = r.title;
  link_template = r.link_template;
  enabled = not (r.enabled == pos 0);
}

unfoldable pub list_partners : List PartnerRow → List Partner
unfolding partner_of_row
list_partners rows = map partner_of_row rows
