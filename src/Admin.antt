-- ===== src/Admin.antt =====
-- src/admin_cli.cpp: the commands of the admin tool. What its random generator draws and the keys that
-- sqlite gives to new rows are arguments.
pub mod Rows
pub mod Rounds
pub mod Seeding
pub mod Stats
pub mod Commands
use s_size_store.Prelude.{
  ℕ, zero, suc, ◌+◌, ◌*◌, ◌/◌, ◌%◌, ℤ, pos, negsuc, Bool, true, false, not, ◌&&◌, List, [], ◌∷◌,
  ◌++◌, any, Option, none, some, if◌then◌else◌, ◌==◌, int_eq, nat_eq, list_eq,
}
use s_size_store.Bytes.{Bytes, codes, utf8}
use s_size_store.Decimal.{to_string}
use s_size_store.Models.{Item, Image, Color, Partner, TsMs, published}
use s_size_store.Db.Admin.{
  Shelf, insert_item, upsert_tag, attach_tag, add_image, has_item, find_partner_by_code,
}

abbrev pub titles : List Bytes
titles =
    utf8 "Оверсайз худи"
    ∷ utf8 "Карго-брюки"
    ∷ utf8 "Тактическая куртка"
    ∷ utf8 "Лонгслив с принтом"
    ∷ utf8 "Широкие джинсы"
    ∷ utf8 "Бомбер"
    ∷ utf8 "Шорты нейлон"
    ∷ utf8 "Флиска"
    ∷ utf8 "Жилет утилитарный"
    ∷ utf8 "Свитер крупной вязки"
    ∷ utf8 "Балаклава"
    ∷ utf8 "Рубашка оверсайз"
    ∷ []

abbrev pub brands : List Bytes
brands =
    codes "Noname"
    ∷ codes "Rick Owens style"
    ∷ codes "Y2K"
    ∷ codes "Techwear"
    ∷ codes "Vintage"
    ∷ codes "Local"
    ∷ []

abbrev pub slugs : List Bytes
slugs =
    codes "techwear"
    ∷ codes "y2k"
    ∷ codes "gorpcore"
    ∷ codes "oversize"
    ∷ codes "vintage"
    ∷ codes "street"
    ∷ codes "grunge"
    ∷ []

abbrev pub sizes : List Bytes
sizes = codes "XS" ∷ codes "S" ∷ codes "M" ∷ codes "L" ∷ codes "XL" ∷ []

abbrev pub colors : List Color
colors =
    record { name = utf8 "чёрный"; hex = codes "#101014" }
    ∷ record { name = utf8 "графит"; hex = codes "#2a2a33" }
    ∷ record { name = utf8 "фиолетовый"; hex = codes "#6d4aff" }
    ∷ record { name = utf8 "хаки"; hex = codes "#5c5f4a" }
    ∷ record { name = utf8 "белый"; hex = codes "#f2f2f5" }
    ∷ []

-- The lambda `pick`, on a drawn index, which is within the array.
abbrev pub pick {ℓ} : {A : Type ℓ} → A → List A → ℕ → A
pick none_there [] k = none_there
pick none_there (x ∷ xs) zero = x
pick none_there (x ∷ xs) (suc k) = pick none_there xs k

-- What is drawn for one item, elements of the arrays as their indices: a tag comes with the key that
-- its row has if it is new; and whether sqlite refuses one of its statements for reasons of its own,
-- such as a busy file, as BEGIN takes no lock. The score is the integer that stands for the double, as in `Item`.
pub record Draw : Type 0 where
  pub price : ℕ
  pub kind : ℕ
  pub brand : ℕ
  pub score : ℤ
  pub tags : List (ℕ × ℤ)
  pub sizes : List ℕ
  pub color : ℕ
  pub refused : Bool
  pub item_key : ℤ
  pub image_key : ℤ

-- The tables of the catalogue, the sizes and the colours among them.
pub record Stock : Type 0 where
  pub shelf : Shelf
  pub item_sizes : List (ℤ × Bytes)
  pub item_colors : List (ℤ × Color)

-- The item of round `i`.
unfoldable pub seed_item : TsMs → Partner → ℕ → Draw → Item
seed_item now partner i d = record {
  id = pos 0;
  title = pick [] titles d.kind ++ (codes " #" ++ to_string (pos (i + 1)));
  description = utf8 "Позиция из демо-каталога. Заменится реальным описанием.";
  brand = pick [] brands d.brand;
  price_kopek = pos (d.price * 100);
  old_price_kopek = if i % 3 == 0 then some (pos ((d.price + d.price / 3) * 100)) else none;
  currency = codes "RUB";
  partner_id = partner.id;
  product_url = codes "https://example.com/product/" ++ to_string (pos (i + 1));
  campaign = [];
  status = published;
  score = d.score;
  images = [];
  tags = [];
  sizes = [];
  colors = [];
  created_at = now;
  updated_at = now;
  published_at = some now;
}

-- The loop over the tags: none is an exception.
unfoldable pub attach_tags : ℤ → List (ℕ × ℤ) → Shelf → Option Shelf
attach_tags id [] s = some s
attach_tags id ((k, key) ∷ tags) s =
    let slug = pick [] slugs k in
    let (named, tag) = upsert_tag key slug slug s in
    elim (attach_tag id tag named) [ none ↦ none | some s' ↦ attach_tags id tags s' ]

abbrev pub has_size : ℤ → Bytes → List (ℤ × Bytes) → Bool
has_size id size rows = any (λ r. r.0 == id && r.1 == size) rows

-- `INSERT OR IGNORE INTO item_sizes`, for each size that is drawn; a row of an item that is not there
-- is refused.
unfoldable pub insert_sizes : ℤ → List ℕ → Stock → Option Stock
unfolding has_item
insert_sizes id [] s = some s
insert_sizes id (k ∷ more) s =
    let size = pick [] sizes k in
    let known = insert_sizes id more s in
    let added = insert_sizes id more (record s { item_sizes = s.item_sizes ++ (id, size) ∷ [] }) in
    if has_size id size s.item_sizes then known else if has_item id s.shelf then added else none

abbrev pub has_color : ℤ → Bytes → List (ℤ × Color) → Bool
has_color id name rows = any (λ r. r.0 == id && r.1.name == name) rows

-- `INSERT OR IGNORE INTO item_colors`
unfoldable pub insert_color : ℤ → Color → Stock → Option Stock
unfolding has_item
insert_color id c s =
    if has_color id c.name s.item_colors
    then some s
    else if has_item id s.shelf
    then some (record s { item_colors = s.item_colors ++ (id, c) ∷ [] })
    else none

-- The tile that is drawn for the title.
unfoldable pub placeholder : Draw → Image
placeholder d =
    let path = codes "placeholder/" ++ (to_string (pos (d.kind + 1)) ++ codes ".svg") in
    record {
      id = pos 0;
      path = path;
      thumb_path = path;
      width = pos 600;
      height = pos 800;
      sort_order = pos 0;
    }

infixl 5 ◌>>=◌
abbrev pub ◌>>=◌ {ℓ κ} : {A : Type ℓ} {B : Type κ} → Option A → (A → Option B) → Option B
none >>= f = none
some a >>= f = f a

abbrev pub on_shelf : Stock → Option Shelf → Option Stock
on_shelf s none = none
on_shelf s (some shelf) = some (record s { shelf = shelf })

-- The statements of one round of the loop: none is an exception.
unfoldable pub seed_rows : TsMs → Partner → ℕ → Draw → Stock → Option Stock
unfolding seed_item attach_tags insert_sizes insert_color placeholder
seed_rows now partner i d s = do
  (shelf, id) ← insert_item d.item_key (seed_item now partner i d) s.shelf
  tagged ← on_shelf (record s { shelf = shelf }) (attach_tags id d.tags shelf)
  sized ← insert_sizes id d.sizes tagged
  colored ← insert_color id (pick (record { name = []; hex = [] }) colors d.color) sized
  on_shelf colored (add_image d.image_key id (placeholder d) colored.shelf)

unfoldable pub seed_one : TsMs → Partner → ℕ → Draw → Stock → Option Stock
unfolding seed_rows
seed_one now partner i d s = if d.refused then none else seed_rows now partner i d s

-- The loop, from round `i`, for `count` rounds.
unfoldable pub seed_from : TsMs → Partner → (ℕ → Draw) → ℕ → ℕ → Stock → Option Stock
unfolding seed_one
seed_from now partner draws zero i s = some s
seed_from now partner draws (suc count) i s = elim (seed_one now partner i (draws i) s) [
  | none ↦ none
  | some s' ↦ seed_from now partner draws count (i + 1) s'
]

abbrev pub rounds_of : ℤ → ℕ
rounds_of (pos n) = n
rounds_of (negsuc n) = 0

-- What sqlite says to `BEGIN;` and `COMMIT;`.
pub record Transaction : Type 0 where
  pub begins : Bool
  pub commits : Bool

abbrev pub commit : Bool → Stock → Option Stock → Stock × Option ℕ
commit commits s none = (s, none)
commit commits s (some s') = if commits then (s', some 0) else (s, none)

-- `cmd_seed`: the tables, and the exit status, or none if it threw. An exception closes the connection,
-- which rolls the transaction back.
unfoldable pub cmd_seed : TsMs → Transaction → (ℕ → Draw) → ℤ → Stock → Stock × Option ℕ
unfolding seed_from
cmd_seed now tr draws count s = elim (find_partner_by_code (codes "direct") s.shelf) [
  | none ↦ (s, some 1)
  | some partner ↦
      if tr.begins
      then commit tr.commits s (seed_from now partner draws (rounds_of count) 0 s)
      else (s, none)
]
