-- ===== src/Admin/Rounds.antt =====
-- What the rounds of a seed add to the items.
use s_size_store.Prelude.{
  ℕ, ℤ, zero, suc, ◌+◌, ◌*◌, ◌%◌, ◌/◌, ◌≤◌, ◌<◌, pos, ◌≡◌, ◌∙◌, refl, ap, sym, true, false, Bool,
  List, [], ◌∷◌, ◌++◌, Option, none, some, arith, All, any, length, append_assoc, append-nil, ◌==◌,
  int_eq, nat_eq, list_eq, if◌then◌else◌,
}
use s_size_store.Models.{Item, Image, Partner, TsMs, published}
use s_size_store.Db.Items.{PartnerRow}
use s_size_store.Db.Admin.{Shelf, has_item, has_image, tagged}
use s_size_store.Admin.{
  Draw, Stock, seed_item, placeholder, ◌>>=◌, seed_rows, seed_one, seed_from, on_shelf,
}
use s_size_store.Admin.Rows.{
  has_item-shelved, attach_tags_ok, insert_sizes_ok, insert_color_ok, add_image_ok, insert_item_ok,
  has_item-insert, has_item-other, has_image-other, pictured, row_for, knows_partner,
}

bind_some {ℓ κ} :
    {A : Type ℓ} {B : Type κ} (m : Option A) (a : A) (f : A → Option B) {b : Option B}
    → m ≡ some a
    → f a ≡ b
    → (m >>= f) ≡ b
bind_some m a f e g = ap (λ o. o >>= f) e ∙ g

-- The rounds get keys of their own.
pub record AreDistinct (draws : ℕ → Draw) : Type 0 where
  pub items : (j k : ℕ) → j < k → ((draws j).item_key == (draws k).item_key) ≡ false
  pub images : (j k : ℕ) → j < k → ((draws j).image_key == (draws k).image_key) ≡ false

module _ (now : TsMs) (partner : Partner) where
  -- One round gives the items and the images one more row each at their ends.
  seed_rows_ok :
      (i : ℕ) (d : Draw) (s : Stock)
      → knows_partner partner.id s.shelf ≡ true
      → has_item d.item_key s.shelf ≡ false
      → has_image d.image_key s.shelf ≡ false
      → (s' : Stock) × (seed_rows now partner i d s ≡ some s')
        × (s'.shelf.items ≡ s.shelf.items ++ row_for d.item_key (seed_item now partner i d) ∷ [])
        × (s'.shelf.partners ≡ s.shelf.partners)
        × (s'.shelf.item_images
            ≡ (pictured d.image_key d.item_key (placeholder d) s.shelf).item_images)
  unfolding seed_rows seed_item
  seed_rows_ok i d s known new new_image =
      let key = d.item_key in
      let item = seed_item now partner i d in
      let shelf1 : Shelf = record (s.shelf) { items = s.shelf.items ++ row_for key item ∷ [] } in
      let item1 = has_item-insert key item s.shelf in
      let (shelf2, tagged, kept2) = attach_tags_ok key d.tags shelf1 item1 in
      let item2 = has_item-shelved key shelf1 shelf2 kept2 ∙ item1 in
      let (s3, sized, same3) = insert_sizes_ok key d.sizes (record s { shelf = shelf2 }) item2 in
      let item3 = ap (λ (sh : Shelf). has_item key sh) same3 ∙ item2 in
      let (s4, colored, same4) = insert_color_ok key _ s3 item3 in
      let item4 = ap (λ (sh : Shelf). has_item key sh) same4 ∙ item3 in
      let same = same4 ∙ same3 in
      let images = ap (λ (sh : Shelf). sh.item_images) same ∙ kept2.images in
      let picture = add_image_ok d.image_key key (placeholder d) s4.shelf item4 (
        ap (λ (rows : List (ℤ × Image)). any (λ r. r.1.id == d.image_key) rows) images
        ∙ new_image) in
      (
        record s4 { shelf = pictured d.image_key key (placeholder d) s4.shelf },
        bind_some _ _ _ (insert_item_ok key item s.shelf known new) (
            bind_some _ _ _ (ap (on_shelf (record s { shelf = shelf1 })) tagged)
              (bind_some _ _ _ sized (bind_some _ _ _ colored (ap (on_shelf s4) picture)))),
        ap (λ (sh : Shelf). sh.items) same ∙ kept2.items,
        ap (λ (sh : Shelf). sh.partners) same ∙ kept2.partners,
        ap
            (λ (rows : List (ℤ × Image)).
              rows ++ (key, record (placeholder d) { id = d.image_key }) ∷ [])
            images,
      )

  -- The rows that the rounds from `i` on give the items.
  pub planned : (ℕ → Draw) → ℕ → ℕ → List Item
  planned draws zero i = []
  planned draws (suc count) i =
      row_for (draws i).item_key (seed_item now partner i (draws i)) ∷ planned draws count (i + 1)

  seed_from-step :
      (draws : ℕ → Draw) (count i : ℕ) (s s' : Stock)
      → (draws i).refused ≡ false
      → seed_rows now partner i (draws i) s ≡ some s'
      → seed_from now partner draws (suc count) i s ≡ seed_from now partner draws count (i + 1) s'
  unfolding seed_from seed_one
  seed_from-step draws count i s s' allowed e = rw (allowed, seed_one, e, seed_from) refl

  -- The keys of the rounds from `i` on are new to the tables.
  pub record AreNew (draws : ℕ → Draw) (i : ℕ) (s : Shelf) : Type 0 where
    pub items : (k : ℕ) → i ≤ k → has_item (draws k).item_key s ≡ false
    pub images : (k : ℕ) → i ≤ k → has_image (draws k).image_key s ≡ false

  AreNew-later :
      (draws : ℕ → Draw) (i : ℕ) (s s' : Shelf)
      → AreDistinct draws
      → AreNew draws i s
      → s'.items ≡ s.items ++ row_for (draws i).item_key (seed_item now partner i (draws i)) ∷ []
      → s'.item_images
        ≡ (pictured (draws i).image_key (draws i).item_key (placeholder (draws i)) s).item_images
      → AreNew draws (i + 1) s'
  unfolding has_item
  AreNew-later draws i s s' distinct new items images = record {
    items = λ k later.
        ap (λ (rows : List Item). any (λ it. it.id == (draws k).item_key) rows) items
        ∙ has_item-other (draws k).item_key (draws i).item_key (seed_item now partner i (draws i)) s
            (new.items k (omega arith)) (distinct.items i k (omega arith));
    images = λ k later.
        ap (λ (rows : List (ℤ × Image)). any (λ r. r.1.id == (draws k).image_key) rows) images
        ∙ has_image-other (draws k).image_key (draws i).image_key (draws i).item_key
            (placeholder (draws i)) s (new.images k (omega arith))
            (distinct.images i k (omega arith));
  }

  pub seed_from_ok :
      (draws : ℕ → Draw) (count i : ℕ) (s : Stock)
      → knows_partner partner.id s.shelf ≡ true
      → ((k : ℕ) → (draws k).refused ≡ false)
      → AreDistinct draws
      → AreNew draws i s.shelf
      → (s' : Stock) × (seed_from now partner draws count i s ≡ some s')
        × (s'.shelf.items ≡ s.shelf.items ++ planned draws count i)
        × (s'.shelf.partners ≡ s.shelf.partners)
  unfolding seed_from planned
  seed_from_ok draws zero i s known allowed distinct new =
      (s, refl, sym (append-nil s.shelf.items), refl)
  seed_from_ok draws (suc count) i s known allowed distinct new =
      let (s1, first, items, partners, images) =
        seed_rows_ok i (draws i) s known (new.items i (omega arith)) (new.images i (omega arith)) in
      let (s2, rest, more, same) =
        seed_from_ok draws count (i + 1) s1
          (ap (λ (ps : List PartnerRow). any (λ p. p.id == partner.id) ps) partners ∙ known) allowed
          distinct (AreNew-later draws i s.shelf s1.shelf distinct new items images) in
      (
        s2,
        seed_from-step draws count i s s1 (allowed i) first ∙ rest,
        more
            ∙ ap (λ (its : List Item). its ++ planned draws count (i + 1)) items
            ∙ append_assoc s.shelf.items _ (planned draws count (i + 1)),
        same ∙ partners,
      )

-- A draw within the bounds of the distributions.
pub record IsDrawn (d : Draw) : Type 0 where
  pub price_from : 1500 ≤ d.price
  pub price_to : d.price ≤ 25000

-- What a demo item looks like in the shop: it is published, costs between 1500 and 25000 rubles, and
-- an old price, if it has one, is higher and within 32 bits.
pub record IsPlausible (it : Item) : Type 0 where
  pub price : ℕ
  pub of_price : it.price_kopek ≡ pos price
  pub price_from : 150000 ≤ price
  pub price_to : price ≤ 2500000
  pub dearer : (old : ℕ) → it.old_price_kopek ≡ some (pos old) → (price < old) × (old < 2147483648)
  pub shown : it.status ≡ published

old_price_dearer :
    (struck : Bool) (price old : ℕ)
    → 1500 ≤ price
    → price ≤ 25000
    → (if struck then some (pos ((price + price / 3) * 100)) else none) ≡ some (pos old)
    → (price * 100 < old) × (old < 2147483648)
old_price_dearer true price old low high e =
    let same : (price + price / 3) * 100 ≡ old = ground arith in omega (arith, same)
old_price_dearer false price old low high e = cc

pub planned-IsPlausible :
    (now : TsMs) (partner : Partner) (draws : ℕ → Draw) (count i : ℕ)
    → ((k : ℕ) → IsDrawn (draws k))
    → All IsPlausible (planned now partner draws count i)
unfolding planned seed_item
planned-IsPlausible now partner draws zero i drawn = tt
planned-IsPlausible now partner draws (suc count) i drawn =
    let d = drawn i in
    (
      record {
        price = (draws i).price * 100;
        of_price = refl;
        price_from = omega (arith, d.price_from);
        price_to = omega (arith, d.price_to);
        dearer =
            λ old e. old_price_dearer (i % 3 == 0) (draws i).price old d.price_from d.price_to e;
        shown = refl;
      },
      planned-IsPlausible now partner draws count (i + 1) drawn,
    )

pub length-planned :
    (now : TsMs) (partner : Partner) (draws : ℕ → Draw) (count i : ℕ)
    → length (planned now partner draws count i) ≡ count
unfolding planned
length-planned now partner draws zero i = refl
length-planned now partner draws (suc count) i =
    omega (arith, length-planned now partner draws count (i + 1))
