-- ===== src/Catalog/Tags.antt =====
-- The tag list of a snapshot: sorted, with no tag twice, and complete.
use s_size_store.Prelude.{
  ◌≡◌, ◌∙◌, refl, Bool, true, false, ◌||◌, List, [], ◌∷◌, arith, All, any, ◌==◌, ==_iff, list_eq,
  nat_eq,
}
use s_size_store.Bytes.{Bytes}
use s_size_store.Models.{Item, Partner, TsMs}
use s_size_store.Catalog.{
  less, set_insert, insert_tags, collect_tags, build, insert_sorted, stable_sort,
}

-- Each tag strictly before all that follow.
abbrev pub IsTagSet : List Bytes → Type 0
IsTagSet [] = Unit
IsTagSet (t ∷ tags) = All (λ u. less t u ≡ true) tags × IsTagSet tags

less_trans : (s t u : Bytes) → less s t ≡ true → less t u ≡ true → less s u ≡ true
unfolding less
less_trans s t [] p q = cc
less_trans s [] (e ∷ u) p q = cc
less_trans [] (d ∷ t) (e ∷ u) p q = refl
less_trans (c ∷ s) (d ∷ t) (e ∷ u) p q = ground (arith, less_trans s t u)

-- Of two tags that are not ordered either way, both are one.
less_total : (s t : Bytes) → less s t ≡ false → less t s ≡ false → s ≡ t
unfolding less
less_total [] [] p q = refl
less_total [] (d ∷ t) p q = ground arith
less_total (c ∷ s) [] p q = ground arith
less_total (c ∷ s) (d ∷ t) p q = ground (arith, less_total s t)

set_insert-All :
    (u t : Bytes) (tags : List Bytes)
    → less u t ≡ true
    → All (λ v. less u v ≡ true) tags
    → All (λ v. less u v ≡ true) (set_insert t tags)
unfolding set_insert
set_insert-All u t [] p h = (p, tt)
set_insert-All u t (v ∷ tags) p (hv, h) = ground (arith, set_insert-All u t tags p h)

All-less_trans :
    (t u : Bytes) (tags : List Bytes)
    → less t u ≡ true
    → All (λ v. less u v ≡ true) tags
    → All (λ v. less t v ≡ true) tags
All-less_trans t u [] p h = tt
All-less_trans t u (v ∷ tags) p (hv, h) = (less_trans t u v p hv, All-less_trans t u tags p h)

set_insert-IsTagSet : (t : Bytes) (tags : List Bytes) → IsTagSet tags → IsTagSet (set_insert t tags)
unfolding set_insert
set_insert-IsTagSet t [] h = (tt, tt)
set_insert-IsTagSet t (u ∷ tags) (hu, h) =
    ground (arith, set_insert-IsTagSet t tags h, set_insert-All u t tags, All-less_trans t u tags)

insert_tags-IsTagSet : (ts tags : List Bytes) → IsTagSet tags → IsTagSet (insert_tags ts tags)
unfolding insert_tags
insert_tags-IsTagSet [] tags h = h
insert_tags-IsTagSet (t ∷ ts) tags h =
    insert_tags-IsTagSet ts (set_insert t tags) (set_insert-IsTagSet t tags h)

collect_tags-IsTagSet :
    (items : List Item) (tags : List Bytes) → IsTagSet tags → IsTagSet (collect_tags items tags)
unfolding collect_tags
collect_tags-IsTagSet [] tags h = h
collect_tags-IsTagSet (it ∷ items) tags h =
    collect_tags-IsTagSet items (insert_tags it.tags tags) (insert_tags-IsTagSet it.tags tags h)

-- `t` is among the tags.
abbrev pub has : Bytes → List Bytes → Bool
has t tags = any (λ u. u == t) tags

has-set_insert :
    (t u : Bytes) (tags : List Bytes) → has t (set_insert u tags) ≡ ((u == t) || has t tags)
unfolding set_insert
has-set_insert t u [] = refl
has-set_insert t u (v ∷ tags) =
    ground (arith, has-set_insert t u tags, less_total u v, ==_iff u t, ==_iff v t)

has-insert_tags :
    (t : Bytes) (ts tags : List Bytes) → has t (insert_tags ts tags) ≡ (has t ts || has t tags)
unfolding insert_tags
has-insert_tags t [] tags = refl
has-insert_tags t (u ∷ ts) tags =
    has-insert_tags t ts (set_insert u tags) ∙ ground (arith, has-set_insert t u tags)

abbrev is_tagged : Bytes → Item → Bool
is_tagged t it = has t it.tags

has-collect_tags :
    (t : Bytes) (items : List Item) (tags : List Bytes)
    → has t (collect_tags items tags) ≡ (any (is_tagged t) items || has t tags)
unfolding collect_tags
has-collect_tags t [] tags = refl
has-collect_tags t (it ∷ items) tags =
    has-collect_tags t items (insert_tags it.tags tags)
    ∙ ground (arith, has-insert_tags t it.tags tags)

any-insert_sorted :
    (p : Item → Bool) (a : Item) (items : List Item)
    → any p (insert_sorted a items) ≡ any p (a ∷ items)
unfolding insert_sorted
any-insert_sorted p a [] = refl
any-insert_sorted p a (b ∷ items) = ground (arith, any-insert_sorted p a items)

any-stable_sort : (p : Item → Bool) (items : List Item) → any p (stable_sort items) ≡ any p items
unfolding stable_sort
any-stable_sort p [] = refl
any-stable_sort p (a ∷ items) =
    any-insert_sorted p a (stable_sort items) ∙ ground (arith, any-stable_sort p items)

-- The tag list of a snapshot is strictly increasing, so no tag stands in it twice, and it holds
-- exactly the tags of the items that the snapshot was built from.
pub build-all_tags :
    (items : List Item) (partners : List Partner) (now : TsMs)
    → IsTagSet (build items partners now).all_tags
      × ((t : Bytes) → has t (build items partners now).all_tags ≡ any (λ it. has t it.tags) items)
unfolding build
build-all_tags items partners now = (
  collect_tags-IsTagSet (stable_sort items) [] tt,
  λ t.
      has-collect_tags t (stable_sort items) []
      ∙ ground (arith, any-stable_sort (is_tagged t) items),
)
