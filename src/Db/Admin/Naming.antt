-- ===== src/Db/Admin/Naming.antt =====
-- Naming a tag.
use s_size_store.Prelude.{
  ℤ, ◌≡◌, ◌∙◌, refl, sym, ap, arith, List, [], ◌∷◌, ◌++◌, none, some, ==_iff, int_eq, nat_eq,
  list_eq, Option-cases, inl, inr,
}
use s_size_store.Bytes.{Bytes}
use s_size_store.Db.Admin.{Shelf, TagRow, find_slug, upsert_tag}

find_slug-append :
    (slug : Bytes) (tags : List TagRow) (t : TagRow)
    → find_slug slug tags ≡ none
    → t.slug ≡ slug
    → find_slug slug (tags ++ t ∷ []) ≡ some t.id
unfolding find_slug
find_slug-append slug [] t h e = ground (arith, ==_iff t.slug slug)
find_slug-append slug (u ∷ tags) t h e = ground (arith, find_slug-append slug tags t)

upsert_tag_known :
    (fresh : ℤ) (slug title : Bytes) (s : Shelf) (id : ℤ)
    → find_slug slug s.tags ≡ some id
    → upsert_tag fresh slug title s ≡ (s, id)
unfolding upsert_tag
upsert_tag_known fresh slug title s id known = rw (known, upsert_tag) refl

-- The table with the new tag.
abbrev with_tag : ℤ → Bytes → Bytes → Shelf → Shelf
with_tag fresh slug title s = record s {
  tags = s.tags ++ record { id = fresh; slug = slug; title = title } ∷ [];
}

upsert_tag_new :
    (fresh : ℤ) (slug title : Bytes) (s : Shelf)
    → find_slug slug s.tags ≡ none
    → upsert_tag fresh slug title s ≡ (with_tag fresh slug title s, fresh)
unfolding upsert_tag
upsert_tag_new fresh slug title s new = rw (new, upsert_tag) refl

-- Naming a tag again, whatever title and key the second call has, changes nothing and answers the
-- key of the first call.
pub upsert_tag_again :
    (fresh fresh' : ℤ) (slug title title' : Bytes) (s : Shelf)
    → upsert_tag fresh' slug title' (upsert_tag fresh slug title s).0
      ≡ upsert_tag fresh slug title s
upsert_tag_again fresh fresh' slug title title' s = elim (Option-cases (find_slug slug s.tags)) [
  | inr (id, old) ↦
      let first = upsert_tag_known fresh slug title s id old in
      ap (λ (o : Shelf × ℤ). upsert_tag fresh' slug title' o.0) first
      ∙ upsert_tag_known fresh' slug title' s id old
      ∙ sym first
  | inl new ↦
      let first = upsert_tag_new fresh slug title s new in
      ap (λ (o : Shelf × ℤ). upsert_tag fresh' slug title' o.0) first
      ∙ upsert_tag_known fresh' slug title' (with_tag fresh slug title s) fresh (
          find_slug-append slug s.tags (record { id = fresh; slug = slug; title = title }) new refl)
      ∙ sym first
]
