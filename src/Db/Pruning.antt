-- ===== src/Db/Pruning.antt =====
-- The unique index when old events are deleted.
use s_size_store.Prelude.{
  ◌≡◌, true, false, Bool, not, ◌&&◌, ◌||◌, List, [], ◌∷◌, ◌++◌, arith, any, filter, Bool-cases, inl,
  inr, list_eq, nat_eq, ltb_ℤ,
}
use s_size_store.Bytes.{Bytes, is_empty}
use s_size_store.Models.{Event, TsMs}
use s_size_store.Db.{Tables, has_token, prune_events}
use s_size_store.Db.Batches.{IsTokenSet}

pub any-append {ℓ} :
    {A : Type ℓ} (p : A → Bool) (xs ys : List A) → any p (xs ++ ys) ≡ (any p xs || any p ys)
any-append p [] ys = ground arith
any-append p (x ∷ xs) ys = ground (arith, any-append p xs ys)

-- Every token of some rows is a token of others.
abbrev Within : List Event → List Event → Type 0
Within xs ys = (token : Bytes) → any (has_token token) xs ≡ true → any (has_token token) ys ≡ true

Within-keep :
    (ev : Event) (xs ys : List Event) → Within xs ys → Within (xs ++ ev ∷ []) (ys ++ ev ∷ [])
Within-keep ev xs ys h token e = ground (
  arith,
  h token,
  any-append (has_token token) xs (ev ∷ []),
  any-append (has_token token) ys (ev ∷ []),
)

Within-skip : (ev : Event) (xs ys : List Event) → Within xs ys → Within xs (ys ++ ev ∷ [])
Within-skip ev xs ys h token e = ground (arith, h token, any-append (has_token token) ys (ev ∷ []))

unused_if :
    (token : Bytes) (xs ys : List Event)
    → Within xs ys
    → (not (is_empty token) && any (has_token token) ys) ≡ false
    → (not (is_empty token) && any (has_token token) xs) ≡ false
unused_if token xs ys h e = ground (arith, h token)

filter-IsTokenSet :
    (keep : Event → Bool) (seen' seen evs : List Event)
    → Within seen' seen
    → IsTokenSet seen evs
    → IsTokenSet seen' (filter keep evs)
filter-IsTokenSet keep seen' seen [] h t = tt
filter-IsTokenSet keep seen' seen (ev ∷ evs) h (unused, t) = elim (Bool-cases (keep ev)) [
  | inl kept ↦
      rw (kept, filter)
        (
          unused_if ev.click_token seen' seen h unused,
          filter-IsTokenSet keep (seen' ++ ev ∷ []) (seen ++ ev ∷ []) evs
              (Within-keep ev seen' seen h) t,
        )
  | inr gone ↦
      rw (gone, filter)
        (filter-IsTokenSet keep seen' (seen ++ ev ∷ []) evs (Within-skip ev seen' seen h) t)
]

-- Deleting old events keeps the unique index on the tokens.
pub prune_events-IsTokenSet :
    (older_than : TsMs) (t : Tables)
    → IsTokenSet [] t.events
    → IsTokenSet [] (prune_events older_than t).events
unfolding prune_events
prune_events-IsTokenSet older_than t h =
    filter-IsTokenSet (λ ev. not (ltb_ℤ ev.ts older_than)) [] [] t.events (λ token e. e) h
