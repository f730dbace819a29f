-- ===== src/Bytes/Find.antt =====
-- What `starts_with` and `contains` answer, in terms of concatenation.
use s_size_store.Prelude.{
  ◌≡◌, refl, true, none, some, [], ◌∷◌, ◌++◌, ==_refl, ==_iff, arith, nat_eq, Option,
}
use s_size_store.Bytes.{Bytes, strip_prefix, starts_with}

pub strip_prefix-append : (p s : Bytes) → strip_prefix p (p ++ s) ≡ some s
strip_prefix-append [] s = refl
strip_prefix-append (c ∷ p) s = ground (arith, ==_refl c, strip_prefix-append p s)

pub append_of_strip_prefix : (p s r : Bytes) → strip_prefix p s ≡ some r → s ≡ p ++ r
append_of_strip_prefix [] s r h = ground arith
append_of_strip_prefix (c ∷ p) [] r h = ground arith
append_of_strip_prefix (c ∷ p) (d ∷ s) r h =
    ground (arith, ==_iff c d, append_of_strip_prefix p s r)

pub starts_with_sound : (s p : Bytes) → starts_with s p ≡ true → (r : Bytes) × (s ≡ p ++ r)
starts_with_sound s p h = go (strip_prefix p s) refl h
  where
    go :
        (o : Option Bytes)
        → strip_prefix p s ≡ o
        → starts_with s p ≡ true
        → (r : Bytes) × (s ≡ p ++ r)
    go none e h = ground arith
    go (some r) e h = (r, append_of_strip_prefix p s r e)
