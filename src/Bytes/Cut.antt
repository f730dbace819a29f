-- ===== src/Bytes/Cut.antt =====
-- Where `cut` divides a text.
use s_size_store.Prelude.{
  ℕ, ◌<◌, ◌≡◌, refl, none, some, [], ◌∷◌, ◌++◌, ==_refl, ==_iff, arith, length, nat_eq,
}
use s_size_store.Bytes.{Bytes, cut, Lacks}

-- A text with no such byte is left whole.
pub cut_of_Lacks : (b : ℕ) (s : Bytes) → Lacks b s → cut b s ≡ (s, none)
unfolding cut
cut_of_Lacks b [] h = refl
cut_of_Lacks b (c ∷ s) (hc, hs) = ground (arith, cut_of_Lacks b s hs, ==_iff c b)

-- The first occurrence is where the text is divided.
pub cut-append : (b : ℕ) (s r : Bytes) → Lacks b s → cut b (s ++ b ∷ r) ≡ (s, some r)
unfolding cut
cut-append b [] r h = ground (arith, ==_refl b)
cut-append b (c ∷ s) r (hc, hs) = ground (arith, cut-append b s r hs, ==_iff c b)

-- The part before the byte never holds it.
pub cut-Lacks : (b : ℕ) (s : Bytes) → Lacks b (cut b s).0
unfolding cut
cut-Lacks b [] = tt
cut-Lacks b (c ∷ s) = ground (arith, cut-Lacks b s, ==_iff c b)

pub append_of_cut : (b : ℕ) (s p r : Bytes) → cut b s ≡ (p, some r) → s ≡ p ++ b ∷ r
unfolding cut
append_of_cut b [] p r h = ground arith
append_of_cut b (c ∷ s) p r h = ground (arith, ==_iff c b, append_of_cut b s (cut b s).0 r)

pub eq_of_cut-none : (b : ℕ) (s p : Bytes) → cut b s ≡ (p, none) → s ≡ p
unfolding cut
eq_of_cut-none b [] p h = ground arith
eq_of_cut-none b (c ∷ s) p h = ground (arith, ==_iff c b, eq_of_cut-none b s (cut b s).0)

-- What follows the byte is shorter than the text.
pub cut-length-lt : (b : ℕ) (s p r : Bytes) → cut b s ≡ (p, some r) → length r < length s
unfolding cut
cut-length-lt b [] p r h = ground arith
cut-length-lt b (c ∷ s) p r h = ground (arith, cut-length-lt b s (cut b s).0 r)
