-- ===== src/Query/Cookies.antt =====
-- `cookie_value` on a Cookie header.
use s_size_store.Prelude.{
  ℕ, zero, suc, ◌≤◌, ◌≡◌, ◌≢◌, ◌∙◌, refl, ap, List, [], ◌∷◌, ◌++◌, Option, none, some, arith, All,
  length, length-append, nat_eq, list_eq, lookup, if◌then◌else◌, ◌==◌, ==_iff, All-append,
  append_assoc,
}
use s_size_store.Bytes.{Bytes, Lacks}
use s_size_store.Bytes.Cut.{cut_of_Lacks, cut-append}
use s_size_store.Query.{skip_blanks, cookie_in, cookie_from, cookie_value}

-- A pair that a browser sends: a name with no `=`, `;` or blank in it, and a value with no `;`.
abbrev pub IsCookie : Bytes × Bytes → Type 0
IsCookie p = Lacks b'=' p.0 × Lacks b';' p.0 × Lacks b' ' p.0 × Lacks b';' p.1

abbrev pub print_pair : Bytes × Bytes → Bytes
print_pair (k, v) = k ++ b'=' ∷ v

-- The header: the pairs with a semicolon and a blank between each two.
unfoldable pub print_cookies : List (Bytes × Bytes) → Bytes
print_cookies [] = []
print_cookies (p ∷ []) = print_pair p
print_cookies (p ∷ q ∷ ps) = print_pair p ++ b';' ∷ b' ' ∷ print_cookies (q ∷ ps)

abbrev pub or_nothing : Option Bytes → Bytes
or_nothing none = []
or_nothing (some v) = v

pair-Lacks : (p : Bytes × Bytes) → IsCookie p → Lacks b';' (print_pair p)
pair-Lacks (k, v) (_, hk, _, hv) = All-append (λ c. c ≢ b';') k (b'=' ∷ v) hk (ground arith, hv)

cookie_in-pair :
    (name k v : Bytes)
    → Lacks b'=' k
    → cookie_in name (k ++ b'=' ∷ v) ≡ (if k == name then some v else none)
unfolding cookie_in
cookie_in-pair name k v h = ground (arith, cut-append b'=' k v h)

-- Blanks are skipped in front of a pair, and a pair begins with none.
skip-pair :
    (k s : Bytes) → Lacks b';' k → Lacks b' ' k → skip_blanks (k ++ b'=' ∷ s) ≡ k ++ b'=' ∷ s
unfolding skip_blanks
skip-pair [] s h g = refl
skip-pair (c ∷ k) s (hc, _) (gc, _) = ground (arith, ==_iff c b' ', ==_iff c b';')

skip-print :
    (ps : List (Bytes × Bytes))
    → All IsCookie ps
    → skip_blanks (print_cookies ps) ≡ print_cookies ps
unfolding print_cookies
skip-print [] h = unfold skip_blanks in refl
skip-print ((k, v) ∷ []) ((_, hk, gk, _), _) = skip-pair k v hk gk
skip-print ((k, v) ∷ q ∷ ps) ((_, hk, gk, _), _) =
    rw (append_assoc k (b'=' ∷ v) (b';' ∷ b' ' ∷ print_cookies (q ∷ ps)))
      (skip-pair k (v ++ b';' ∷ b' ' ∷ print_cookies (q ∷ ps)) hk gk)

length-skip_blanks : (s : Bytes) → length (skip_blanks s) ≤ length s
unfolding skip_blanks
length-skip_blanks [] = omega arith
length-skip_blanks (c ∷ s) = ground (arith, length-skip_blanks s)

abbrev found_or : Option Bytes → Bytes → Bytes
found_or none other = other
found_or (some v) other = v

module _ (name : Bytes) where
  cookie_from-last :
      (f : ℕ) (h p : Bytes)
      → h ≢ []
      → skip_blanks h ≡ p
      → Lacks b';' p
      → cookie_from (suc f) h name ≡ or_nothing (cookie_in name p)
  unfolding cookie_from
  cookie_from-last f [] p ne e lacks = absurd (ne refl)
  cookie_from-last f (c ∷ h) p ne e lacks = ground (arith, cut_of_Lacks b';' p lacks)

  cookie_from-more :
      (f : ℕ) (h p rest : Bytes)
      → h ≢ []
      → skip_blanks h ≡ p ++ b';' ∷ rest
      → Lacks b';' p
      → cookie_from (suc f) h name ≡ found_or (cookie_in name p) (cookie_from f rest name)
  unfolding cookie_from
  cookie_from-more f [] p rest ne e lacks = absurd (ne refl)
  cookie_from-more f (c ∷ h) p rest ne e lacks = ground (arith, cut-append b';' p rest lacks)

  cookie_from-print :
      (p : Bytes × Bytes) (ps : List (Bytes × Bytes)) (f : ℕ) (h : Bytes)
      → All IsCookie (p ∷ ps)
      → h ≢ []
      → skip_blanks h ≡ print_cookies (p ∷ ps)
      → length h ≤ f
      → cookie_from f h name ≡ or_nothing (lookup name (p ∷ ps))
  unfolding print_cookies
  cookie_from-print p ps f [] ok ne e fits = absurd (ne refl)
  cookie_from-print p ps zero (c ∷ h) ok ne e fits = absurd (omega arith)
  cookie_from-print (k, v) [] (suc f) (c ∷ h) (ok, _) ne e fits =
      cookie_from-last f (c ∷ h) (print_pair (k, v)) ne e (pair-Lacks (k, v) ok)
      ∙ ground (arith, cookie_in-pair name k v ok.0)
  cookie_from-print (k, v) (q ∷ ps) (suc f) (c ∷ h) (ok, oks) ne e fits =
      let rest = b' ' ∷ print_cookies (q ∷ ps) in
      let shorter : length rest ≤ f = omega (
        arith,
        ap (λ (s : Bytes). length s) e,
        length-skip_blanks (c ∷ h),
        length-append (print_pair (k, v)) (b';' ∷ rest),
      ) in
      cookie_from-more f (c ∷ h) (print_pair (k, v)) rest ne e (pair-Lacks (k, v) ok)
      ∙ ground (
        arith,
        cookie_in-pair name k v ok.0,
        cookie_from-print q ps f rest oks (cc) (unfold skip_blanks in skip-print (q ∷ ps) oks)
            shorter,
      )

print_cookies-ne-nil : (p : Bytes × Bytes) (ps : List (Bytes × Bytes)) → print_cookies (p ∷ ps) ≢ []
unfolding print_cookies
print_cookies-ne-nil ([], v) [] = cc
print_cookies-ne-nil (c ∷ k, v) [] = cc
print_cookies-ne-nil ([], v) (q ∷ ps) = cc
print_cookies-ne-nil (c ∷ k, v) (q ∷ ps) = cc

-- From a header as a browser writes it (names without `=`, `;` and blanks, values without `;`), the
-- value of the first cookie of exactly that name is read; the result is empty if no cookie has the
-- name. A name that only ends like it never matches.
pub cookie_value-print_cookies :
    (ps : List (Bytes × Bytes)) (name : Bytes)
    → All IsCookie ps
    → cookie_value (print_cookies ps) name ≡ or_nothing (lookup name ps)
unfolding cookie_value
cookie_value-print_cookies [] name h = unfold print_cookies cookie_from in refl
cookie_value-print_cookies (p ∷ ps) name h =
    cookie_from-print name p ps (length (print_cookies (p ∷ ps))) (print_cookies (p ∷ ps)) h
      (print_cookies-ne-nil p ps) (skip-print (p ∷ ps) h) (omega arith)
