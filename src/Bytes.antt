-- ===== src/Bytes.antt =====
-- `std::string` and `std::string_view` as lists of bytes, with the searches that the program makes.
pub mod Find
pub mod Cut
use Prim.Native.Char.{code}
use Prim.Native.String.{String}
use s_size_store.Prelude.{
  ℕ, ◌+◌, ◌<◌, ◌≢◌, ◌≡◌, Bool, true, false, ◌||◌, ◌&&◌, ◌/◌, ◌%◌, ◌*◌, List, [], ◌∷◌, ◌++◌, ltb,
  leb, ◌==◌, All, Option, none, some, if◌then◌else◌, refl, nat_eq,
}

abbrev pub Bytes : Type 0
Bytes = List ℕ

-- The bytes of an ASCII literal.
abbrev pub codes : String → Bytes
codes String.[] = []
codes (String.◌∷◌ c s) = code c ∷ codes s

-- The bytes of one code point in UTF-8.
abbrev utf8_point : ℕ → Bytes
utf8_point c =
    if ltb c 0x80
    then c ∷ []
    else if ltb c 0x800
    then (0xC0 + c / 64) ∷ (0x80 + c % 64) ∷ []
    else if ltb c 0x10000
    then (0xE0 + c / 4096) ∷ (0x80 + c / 64 % 64) ∷ (0x80 + c % 64) ∷ []
    else (0xF0 + c / 262144) ∷ (0x80 + c / 4096 % 64) ∷ (0x80 + c / 64 % 64) ∷ (0x80 + c % 64) ∷ []

-- The bytes of any literal, in the encoding of the source files.
abbrev pub utf8 : String → Bytes
utf8 String.[] = []
utf8 (String.◌∷◌ c s) = utf8_point (code c) ++ utf8 s

abbrev pub IsByte : ℕ → Type 0
IsByte c = c < 256

abbrev pub Lacks : ℕ → Bytes → Type 0
Lacks b = All (λ c. c ≢ b)

-- `s.empty()`
abbrev pub is_empty {ℓ} : {A : Type ℓ} → List A → Bool
is_empty [] = true
is_empty (_ ∷ _) = false

-- `s.starts_with(prefix)`, and what `remove_prefix` leaves.
abbrev pub strip_prefix : Bytes → Bytes → Option Bytes
strip_prefix [] s = some s
strip_prefix (p ∷ ps) [] = none
strip_prefix (p ∷ ps) (c ∷ s) = let rest = strip_prefix ps s in if p == c then rest else none

abbrev pub starts_with : Bytes → Bytes → Bool
starts_with s p = elim (strip_prefix p s) [ none ↦ false | some _ ↦ true ]

-- `s.find(pattern) != npos`
unfoldable pub contains : Bytes → Bytes → Bool
contains [] p = starts_with [] p
contains (c ∷ s) p = starts_with (c ∷ s) p || contains s p

-- `(s.substr(0, s.find(b)), what follows that byte)`: with no such byte `find` is `npos`, the first
-- part is the whole text, and nothing follows.
unfoldable pub cut : ℕ → Bytes → Bytes × Option Bytes
cut b [] = ([], none)
cut b (c ∷ s) =
    let (before, after) = cut b s in if c == b then ([], some s) else (c ∷ before, after)

-- What follows the first occurrence of a pattern: `s.substr(s.find(p) + p.size())`, unless `npos`.
unfoldable pub after_pattern : Bytes → Bytes → Option Bytes
after_pattern p [] = strip_prefix p []
after_pattern p (c ∷ s) =
    let later = after_pattern p s in
    elim (strip_prefix p (c ∷ s)) [ none ↦ later | some rest ↦ some rest ]
