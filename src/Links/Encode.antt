-- ===== src/Links/Encode.antt =====
-- What `url_encode` writes.
use s_size_store.Prelude.{
  ℕ, ◌*◌, ◌/◌, ◌%◌, ◌≤◌, ◌<◌, ◌≡◌, ◌⊎◌, inl, inr, refl, ap, true, [], ◌∷◌, arith, All, All-append,
  length, length-append, Bool-cases, nat_eq,
}
use s_size_store.Bytes.{Bytes, IsByte}
use s_size_store.Links.{is_unreserved, hex_digit, encode_byte, url_encode}

-- A byte that a query parameter can hold: unreserved, or the mark of an escape.
abbrev pub IsQuerySafe : ℕ → Type 0
IsQuerySafe c = (is_unreserved c ≡ true) ⊎ (c ≡ b'%')

pub hex_digit-unreserved : (v : ℕ) → v < 16 → is_unreserved (hex_digit v) ≡ true
unfolding is_unreserved hex_digit
hex_digit-unreserved v h = ground arith

encode_byte-IsQuerySafe : (c : ℕ) → IsByte c → All IsQuerySafe (encode_byte c)
unfolding encode_byte
encode_byte-IsQuerySafe c h = elim (Bool-cases (is_unreserved c)) [
  | inl plain ↦ rw (plain, encode_byte) (inl plain, tt)
  | inr other ↦
      rw (other, encode_byte)
        (
          inr refl,
          (
            inl (hex_digit-unreserved (c / 16) (omega arith)),
            (inl (hex_digit-unreserved (c % 16) (omega arith)), tt),
          ),
        )
]

-- Every byte of an encoded text is unreserved or a percent sign, so none ends a query parameter.
pub url_encode-IsQuerySafe : (s : Bytes) → All IsByte s → All IsQuerySafe (url_encode s)
unfolding url_encode
url_encode-IsQuerySafe [] h = tt
url_encode-IsQuerySafe (c ∷ s) (hc, hs) =
    All-append IsQuerySafe (encode_byte c) (url_encode s) (encode_byte-IsQuerySafe c hc)
      (url_encode-IsQuerySafe s hs)

length-encode_byte : (c : ℕ) → length (encode_byte c) ≤ 3
unfolding encode_byte
length-encode_byte c = ground arith

-- The buffer that `render_link` reserves is enough for an encoded text.
pub length-url_encode : (s : Bytes) → length (url_encode s) ≤ 3 * length s
unfolding url_encode
length-url_encode [] = omega arith
length-url_encode (c ∷ s) =
    omega (
      arith,
      length-encode_byte c,
      length-url_encode s,
      length-append (encode_byte c) (url_encode s),
    )

-- An unreserved text is encoded as itself.
pub url_encode_of_unreserved : (s : Bytes) → All (λ c. is_unreserved c ≡ true) s → url_encode s ≡ s
unfolding url_encode encode_byte
url_encode_of_unreserved [] h = refl
url_encode_of_unreserved (c ∷ s) (hc, hs) =
    rw (hc, encode_byte) (ap (λ r. c ∷ r) (url_encode_of_unreserved s hs))
