-- ===== src/Query/Decode.antt =====
-- `url_decode` undoes `url_encode`.
use s_size_store.Prelude.{
  ℕ, ◌+◌, ◌*◌, ◌/◌, ◌%◌, ◌<◌, ◌≡◌, ◌≢◌, refl, ap, true, some, [], ◌∷◌, ◌++◌, arith, All, Bool-cases,
  inl, inr, nat_eq, ==_iff, ◌∙◌, append_assoc, append-nil, sym,
}
use s_size_store.Bytes.{Bytes, IsByte}
use s_size_store.Links.{is_unreserved, hex_digit, encode_byte, url_encode}
use s_size_store.Query.{hex, url_decode}

hex-hex_digit : (v : ℕ) → v < 16 → hex (hex_digit v) ≡ some v
unfolding hex hex_digit
hex-hex_digit v h = ground arith

-- A byte that is no sign of the encoding is copied.
url_decode-plain : (c : ℕ) (s : Bytes) → c ≢ b'+' → c ≢ b'%' → url_decode (c ∷ s) ≡ c ∷ url_decode s
unfolding url_decode
url_decode-plain c [] p q = ground (arith, ==_iff c b'+')
url_decode-plain c (d ∷ []) p q = ground (arith, ==_iff c b'+')
url_decode-plain c (d ∷ e ∷ s) p q = ground (arith, ==_iff c b'+', ==_iff c b'%')

url_decode-escape :
    (hi lo : ℕ) (s : Bytes)
    → hi < 16
    → lo < 16
    → url_decode (b'%' ∷ hex_digit hi ∷ hex_digit lo ∷ s) ≡ (hi * 16 + lo) ∷ url_decode s
unfolding url_decode
url_decode-escape hi lo s p q = ground (arith, hex-hex_digit hi, hex-hex_digit lo)

unreserved-ne : (c : ℕ) → is_unreserved c ≡ true → (c ≢ b'+') × (c ≢ b'%')
unfolding is_unreserved
unreserved-ne c h = ground arith

decode-encode_byte :
    (c : ℕ) (s : Bytes) → IsByte c → url_decode (encode_byte c ++ s) ≡ c ∷ url_decode s
unfolding encode_byte
decode-encode_byte c s h = elim (Bool-cases (is_unreserved c)) [
  | inl plain ↦
      let (p, q) = unreserved-ne c plain in ground (arith, plain, url_decode-plain c s p q)
  | inr other ↦
      ground (arith, other, url_decode-escape (c / 16) (c % 16) s (omega arith) (omega arith))
]

pub decode-encode-append :
    (s r : Bytes) → All IsByte s → url_decode (url_encode s ++ r) ≡ s ++ url_decode r
unfolding url_encode
decode-encode-append [] r h = refl
decode-encode-append (c ∷ s) r (hc, hs) =
    rw append_assoc
      (decode-encode_byte c (url_encode s ++ r) hc ∙ ap (λ t. c ∷ t) (decode-encode-append s r hs))

-- Every text of bytes is read back from its percent-encoding.
pub url_decode-url_encode : (s : Bytes) → All IsByte s → url_decode (url_encode s) ≡ s
unfolding url_decode
url_decode-url_encode s h =
    ap url_decode (sym (append-nil (url_encode s))) ∙ decode-encode-append s [] h ∙ append-nil s
