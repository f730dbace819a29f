-- ===== src/Links/Token.antt =====
-- Click tokens: their length, their alphabet, and that they survive as a query parameter.
use s_size_store.Prelude.{
  ℕ, ◌%◌, ◌≡◌, refl, true, [], ◌∷◌, arith, All, length, each_below, each_below_at, ap, suc,
}
use s_size_store.Bytes.{Bytes}
use s_size_store.Links.{is_unreserved, token_char, make_click_token, url_encode}
use s_size_store.Links.Encode.{url_encode_of_unreserved}

token_char-table : each_below (λ b. is_unreserved (token_char b)) 62 ≡ true
unfolding each_below is_unreserved token_char
token_char-table = refl

token_char-mod : (b : ℕ) → token_char b ≡ token_char (b % 62)
unfolding token_char
token_char-mod b = let e : b % 62 % 62 ≡ b % 62 = omega arith in rw e refl

token_char-unreserved : (b : ℕ) → is_unreserved (token_char b) ≡ true
token_char-unreserved b =
    rw token_char-mod
      (each_below_at (λ b. is_unreserved (token_char b)) 62 (b % 62) (omega arith) token_char-table)

pub make_click_token-unreserved :
    (raw : Bytes) → All (λ c. is_unreserved c ≡ true) (make_click_token raw)
unfolding make_click_token
make_click_token-unreserved [] = tt
make_click_token-unreserved (b ∷ raw) = (token_char-unreserved b, make_click_token-unreserved raw)

pub length-make_click_token : (raw : Bytes) → length (make_click_token raw) ≡ length raw
unfolding make_click_token
length-make_click_token [] = refl
length-make_click_token (b ∷ raw) = ap suc (length-make_click_token raw)

-- Whatever the random bytes, a token has one character for each, and is its own percent-encoding.
pub make_click_token_survives :
    (raw : Bytes)
    → (length (make_click_token raw) ≡ length raw)
      × (url_encode (make_click_token raw) ≡ make_click_token raw)
make_click_token_survives raw =
    (length-make_click_token raw, url_encode_of_unreserved _ (make_click_token-unreserved raw))
