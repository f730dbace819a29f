-- ===== src/Handlers/Feed/Keys.antt =====
-- What a key of the cache determines.
use s_size_store.Prelude.{
  ℕ, ◌≡◌, ◌≢◌, refl, [], ◌∷◌, ◌++◌, arith, All-append_right, list_eq, nat_eq,
}
use s_size_store.Bytes.{Bytes, Lacks}
use s_size_store.Handlers.Feed.{cache_key}

-- The byte that separates the two parts of a key.
abbrev pub separator : ℕ
separator = 0x1F

-- A key determines two parts that are free of the separator, whatever the parts of the other key.
pub cache_key_injective :
    (tag size tag' size' : Bytes)
    → Lacks separator tag
    → Lacks separator size
    → cache_key tag' size' ≡ cache_key tag size
    → (tag' ≡ tag) × (size' ≡ size)
unfolding cache_key
cache_key_injective [] size [] size' ht hs e = ground arith
cache_key_injective [] size (c ∷ tag') size' ht hs e =
    let behind : tag' ++ separator ∷ size' ≡ size = ground arith in
    let lacks : Lacks separator (tag' ++ separator ∷ size') = rw behind hs in
    absurd ((All-append_right (λ c. c ≢ separator) tag' (separator ∷ size') lacks).0 refl)
cache_key_injective (c ∷ tag) size [] size' (hc, ht) hs e = ground arith
cache_key_injective (c ∷ tag) size (d ∷ tag') size' (hc, ht) hs e =
    ground (arith, cache_key_injective tag size tag' size' ht hs)
