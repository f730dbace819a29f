-- ===== src/Query/Split.antt =====
-- Where `split_target` divides a request target.
use s_size_store.Prelude.{◌≡◌, [], ◌∷◌, ◌++◌, arith}
use s_size_store.Bytes.{Bytes, Lacks}
use s_size_store.Bytes.Cut.{cut-append, cut_of_Lacks}
use s_size_store.Query.{split_target}

-- A target is cut at its first question mark: the path stands before it, the query is all that
-- follows.
pub split_target_with :
    (p q : Bytes) → Lacks b'?' p → split_target (p ++ b'?' ∷ q) ≡ record { path = p; query = q }
unfolding split_target
split_target_with p q h = ground (arith, cut-append b'?' p q h)

-- A target without a question mark is all path.
pub split_target_without :
    (p : Bytes) → Lacks b'?' p → split_target p ≡ record { path = p; query = [] }
unfolding split_target
split_target_without p h = ground (arith, cut_of_Lacks b'?' p h)
