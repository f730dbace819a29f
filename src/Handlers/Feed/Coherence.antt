-- ===== src/Handlers/Feed/Coherence.antt =====
-- The cache of rendered feeds shows no visitor anything but the page of the current snapshot.
use s_size_store.Prelude.{
  ℕ, ◌+◌, ◌≤◌, ◌≡◌, ◌≢◌, refl, Bool, true, false, List, [], ◌∷◌, Option, none, some, arith, All,
  length, lookup, emplace, list_eq, nat_eq, ==_iff, ◌==◌, Bool-cases, inl, inr, ltb,
}
use s_size_store.Bytes.{Bytes}
use s_size_store.Query.{Query}
use s_size_store.Catalog.{Catalog}
use s_size_store.Config.{Config}
use s_size_store.Handlers.{Library, CatalogPtr, Context, Outcome}
use s_size_store.Handlers.Feed.{
  render_feed, refresh_cache, cache_key, store_page, serve_feed, handle_feed, same_object, rendered,
  cached_or, max_cached_feeds,
}

-- A cached page is the rendering, from one snapshot, of the feed that its key names.
abbrev pub IsPage : Library → Config → Catalog → Bytes × Bytes → Type 0
IsPage lib cfg catalog (key, html) =
    (tag : Bytes) × (size : Bytes) × (key ≡ cache_key tag size)
    × (render_feed lib cfg catalog tag size [] ≡ some html)

abbrev pub Fits : Library → Config → Option CatalogPtr → List (Bytes × Bytes) → Type 0
Fits lib cfg none cache = cache ≡ []
Fits lib cfg (some p) cache = All (IsPage lib cfg p.snapshot) cache

-- Two pointers to one object see one catalog: snapshots are immutable.
abbrev pub Consistent : Option CatalogPtr → CatalogPtr → Type 0
Consistent none q = Unit
Consistent (some p) q = p.address ≡ q.address → p.snapshot ≡ q.snapshot

pub record IsCoherent (lib : Library) (ctx : Context) : Type 0 where
  pub fits : Fits lib ctx.cfg ctx.feed_cache_for ctx.feed_cache
  pub consistent : Consistent ctx.feed_cache_for ctx.catalog
  pub bounded : length ctx.feed_cache ≤ max_cached_feeds

-- What holds once the cache belongs to the current snapshot.
pub record IsCurrent (lib : Library) (ctx : Context) : Type 0 where
  pub pages : All (IsPage lib ctx.cfg ctx.catalog.snapshot) ctx.feed_cache
  pub owner : (p : CatalogPtr) × (ctx.feed_cache_for ≡ some p) × (p.snapshot ≡ ctx.catalog.snapshot)
  pub room : length ctx.feed_cache ≤ max_cached_feeds

current_of :
    (lib : Library) (cfg : Config) (o : Option CatalogPtr) (q : CatalogPtr)
    (cache : List (Bytes × Bytes))
    → same_object o q ≡ true
    → Fits lib cfg o cache
    → Consistent o q
    → All (IsPage lib cfg q.snapshot) cache
      × ((p : CatalogPtr) × (o ≡ some p) × (p.snapshot ≡ q.snapshot))
current_of lib cfg none q cache e fits consistent = cc
current_of lib cfg (some p) q cache e fits consistent =
    let same : p.snapshot ≡ q.snapshot = consistent ((==_iff p.address q.address).0 e) in
    (rw (← same) fits, (p, refl, same))

pub refresh-IsCurrent :
    (lib : Library) (ctx : Context) → IsCoherent lib ctx → IsCurrent lib (refresh_cache ctx)
unfolding refresh_cache
refresh-IsCurrent lib ctx h = elim (Bool-cases (same_object ctx.feed_cache_for ctx.catalog)) [
  | inl same ↦
      let (pages, owner) =
        current_of lib ctx.cfg ctx.feed_cache_for ctx.catalog ctx.feed_cache same h.fits
          h.consistent in
      rw (same, refresh_cache) (record { pages = pages; owner = owner; room = h.bounded })
  | inr other ↦
      rw (other, refresh_cache)
        (record { pages = tt; owner = (ctx.catalog, refl, refl); room = omega arith })
]

emplace-All :
    (P : Bytes × Bytes → Type 0) (k v : Bytes) (m : List (Bytes × Bytes))
    → All P m
    → P (k, v)
    → All P (emplace k v m)
emplace-All P k v [] h p = (p, tt)
emplace-All P k v ((j, w) ∷ m) (hj, h) p = elim (Bool-cases (j == k)) [
  | inl same ↦ rw (same, emplace) (hj, h)
  | inr other ↦ rw (other, emplace) (hj, emplace-All P k v m h p)
]

length-emplace : (k v : Bytes) (m : List (Bytes × Bytes)) → length (emplace k v m) ≤ length m + 1
length-emplace k v [] = omega arith
length-emplace k v ((j, w) ∷ m) = ground (arith, length-emplace k v m)

pub lookup-All :
    (P : Bytes × Bytes → Type 0) (k v : Bytes) (m : List (Bytes × Bytes))
    → All P m
    → lookup k m ≡ some v
    → P (k, v)
lookup-All P k v [] h e = cc
lookup-All P k v ((j, w) ∷ m) (hj, h) e = elim (Bool-cases (j == k)) [
  | inl same ↦
      let key : j ≡ k = (==_iff j k).0 same in
      let value : w ≡ v = ground arith in rw (← key, ← value) hj
  | inr other ↦ lookup-All P k v m h (ground arith)
]

IsCoherent-of_current : (lib : Library) (ctx : Context) → IsCurrent lib ctx → IsCoherent lib ctx
IsCoherent-of_current lib ctx c =
    let (p, owns, same) = c.owner in
    record { fits = rw owns (rw same c.pages); consistent = rw owns (λ _. same); bounded = c.room }

module _ (lib : Library) (tag size : Bytes) where
  store_page-IsCurrent :
      (cacheable : Bool) (html : Bytes) (ctx : Context)
      → IsCurrent lib ctx
      → (cacheable ≡ true → render_feed lib ctx.cfg ctx.catalog.snapshot tag size [] ≡ some html)
      → IsCurrent lib (store_page cacheable (cache_key tag size) html ctx)
  unfolding store_page
  store_page-IsCurrent false html ctx c e = c
  store_page-IsCurrent true html ctx c e =
      elim (Bool-cases (ltb (length ctx.feed_cache) max_cached_feeds)) [
        | inl room ↦
            rw (room, store_page)
              (record {
                pages =
                    emplace-All (IsPage lib ctx.cfg ctx.catalog.snapshot) (cache_key tag size) html
                      ctx.feed_cache c.pages (tag, size, refl, e refl);
                owner = c.owner;
                room = ground (arith, length-emplace (cache_key tag size) html ctx.feed_cache);
              })
        | inr full ↦ rw (full, store_page) c
      ]

  rendered-IsCurrent :
      (cacheable : Bool) (ctx : Context) (o : Option Bytes)
      → IsCurrent lib ctx
      → (cacheable ≡ true → render_feed lib ctx.cfg ctx.catalog.snapshot tag size [] ≡ o)
      → IsCurrent lib (rendered cacheable (cache_key tag size) ctx o).0
  rendered-IsCurrent cacheable ctx none c e = c
  rendered-IsCurrent cacheable ctx (some html) c e = store_page-IsCurrent cacheable html ctx c e

  cached_or-IsCurrent :
      (hit : Option Bytes) (ctx : Context) (out : Outcome)
      → IsCurrent lib ctx
      → IsCurrent lib out.0
      → IsCurrent lib (cached_or hit ctx out).0
  cached_or-IsCurrent none ctx out c d = d
  cached_or-IsCurrent (some html) ctx out c d = c

  serve_feed-IsCurrent :
      (query : Bytes) (ctx : Context)
      → IsCurrent lib ctx
      → IsCurrent lib (serve_feed lib tag size query ctx).0
  unfolding serve_feed
  serve_feed-IsCurrent [] ctx c =
      cached_or-IsCurrent (lookup (cache_key tag size) ctx.feed_cache) ctx _ c
        (rendered-IsCurrent true ctx _ c (λ _. refl))
  serve_feed-IsCurrent (b ∷ query) ctx c = rendered-IsCurrent false ctx _ c (λ e. cc)

-- Serving a feed keeps the cache coherent.
pub handle_feed-IsCoherent :
    (lib : Library) (q : Query) (ctx : Context)
    → IsCoherent lib ctx
    → IsCoherent lib (handle_feed lib q ctx).0
unfolding handle_feed
handle_feed-IsCoherent lib q ctx h =
    IsCoherent-of_current lib _
      (serve_feed-IsCurrent lib _ _ _ (refresh_cache ctx) (refresh-IsCurrent lib ctx h))

-- The database thread publishes a new snapshot: an allocator gives no live object's address.
abbrev pub publish : CatalogPtr → Context → Context
publish p ctx = record ctx { catalog = p }

abbrev pub IsFresh : ℕ → Option CatalogPtr → Type 0
IsFresh address none = Unit
IsFresh address (some p) = p.address ≢ address

Consistent-of_fresh :
    (o : Option CatalogPtr) (q : CatalogPtr) → IsFresh q.address o → Consistent o q
Consistent-of_fresh none q h = tt
Consistent-of_fresh (some p) q h = λ e. absurd (h e)

pub publish-IsCoherent :
    (lib : Library) (p : CatalogPtr) (ctx : Context)
    → IsFresh p.address ctx.feed_cache_for
    → IsCoherent lib ctx
    → IsCoherent lib (publish p ctx)
publish-IsCoherent lib p ctx fresh h = record {
  fits = h.fits;
  consistent = Consistent-of_fresh ctx.feed_cache_for p fresh;
  bounded = h.bounded;
}
