-- ===== src/System/Turns.antt =====
-- What one round does to the snapshot and to the timers.
use s_size_store.Prelude.{
  ℤ, pos, ◌+ℤ◌, ◌≡◌, ◌∙◌, refl, ap, List, Option, none, some, Bool-cases, inl, inr, if◌then◌else◌,
}
use s_size_store.Worker.{flush_events, flush_conversions, scale}
use s_size_store.Handlers.{Library, Context, CatalogPtr}
use s_size_store.Handlers.Files.{FileSystem}
use s_size_store.System.{
  System, Round, Loaded, Visit, is_due, publish_loaded, snapshot_ptr, refresh, upkeep, second, hour,
  flush_clicks, flush_postbacks, visits, flushes, round,
}
use s_size_store.System.Requests.{serve-IsAfter}

-- What a timer shows after the loop has looked at it.
abbrev pub rearmed : ℤ → ℤ → ℤ → ℤ
rearmed loop_start next period = if is_due loop_start next then loop_start +ℤ period else next

abbrev pub loaded_or : Option Loaded → CatalogPtr → CatalogPtr
loaded_or none p = p
loaded_or (some l) p = snapshot_ptr l

-- What a round does to the timers and to the snapshot.
pub record IsTurned (r : Round) (s after : System) : Type 0 where
  pub same_cfg : after.ctx.cfg ≡ s.ctx.cfg
  pub catalog : after.ctx.catalog ≡ (
      if is_due r.loop_start s.next_refresh
      then loaded_or r.loaded s.ctx.catalog
      else s.ctx.catalog)
  pub next_refresh :
      after.next_refresh
      ≡ rearmed r.loop_start s.next_refresh (scale s.ctx.cfg.refresh_interval second)
  pub next_maintenance : after.next_maintenance ≡ rearmed r.loop_start s.next_maintenance (pos hour)

-- What the later steps of a round leave alone.
pub record IsKept (s after : System) : Type 0 where
  pub same_cfg : after.ctx.cfg ≡ s.ctx.cfg
  pub same_catalog : after.ctx.catalog ≡ s.ctx.catalog
  pub same_next : after.next_refresh ≡ s.next_refresh

IsKept-trans : (s t u : System) → IsKept s t → IsKept t u → IsKept s u
IsKept-trans s t u h k = record {
  same_cfg = k.same_cfg ∙ h.same_cfg;
  same_catalog = k.same_catalog ∙ h.same_catalog;
  same_next = k.same_next ∙ h.same_next;
}

upkeep-IsKept : (r : Round) (s : System) → IsKept s (upkeep r s)
unfolding upkeep
upkeep-IsKept r s = elim (Bool-cases (is_due r.loop_start s.next_maintenance)) [
  | inl due ↦ rw (due, upkeep) (record { same_cfg = refl; same_catalog = refl; same_next = refl })
  | inr early ↦
      rw (early, upkeep) (record { same_cfg = refl; same_catalog = refl; same_next = refl })
]

upkeep-next_maintenance :
    (r : Round) (s : System)
    → (upkeep r s).next_maintenance ≡ rearmed r.loop_start s.next_maintenance (pos hour)
unfolding upkeep
upkeep-next_maintenance r s = elim (Bool-cases (is_due r.loop_start s.next_maintenance)) [
  | inl due ↦ rw (due, upkeep) refl
  | inr early ↦ rw (early, upkeep) refl
]

publish_loaded-catalog :
    (o : Option Loaded) (ctx : Context)
    → ((publish_loaded o ctx).cfg ≡ ctx.cfg)
      × ((publish_loaded o ctx).catalog ≡ loaded_or o ctx.catalog)
publish_loaded-catalog none ctx = (refl, refl)
publish_loaded-catalog (some l) ctx = (refl, refl)

pub refresh-IsTurned :
    (r : Round) (s : System)
    → ((refresh r s).ctx.cfg ≡ s.ctx.cfg)
      × ((refresh r s).ctx.catalog ≡ (
          if is_due r.loop_start s.next_refresh
          then loaded_or r.loaded s.ctx.catalog
          else s.ctx.catalog))
      × ((refresh r s).next_refresh
          ≡ rearmed r.loop_start s.next_refresh (scale s.ctx.cfg.refresh_interval second))
      × ((refresh r s).next_maintenance ≡ s.next_maintenance)
unfolding refresh
refresh-IsTurned r s = elim (Bool-cases (is_due r.loop_start s.next_refresh)) [
  | inl due ↦
      let (cfg, catalog) = publish_loaded-catalog r.loaded s.ctx in
      rw (due, refresh) (cfg, catalog, refl, refl)
  | inr early ↦ rw (early, refresh) (refl, refl, refl, refl)
]

module _ (lib : Library) (fs : FileSystem) where
  abbrev pub until_upkeep : Round → System → System
  until_upkeep r s =
      visits lib fs r.before_maintenance
        (flushes lib fs r (visits lib fs r.before_events (refresh r s)))

  visits-IsKept : (vs : List Visit) (s : System) → IsKept s (visits lib fs vs s)
  unfolding visits
  visits-IsKept vs s =
      let served = serve-IsAfter lib fs vs s.ctx in
      record { same_cfg = served.same_cfg; same_catalog = served.same_catalog; same_next = refl }

  visits-next_maintenance :
      (vs : List Visit) (s : System) → (visits lib fs vs s).next_maintenance ≡ s.next_maintenance
  unfolding visits
  visits-next_maintenance vs s = refl

  flushes-IsKept :
      (r : Round) (s : System)
      → IsKept s (flushes lib fs r s) × ((flushes lib fs r s).next_maintenance ≡ s.next_maintenance)
  unfolding flushes flush_clicks flush_postbacks visits flush_events flush_conversions
  flushes-IsKept r s =
      let cleared : IsKept s (flush_clicks r.refused s).0 = record {
        same_cfg = refl;
        same_catalog = refl;
        same_next = refl;
      } in
      let served =
        IsKept-trans s _ _ cleared
          (visits-IsKept r.before_conversions (flush_clicks r.refused s).0) in
      elim (Bool-cases (flush_clicks r.refused s).1) [
        | inl returned ↦
            rw (returned, flushes)
              (
                record {
                  same_cfg = served.same_cfg;
                  same_catalog = served.same_catalog;
                  same_next = served.same_next;
                },
                refl,
              )
        | inr threw ↦ rw (threw, flushes) (served, refl)
      ]

  -- What holds when a round comes to the maintenance.
  pub until_upkeep-IsTurned :
      (r : Round) (s : System)
      → IsKept (refresh r s) (until_upkeep r s)
        × ((until_upkeep r s).next_maintenance ≡ s.next_maintenance)
  until_upkeep-IsTurned r s =
      let s0 = refresh r s in
      let s1 = visits lib fs r.before_events s0 in
      let s2 = flushes lib fs r s1 in
      let (_, _, _, other) = refresh-IsTurned r s in
      let (flushed, unmoved) = flushes-IsKept r s1 in
      (
        IsKept-trans s0 s1 _ (visits-IsKept r.before_events s0)
            (IsKept-trans s1 s2 _ flushed (visits-IsKept r.before_maintenance s2)),
        visits-next_maintenance r.before_maintenance s2
            ∙ unmoved
            ∙ visits-next_maintenance r.before_events s0
            ∙ other,
      )

  -- After a round the snapshot is the new one if a refresh was due and its statements returned, and
  -- the one before otherwise, whatever requests came in between; each timer that was due is set one
  -- period ahead, whether its work succeeded or not, and the other is left alone.
  pub round-IsTurned : (r : Round) (s : System) → IsTurned r s (round lib fs r s)
  unfolding round
  round-IsTurned r s =
      let s3 = until_upkeep r s in
      let s4 = upkeep r s3 in
      let (cfg, catalog, timer, _) = refresh-IsTurned r s in
      let (kept, before) = until_upkeep-IsTurned r s in
      let after =
        IsKept-trans (refresh r s) s3 _ kept
          (IsKept-trans s3 s4 _ (upkeep-IsKept r s3) (visits-IsKept r.asleep s4)) in
      record {
        same_cfg = after.same_cfg ∙ cfg;
        catalog = after.same_catalog ∙ catalog;
        next_refresh = after.same_next ∙ timer;
        next_maintenance =
            visits-next_maintenance r.asleep s4
            ∙ upkeep-next_maintenance r s3
            ∙ ap (λ n. rearmed r.loop_start n (pos hour)) before;
      }
