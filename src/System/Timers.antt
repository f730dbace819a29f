-- ===== src/System/Timers.antt =====
-- When the database thread refreshes the snapshot.
use s_size_store.Prelude.{
  ℤ, pos, negsuc, ◌+ℤ◌, ◌≤ℤ◌, ◌<ℤ◌, ◌^◌, ◌≡◌, ◌∙◌, refl, true, List, [], ◌∷◌, some, arith,
}
use s_size_store.Config.{Config}
use s_size_store.Db.{Tables}
use s_size_store.Worker.{scale}
use s_size_store.Handlers.{Library, CatalogPtr}
use s_size_store.Handlers.Files.{FileSystem}
use s_size_store.System.{
  System, Round, Loaded, is_due, snapshot_ptr, second, hour, round, rounds, launched,
}
use s_size_store.System.Turns.{rearmed, round-IsTurned}

-- The next time is ahead, by one period at most.
abbrev pub IsArmed : ℤ → ℤ → ℤ → Type 0
IsArmed loop_start period next = (loop_start <ℤ next) × (next ≤ℤ loop_start +ℤ period)

rearmed-IsArmed :
    (loop_start next period : ℤ)
    → pos 0 <ℤ period
    → next ≤ℤ loop_start +ℤ period
    → IsArmed loop_start period (rearmed loop_start next period)
rearmed-IsArmed loop_start next period positive soon = ground arith

later_bound : (a b next period : ℤ) → a ≤ℤ b → next ≤ℤ a +ℤ period → next ≤ℤ b +ℤ period
later_bound a b next period h soon = ground arith

at_once : (a b period : ℤ) → a ≤ℤ b → pos 0 <ℤ period → a ≤ℤ b +ℤ period
at_once a b period h positive = ground arith

-- The steady clock does not go back.
abbrev pub IsClocked : ℤ → List Round → Type 0
IsClocked clock [] = Unit
IsClocked clock (r ∷ rs) = (clock ≤ℤ r.loop_start) × IsClocked r.loop_start rs

-- When the last of the rounds began.
abbrev pub last_start : ℤ → List Round → ℤ
last_start clock [] = clock
last_start clock (r ∷ rs) = last_start r.loop_start rs

-- Both timers are at most one period ahead.
record IsSoon (cfg : Config) (clock : ℤ) (s : System) : Type 0 where
  same_cfg : s.ctx.cfg ≡ cfg
  refresh_soon : s.next_refresh ≤ℤ clock +ℤ scale cfg.refresh_interval second
  maintenance_soon : s.next_maintenance ≤ℤ clock +ℤ pos hour

-- Both are ahead as well.
pub record IsPunctual (cfg : Config) (clock : ℤ) (s : System) : Type 0 where
  pub same_cfg : s.ctx.cfg ≡ cfg
  pub refresh_armed : IsArmed clock (scale cfg.refresh_interval second) s.next_refresh
  pub maintenance_armed : IsArmed clock (pos hour) s.next_maintenance

-- The refresh interval in nanoseconds.
abbrev pub period_of : Config → ℤ
period_of cfg = scale cfg.refresh_interval second

scale-positive : (n : ℤ) → pos 0 <ℤ n → pos 0 <ℤ scale n second
scale-positive (pos n) h = ground arith
scale-positive (negsuc n) h = ground arith

module _ (lib : Library) (fs : FileSystem) (cfg : Config)
    (positive : pos 0 <ℤ cfg.refresh_interval) where
  round-IsPunctual :
      (clock : ℤ) (r : Round) (s : System)
      → clock ≤ℤ r.loop_start
      → IsSoon cfg clock s
      → IsPunctual cfg r.loop_start (round lib fs r s)
  round-IsPunctual clock r s later soon =
      let turned = round-IsTurned lib fs r s in
      let period = period_of cfg in
      record {
        same_cfg = turned.same_cfg ∙ soon.same_cfg;
        refresh_armed =
            rw (turned.next_refresh, soon.same_cfg)
              (rearmed-IsArmed r.loop_start s.next_refresh period
                (scale-positive cfg.refresh_interval positive)
                (later_bound clock r.loop_start s.next_refresh period later soon.refresh_soon));
        maintenance_armed = rw turned.next_maintenance (
            rearmed-IsArmed r.loop_start s.next_maintenance (pos hour) (omega arith) (
              later_bound clock r.loop_start s.next_maintenance (pos hour) later
                soon.maintenance_soon));
      }

  relax : (clock : ℤ) (s : System) → IsPunctual cfg clock s → IsSoon cfg clock s
  relax clock s h = record {
    same_cfg = h.same_cfg;
    refresh_soon = h.refresh_armed.1;
    maintenance_soon = h.maintenance_armed.1;
  }

  rounds-IsPunctual :
      (clock : ℤ) (rs : List Round) (s : System)
      → IsClocked clock rs
      → IsPunctual cfg clock s
      → IsPunctual cfg (last_start clock rs) (rounds lib fs rs s)
  unfolding rounds
  rounds-IsPunctual clock [] s order h = h
  rounds-IsPunctual clock (r ∷ rs) s (later, order) h =
      rounds-IsPunctual r.loop_start rs (round lib fs r s) order
        (round-IsPunctual clock r s later (relax clock s h))

  launched-IsSoon :
      (p : CatalogPtr) (t : Tables) (clock : ℤ) → IsSoon cfg clock (launched cfg p t clock)
  unfolding launched
  launched-IsSoon p t clock = record {
    same_cfg = refl;
    refresh_soon =
        at_once clock clock (period_of cfg) (omega arith)
          (scale-positive cfg.refresh_interval positive);
    maintenance_soon = omega arith;
  }

  from_first-IsPunctual :
      (p : CatalogPtr) (t : Tables) (clock : ℤ) (r : Round) (rs : List Round)
      → IsClocked clock (r ∷ rs)
      → IsPunctual cfg
          (last_start r.loop_start rs)
          (rounds lib fs (r ∷ rs) (launched cfg p t clock))
  unfolding rounds
  from_first-IsPunctual p t clock r rs (later, order) =
      rounds-IsPunctual r.loop_start rs _ order
        (round-IsPunctual clock r (launched cfg p t clock) later (launched-IsSoon p t clock))

  fits_below : (a b c : ℤ) → a ≤ℤ b → b <ℤ c → a <ℤ c
  fits_below a b c h k = ground arith

  -- From the first round on, both timers are ahead of the start of the last round, by no more than
  -- their periods (the refresh interval and an hour), and within 64 bits, if the interval is positive,
  -- the clock does not go back, and neither the refresh interval in nanoseconds nor an hour takes the
  -- start of the last round out of 64 bits.
  pub launched-IsPunctual :
      (p : CatalogPtr) (t : Tables) (clock : ℤ) (r : Round) (rs : List Round)
      → IsClocked clock (r ∷ rs)
      → last_start r.loop_start rs +ℤ scale cfg.refresh_interval second <ℤ pos (2 ^ 63)
      → last_start r.loop_start rs +ℤ pos hour <ℤ pos (2 ^ 63)
      → IsPunctual cfg
          (last_start r.loop_start rs)
          (rounds lib fs (r ∷ rs) (launched cfg p t clock))
        × ((rounds lib fs (r ∷ rs) (launched cfg p t clock)).next_refresh <ℤ pos (2 ^ 63))
        × ((rounds lib fs (r ∷ rs) (launched cfg p t clock)).next_maintenance <ℤ pos (2 ^ 63))
  launched-IsPunctual p t clock r rs order fits hour_fits =
      let s = rounds lib fs (r ∷ rs) (launched cfg p t clock) in
      let punctual = from_first-IsPunctual p t clock r rs order in
      (
        punctual,
        fits_below s.next_refresh _ (pos (2 ^ 63)) punctual.refresh_armed.1 fits,
        fits_below s.next_maintenance _ (pos (2 ^ 63)) punctual.maintenance_armed.1 hour_fits,
      )

  due_after :
      (clock loop_start next : ℤ)
      → IsArmed clock (period_of cfg) next
      → clock +ℤ period_of cfg ≤ℤ loop_start
      → is_due loop_start next ≡ true
  due_after clock loop_start next armed passed = ground arith

  -- The catalogue is renewed in time: after any rounds, a round that begins a refresh interval after
  -- the one before it ends with the snapshot of the rows that its statements return, if they return.
  pub renewed_in_time :
      (p : CatalogPtr) (t : Tables) (clock : ℤ) (r : Round) (rs : List Round) (next : Round)
      (l : Loaded)
      → IsClocked clock (r ∷ rs)
      → last_start r.loop_start rs +ℤ period_of cfg ≤ℤ next.loop_start
      → next.loaded ≡ some l
      → (round lib fs next (rounds lib fs (r ∷ rs) (launched cfg p t clock))).ctx.catalog
        ≡ snapshot_ptr l
  renewed_in_time p t clock r rs next l order passed loads =
      let s = rounds lib fs (r ∷ rs) (launched cfg p t clock) in
      let punctual = from_first-IsPunctual p t clock r rs order in
      (round-IsTurned lib fs next s).catalog
      ∙ rw
          (
            due_after (last_start r.loop_start rs) next.loop_start s.next_refresh
                punctual.refresh_armed passed,
            loads,
          )
          refl
