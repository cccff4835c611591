-- ===== src/Supervisor/Restart.antt =====
-- When the runner stops restarting (runtime/engine_service.py).
use mt5_trading_bot.Base.{
  ℕ, zero, suc, ◌+◌, ◌≤◌, ◌<◌, ◌≡◌, ◌≢◌, refl, ◌⊎◌, inl, inr, Bool, true, false, some, arith,
}
use mt5_trading_bot.Supervisor.{Serving, returned, interrupted, crashed, Round, ends, run_forever}

-- The stop flag is there before or after the engine, or the engine did not crash.
abbrev pub Finished : Round → Type 0
Finished r = (r.stop_before ≡ true) ⊎ (r.stop_after ≡ true) ⊎ (r.serving ≢ crashed)

-- The engine was started, crashed, and no stop flag is there.
abbrev pub Crashed : Round → Type 0
Crashed r = (r.stop_before ≡ false) × (r.stop_after ≡ false) × (r.serving ≡ crashed)

-- The loop returned after the `n` restarts that came first.
pub record Returned (rounds : ℕ → Round) (i fuel : ℕ) : Type 0 where
  pub restarts : ℕ
  pub few : restarts ≤ fuel
  pub result : run_forever (suc fuel) rounds i ≡ some (suc (i + restarts))
  pub last_finished : Finished (rounds (i + restarts))
  pub others_crashed : (j : ℕ) → j < restarts → Crashed (rounds (i + j))

Finished-ends : (r : Round) → Finished r → ends r ≡ true
unfolding ends
Finished-ends r f = finished r.stop_before r.serving r.stop_after f
  where
    finished :
        (before : Bool) (serving : Serving) (after : Bool)
        → (before ≡ true) ⊎ (after ≡ true) ⊎ (serving ≢ crashed)
        → ends record { stop_before = before; serving = serving; stop_after = after } ≡ true
    finished true serving true f = refl
    finished true serving false f = refl
    finished false serving true f = refl
    finished false returned false f = refl
    finished false interrupted false f = refl
    finished false crashed false (inl h) = absurd (cc h)
    finished false crashed false (inr (inl h)) = absurd (cc h)
    finished false crashed false (inr (inr h)) = absurd (h refl)

ends-cases : (r : Round) → ((ends r ≡ true) × Finished r) ⊎ ((ends r ≡ false) × Crashed r)
unfolding ends
ends-cases r = go r.stop_before r.serving r.stop_after
  where
    go :
        (before : Bool) (serving : Serving) (after : Bool)
        → let r : Round = record { stop_before = before; serving = serving; stop_after = after } in
          ((ends r ≡ true) × Finished r) ⊎ ((ends r ≡ false) × Crashed r)
    go true serving true = inl (refl, inl refl)
    go true serving false = inl (refl, inl refl)
    go false serving true = inl (refl, inr (inl refl))
    go false returned false = inl (refl, inr (inr (λ h. absurd (cc h))))
    go false interrupted false = inl (refl, inr (inr (λ h. absurd (cc h))))
    go false crashed false = inr (refl, (refl, refl, refl))

module _ (rounds : ℕ → Round) where
  at_once : (i fuel : ℕ) → ends (rounds i) ≡ true → Finished (rounds i) → Returned rounds i fuel
  unfolding run_forever
  at_once i fuel h f =
      let same : i + 0 ≡ i = omega arith in
      record {
        restarts = 0;
        few = omega arith;
        result = rw (h, same) refl;
        last_finished = rw same f;
        others_crashed = λ j k. absurd (omega (arith, k));
      }

  after_restart :
      (i fuel : ℕ)
      → ends (rounds i) ≡ false
      → Crashed (rounds i)
      → Returned rounds (suc i) fuel
      → Returned rounds i (suc fuel)
  unfolding run_forever
  after_restart i fuel e c r =
      let next : i + suc r.restarts ≡ suc i + r.restarts = omega arith in
      record {
        restarts = suc r.restarts;
        few = (let h = r.few in omega arith);
        result = rw (e, next) r.result;
        last_finished = rw next r.last_finished;
        others_crashed = crashed_before;
      }
    where
      crashed_before : (j : ℕ) → j < suc r.restarts → Crashed (rounds (i + j))
      crashed_before zero k = let same : i + 0 ≡ i = omega arith in rw same c
      crashed_before (suc j) k =
          let next : i + suc j ≡ suc i + j = omega arith in
          rw next (r.others_crashed j (omega arith))

  -- Where in some round the stop flag is there, before the engine starts or after it ended, or the
  -- engine ends without a crash, the runner returns: at the first such round, having restarted the
  -- engine after each round before it, in all of which it crashed with no stop flag. Fuel for the
  -- rounds up to the one that is known to finish is enough.
  pub run_forever-Returned : (i fuel : ℕ) → Finished (rounds (i + fuel)) → Returned rounds i fuel
  run_forever-Returned i zero h =
      let same : i + 0 ≡ i = omega arith in
      let f : Finished (rounds i) = rw same at h in at_once i 0 (Finished-ends (rounds i) f) f
  run_forever-Returned i (suc fuel) h = elim (ends-cases (rounds i)) [
    | inl (e, f) ↦ at_once i (suc fuel) e f
    | inr (e, c) ↦
        let next : i + suc fuel ≡ suc i + fuel = omega arith in
        after_restart i fuel e c (run_forever-Returned (suc i) fuel (rw next at h))
  ]
