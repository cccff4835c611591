-- ===== src/Market/Levels/Distance.antt =====
-- The distances of the levels (app/services/scheduler.py, `_levels`): rounding moves a stop away from
-- the entry, never towards it.
use mt5_trading_bot.Base.{
  ℕ, suc, ◌+◌, ◌-◌, ◌*◌, ◌≤◌, ◌≡◌, refl, inl, inr, true, false, some, [], arith, Bool-cases,
  Option-cases, List-cases, some_inj,
}
use mt5_trading_bot.Num.{ℚ, den, int, neg, abs, ◌+ℚ◌, ◌-ℚ◌, ◌*ℚ◌, ◌/ℚ◌, ◌≤ℚ◌, leb_ℚ, is_pos}
use mt5_trading_bot.Num.Order.{le_ℚ_trans}
use mt5_trading_bot.Num.Field.{
  mul_mono_ℚ, div_mul_ℚ, is_pos_minus, neg-le-abs, le-abs, is_pos_of_not_le,
}
use mt5_trading_bot.Guards.{passed}
use mt5_trading_bot.Core.Settings.{Settings}
use mt5_trading_bot.Core.Signal.{Action, buy, sell, hold, Signal}
use mt5_trading_bot.Risk.Sizing.{SymbolSpec}
use mt5_trading_bot.Execution.Validation.{validate_stops, tradable}
use mt5_trading_bot.Strategies.Common.{Levels}
use mt5_trading_bot.Market.Levels.{
  floor_int, ceil_int, round_step, TickSnapshot, levels, anchor, anchored, kept_ratio, if_valid,
  entry_of, reference_of, step_of,
}

le_refl : (a : ℚ) → a ≤ℚ a
le_refl a = omega arith

floor_int-le : (q : ℚ) → floor_int q ≤ℚ q
unfolding floor_int neg
floor_int-le q = ground arith

neg-mono : (a b : ℚ) → a ≤ℚ b → neg b ≤ℚ neg a
unfolding neg
neg-mono a b h = omega arith

le-ceil_int : (q : ℚ) → q ≤ℚ ceil_int q
unfolding ceil_int neg
le-ceil_int q = neg-mono (floor_int (neg q)) (neg q) (floor_int-le (neg q))

mul_div_ℚ : (x y : ℚ) → is_pos y ≡ true → x ≤ℚ x /ℚ y *ℚ y
unfolding ◌*ℚ◌ ◌/ℚ◌
mul_div_ℚ x y h = rw h (core y.plus (y.plus - y.minus - 1) (ground arith))
  where
    core :
        (yp j : ℕ)
        → yp ≡ y.minus + suc j
        → x.plus * suc ((x.pred_den * suc j + j) * den y + y.pred_den)
            + ((x.plus * den y + x.minus * 0) * y.minus + (x.plus * 0 + x.minus * den y) * yp)
              * den x
          ≤ ((x.plus * den y + x.minus * 0) * yp + (x.plus * 0 + x.minus * den y) * y.minus) * den x
            + x.minus * suc ((x.pred_den * suc j + j) * den y + y.pred_den)
    core yp j e = rw e (omega arith)

round_step-down : (v step : ℚ) → round_step v step false ≤ℚ v
unfolding round_step
round_step-down v step = elim (Bool-cases (leb_ℚ step (int 0))) [
  | inl e ↦ rw e (le_refl v)
  | inr e ↦
      let p = is_pos_of_not_le step e in
      rw e (
        le_ℚ_trans (floor_int (v /ℚ step) *ℚ step) (v /ℚ step *ℚ step) v
          (mul_mono_ℚ (floor_int (v /ℚ step)) (v /ℚ step) step (floor_int-le (v /ℚ step))
            (is_pos_minus step p))
          (div_mul_ℚ v step p))
]

round_step-up : (v step : ℚ) → v ≤ℚ round_step v step true
unfolding round_step
round_step-up v step = elim (Bool-cases (leb_ℚ step (int 0))) [
  | inl e ↦ rw e (le_refl v)
  | inr e ↦
      let p = is_pos_of_not_le step e in
      rw e (
        le_ℚ_trans v (v /ℚ step *ℚ step) (ceil_int (v /ℚ step) *ℚ step) (mul_div_ℚ v step p) (
          mul_mono_ℚ (v /ℚ step) (ceil_int (v /ℚ step)) step (le-ceil_int (v /ℚ step))
            (is_pos_minus step p)))
]

below_entry : (a b r : ℚ) → b ≤ℚ a -ℚ r → r ≤ℚ a -ℚ b
unfolding ◌-ℚ◌
below_entry a b r h = omega arith

above_entry : (a b r : ℚ) → a +ℚ r ≤ℚ b → r ≤ℚ neg (a -ℚ b)
unfolding ◌-ℚ◌
above_entry a b r h = omega arith

stop_above : (entry risk step : ℚ) → risk ≤ℚ abs (entry -ℚ round_step (entry +ℚ risk) step true)
stop_above entry risk step =
    let stop = round_step (entry +ℚ risk) step true in
    le_ℚ_trans risk (neg (entry -ℚ stop)) (abs (entry -ℚ stop))
      (above_entry entry stop risk (round_step-up (entry +ℚ risk) step))
      (neg-le-abs (entry -ℚ stop))

stop_below : (entry risk step : ℚ) → risk ≤ℚ abs (entry -ℚ round_step (entry -ℚ risk) step false)
stop_below entry risk step =
    let stop = round_step (entry -ℚ risk) step false in
    le_ℚ_trans risk (entry -ℚ stop) (abs (entry -ℚ stop))
      (below_entry entry stop risk (round_step-down (entry -ℚ risk) step)) (le-abs (entry -ℚ stop))

anchored-distance :
    (action : Action) (entry step risk reward : ℚ)
    → risk ≤ℚ abs (entry -ℚ (anchored action entry step risk reward).stop_loss)
unfolding anchored
anchored-distance buy entry step risk reward = stop_below entry risk step
anchored-distance sell entry step risk reward = stop_above entry risk step
anchored-distance hold entry step risk reward = stop_above entry risk step

-- Levels that are given out.
pub record Placed (settings : Settings) (signal : Signal) (spec : SymbolSpec) (tick : TickSnapshot)
    (l : Levels) : Type 0 where
  pub tradable_side : tradable signal.action ≡ true
  pub stop : ℚ
  pub had_stop : signal.stop_loss ≡ some stop
  pub at_market : l.entry ≡ entry_of signal.action tick spec.digits
  pub kept_distance : abs (reference_of signal tick -ℚ stop) ≤ℚ abs (l.entry -ℚ l.stop_loss)
  pub valid :
      validate_stops signal.action
        (some l.entry)
        (some l.stop_loss)
        (some l.take_profit)
        spec
        (some settings.min_risk_reward_ratio)
      ≡ []

if_valid-same :
    (settings : Settings) (action : Action) (spec : SymbolSpec) (l k : Levels)
    → if_valid settings action spec l ≡ some k
    → (l ≡ k)
      × (validate_stops action
            (some l.entry)
            (some l.stop_loss)
            (some l.take_profit)
            spec
            (some settings.min_risk_reward_ratio)
          ≡ [])
if_valid-same settings action spec l k h =
    elim (List-cases (
      validate_stops action (some l.entry) (some l.stop_loss) (some l.take_profit) spec
        (some settings.min_risk_reward_ratio))) [
          | inl e ↦ (some_inj (rw (e, if_valid) at h), e)
          | inr (x, xs, e) ↦ absurd (cc (rw (e, if_valid) at h))
        ]

anchor-Placed :
    (settings : Settings) (signal : Signal) (spec : SymbolSpec) (tick : TickSnapshot) (stop : ℚ)
    (l : Levels)
    → tradable signal.action ≡ true
    → signal.stop_loss ≡ some stop
    → anchor settings signal spec tick
        (reference_of signal tick)
        (abs (reference_of signal tick -ℚ stop))
      ≡ some l
    → Placed settings signal spec tick l
unfolding anchor anchored
anchor-Placed settings signal spec tick stop l t s h =
    let risk = abs (reference_of signal tick -ℚ stop) in
    elim (Bool-cases (leb_ℚ risk (int 0))) [
      | inl e ↦ absurd (cc (rw (e, anchor) at h))
      | inr e ↦
          elim (Option-cases (
            kept_ratio settings.min_risk_reward_ratio signal.take_profit (reference_of signal tick)
              risk)) [
                | inl f ↦ absurd (cc (rw (e, f, anchor) at h))
                | inr (reward, f) ↦
                    let entry = entry_of signal.action tick spec.digits in
                    let (same, valid) =
                      if_valid-same settings signal.action spec
                        (anchored signal.action entry (step_of spec.digits) risk reward) l
                        (rw (e, f, anchor) at h) in
                    rw (← same) record {
                      tradable_side = t;
                      stop = stop;
                      had_stop = s;
                      at_market = refl;
                      kept_distance =
                          anchored-distance signal.action entry (step_of spec.digits) risk reward;
                      valid = valid;
                    }
              ]
    ]

-- Levels that are given out are of a signal with a side and a stop; the entry is the market's price on
-- that side, the stop is at least as far from it as the strategy's stop was from its entry, whatever
-- the rounding to the symbol's digits, and the three pass the stop validation.
pub levels-Placed :
    (settings : Settings) (signal : Signal) (spec : SymbolSpec) (tick : TickSnapshot) (l : Levels)
    → levels settings signal spec tick ≡ some l
    → Placed settings signal spec tick l
unfolding levels
levels-Placed settings signal spec tick l h =
    let (t, h) = passed (tradable signal.action) h in
    elim (Option-cases signal.stop_loss) [
      | inl e ↦ absurd (cc (rw e at h))
      | inr (stop, e) ↦ anchor-Placed settings signal spec tick stop l t e (rw e at h)
    ]
