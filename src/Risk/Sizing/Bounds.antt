-- ===== src/Risk/Sizing/Bounds.antt =====
-- Bounds on the derived volumes: the broker's limits, and the loss budget up to the rounding that
-- the code allows itself.
use mt5_trading_bot.Base.{ℕ, ◌≤◌, ◌≡◌, ◌⊎◌, inl, inr, true, false, ◌==◌, some, arith, Bool-cases}
use mt5_trading_bot.Num.{
  ℚ, int, ratio, abs, ◌-ℚ◌, billionth, ◌≤ℚ◌, ◌+ℚ◌, ◌*ℚ◌, ◌/ℚ◌, leb_ℚ, is_pos, floor,
  round_half_even,
}
use mt5_trading_bot.Num.Order.{leb_ℚ→le, le_ℚ_trans}
use mt5_trading_bot.Num.Field.{
  add_mono_ℚ, mul_mono_ℚ, add_mul_ℚ, div_mul_ℚ, is_pos_minus, int-mono, abs_sub_le, floor-le,
  round_half_even-le, add_nonneg_ℚ, is_pos-mul, is_pos-div, is_pos_of_not_le,
}
use mt5_trading_bot.Risk.Sizing.{
  SymbolSpec, positive, floor_steps, risk_per_lot, round_eighth, min_ℕ, normalize_volume,
  size_for_loss_budget,
}

-- 5e-9, half of the eighth decimal
abbrev pub half_unit : ℚ
half_unit = ratio 5 999999999

pos_of_not_le : (q : ℚ) → leb_ℚ q (int 0) ≡ false → q.minus ≤ q.plus
unfolding leb_ℚ
pos_of_not_le q h = ground arith

-- The steps are at most the quotient and a billionth.
pub floor_steps-le : (q : ℚ) → (floor_steps q == 0) ≡ false → int (floor_steps q) ≤ℚ q +ℚ billionth
unfolding floor_steps
floor_steps-le q h = elim (Bool-cases (leb_ℚ q (int 0))) [
  | inl low ↦ cc (rw low at h)
  | inr up ↦ elim (Bool-cases (leb_ℚ (abs (q -ℚ int (round_half_even q))) billionth)) [
    | inl near ↦ rw (up, near) (abs_sub_le q (int (round_half_even q)) billionth near)
    | inr far ↦
        rw (up, far)
          (le_ℚ_trans (int (floor q)) q (q +ℚ billionth) (floor-le q (pos_of_not_le q up))
            (add_nonneg_ℚ q billionth (omega arith)))
  ]
]

-- Rounding to eight decimals adds at most 5e-9.
pub round_eighth-le : (x : ℚ) → x.minus ≤ x.plus → round_eighth x ≤ℚ x +ℚ half_unit
unfolding round_eighth ◌+ℚ◌ ◌*ℚ◌
round_eighth-le x h = omega (arith, round_half_even-le (x *ℚ int 100000000) (omega arith))

int_mul_minus : (k : ℕ) (q : ℚ) → q.minus ≤ q.plus → (int k *ℚ q).minus ≤ (int k *ℚ q).plus
unfolding ◌*ℚ◌
int_mul_minus k q h = grind arith

min_ℕ_le : (m n : ℕ) → (min_ℕ m n ≤ m) × (min_ℕ m n ≤ n)
min_ℕ_le m n = ground arith

-- k steps, with k at most v / step, are at most v and the two roundings.
steps_le :
    (v step : ℚ) (k : ℕ)
    → is_pos step ≡ true
    → int k ≤ℚ v /ℚ step +ℚ billionth
    → round_eighth (int k *ℚ step) ≤ℚ v +ℚ billionth *ℚ step +ℚ half_unit
steps_le v step k p h =
    let p' = is_pos_minus step p in
    le_ℚ_trans (round_eighth (int k *ℚ step)) (int k *ℚ step +ℚ half_unit) _
      (round_eighth-le (int k *ℚ step) (int_mul_minus k step p'))
      (add_mono_ℚ (int k *ℚ step) (v +ℚ billionth *ℚ step) half_unit (
        le_ℚ_trans (int k *ℚ step) ((v /ℚ step +ℚ billionth) *ℚ step) _
          (mul_mono_ℚ (int k) (v /ℚ step +ℚ billionth) step h p')
          (le_ℚ_trans ((v /ℚ step +ℚ billionth) *ℚ step) (v /ℚ step *ℚ step +ℚ billionth *ℚ step) _
            (add_mul_ℚ (v /ℚ step) billionth step)
            (add_mono_ℚ (v /ℚ step *ℚ step) v (billionth *ℚ step) (div_mul_ℚ v step p)))))

-- v and what rounding may add to a volume of this symbol: a billionth of a step, and half of the
-- eighth decimal.
abbrev pub rounded_up : ℚ → SymbolSpec → ℚ
rounded_up v spec = v +ℚ billionth *ℚ spec.volume_step +ℚ half_unit

NormalFacts : ℚ → SymbolSpec → ℚ → Type 0
NormalFacts v spec lots =
    (leb_ℚ spec.volume_min lots ≡ true)
    × (is_pos spec.volume_step ≡ true)
    × (is_pos v ≡ true)
    × ((floor_steps (v /ℚ spec.volume_step) == 0) ≡ false)
    × ((floor_steps (spec.volume_max /ℚ spec.volume_step) == 0) ≡ false)
    × (lots
        ≡ round_eighth (
            int (
              min_ℕ (floor_steps (v /ℚ spec.volume_step))
                (floor_steps (spec.volume_max /ℚ spec.volume_step)))
            *ℚ spec.volume_step))

normal_facts :
    (v : ℚ) (spec : SymbolSpec) (lots : ℚ)
    → normalize_volume (some v) spec ≡ some lots
    → NormalFacts v spec lots
unfolding normalize_volume positive NormalFacts
normal_facts v spec lots h = ground arith

steps_bound :
    (v : ℚ) (spec : SymbolSpec) (k : ℕ)
    → is_pos spec.volume_step ≡ true
    → (floor_steps (v /ℚ spec.volume_step) == 0) ≡ false
    → k ≤ floor_steps (v /ℚ spec.volume_step)
    → round_eighth (int k *ℚ spec.volume_step) ≤ℚ rounded_up v spec
steps_bound v spec k step nonzero h =
    let q = v /ℚ spec.volume_step in
    steps_le v spec.volume_step k step (
      le_ℚ_trans (int k) (int (floor_steps q)) (q +ℚ billionth) (int-mono k (floor_steps q) h)
        (floor_steps-le q nonzero))

-- A normalized volume reaches the broker's minimum, and exceeds neither the wanted volume nor the
-- broker's maximum by more than the rounding: a billionth of a step and half of the eighth decimal.
pub normalize_volume_bounds :
    (v : ℚ) (spec : SymbolSpec) (lots : ℚ)
    → normalize_volume (some v) spec ≡ some lots
    → (spec.volume_min ≤ℚ lots)
      × (lots ≤ℚ rounded_up v spec)
      × (lots ≤ℚ rounded_up spec.volume_max spec)
unfolding NormalFacts
normalize_volume_bounds v spec lots h =
    let (reach, step, pos, some_steps, some_max, e) = normal_facts v spec lots h in
    let m = floor_steps (v /ℚ spec.volume_step) in
    let n = floor_steps (spec.volume_max /ℚ spec.volume_step) in
    let least = min_ℕ_le m n in
    (
      leb_ℚ→le spec.volume_min lots reach,
      rw e (steps_bound v spec (min_ℕ m n) step some_steps least.0),
      rw e (steps_bound spec.volume_max spec (min_ℕ m n) step some_max least.1),
    )

RiskFacts : ℚ → ℚ → SymbolSpec → ℚ → Type 0
RiskFacts entry stop_loss spec per_lot =
    (is_pos (abs (entry -ℚ stop_loss)) ≡ true)
    × ((is_pos spec.tick_size ≡ true)
          × (is_pos spec.tick_value ≡ true)
          × (per_lot ≡ abs (entry -ℚ stop_loss) /ℚ spec.tick_size *ℚ spec.tick_value)
        ⊎ (is_pos spec.contract_size ≡ true)
          × (per_lot ≡ abs (entry -ℚ stop_loss) *ℚ spec.contract_size))

risk_facts :
    (entry stop_loss : ℚ) (spec : SymbolSpec) (per_lot : ℚ)
    → risk_per_lot entry stop_loss spec ≡ some per_lot
    → RiskFacts entry stop_loss spec per_lot
unfolding risk_per_lot positive RiskFacts
risk_facts entry stop_loss spec per_lot h =
    ground (arith, is_pos_of_not_le (abs (entry -ℚ stop_loss)))

-- A price risk that can be derived is positive.
pub risk_per_lot-pos :
    (entry stop_loss : ℚ) (spec : SymbolSpec) (per_lot : ℚ)
    → risk_per_lot entry stop_loss spec ≡ some per_lot
    → is_pos per_lot ≡ true
unfolding RiskFacts
risk_per_lot-pos entry stop_loss spec per_lot h =
    let distance = abs (entry -ℚ stop_loss) in
    elim (risk_facts entry stop_loss spec per_lot h).1 [
      | inl (size, value, e) ↦ rw e (
          is_pos-mul (distance /ℚ spec.tick_size) spec.tick_value
            (is_pos-div distance spec.tick_size (risk_facts entry stop_loss spec per_lot h).0 size)
            value)
      | inr (contract, e) ↦ rw e (
          is_pos-mul distance spec.contract_size (risk_facts entry stop_loss spec per_lot h).0
            contract)
    ]

-- What a volume sized for a budget may lose beyond it, by rounding.
abbrev pub budget_slack : ℚ → ℚ → SymbolSpec → ℚ
budget_slack budget per_lot spec =
    budget +ℚ billionth *ℚ spec.volume_step *ℚ per_lot +ℚ half_unit *ℚ per_lot

sized_for :
    (budget entry stop_loss : ℚ) (spec : SymbolSpec) (lots per_lot : ℚ)
    → size_for_loss_budget budget entry stop_loss spec ≡ some lots
    → risk_per_lot entry stop_loss spec ≡ some per_lot
    → normalize_volume (some (budget /ℚ per_lot)) spec ≡ some lots
unfolding size_for_loss_budget
sized_for budget entry stop_loss spec lots per_lot h e = ground arith

risk_of_lots :
    (lots budget per_lot : ℚ) (spec : SymbolSpec)
    → is_pos per_lot ≡ true
    → lots ≤ℚ rounded_up (budget /ℚ per_lot) spec
    → lots *ℚ per_lot ≤ℚ budget_slack budget per_lot spec
risk_of_lots lots budget per_lot spec p h =
    let v = budget /ℚ per_lot in
    let s = billionth *ℚ spec.volume_step in
    le_ℚ_trans (lots *ℚ per_lot) (rounded_up v spec *ℚ per_lot) _
      (mul_mono_ℚ lots (rounded_up v spec) per_lot h (is_pos_minus per_lot p))
      (le_ℚ_trans (rounded_up v spec *ℚ per_lot) ((v +ℚ s) *ℚ per_lot +ℚ half_unit *ℚ per_lot) _
        (add_mul_ℚ (v +ℚ s) half_unit per_lot)
        (add_mono_ℚ ((v +ℚ s) *ℚ per_lot) (budget +ℚ s *ℚ per_lot) (half_unit *ℚ per_lot) (
          le_ℚ_trans ((v +ℚ s) *ℚ per_lot) (v *ℚ per_lot +ℚ s *ℚ per_lot) _ (add_mul_ℚ v s per_lot)
            (add_mono_ℚ (v *ℚ per_lot) budget (s *ℚ per_lot) (div_mul_ℚ budget per_lot p)))))

-- A volume sized for a loss budget has a derivable loss per lot and loses at most the budget at its
-- stop, up to the rounding of the volume (a billionth of a step and half of the eighth decimal,
-- each priced per lot); it is within the broker's minimum and, up to the same rounding, maximum.
pub size_for_loss_budget_bounds :
    (budget entry stop_loss : ℚ) (spec : SymbolSpec) (lots per_lot : ℚ)
    → size_for_loss_budget budget entry stop_loss spec ≡ some lots
    → risk_per_lot entry stop_loss spec ≡ some per_lot
    → (lots *ℚ per_lot ≤ℚ budget_slack budget per_lot spec)
      × (spec.volume_min ≤ℚ lots)
      × (lots ≤ℚ rounded_up spec.volume_max spec)
size_for_loss_budget_bounds budget entry stop_loss spec lots per_lot h e =
    let bounds =
      normalize_volume_bounds (budget /ℚ per_lot) spec lots
        (sized_for budget entry stop_loss spec lots per_lot h e) in
    (
      risk_of_lots lots budget per_lot spec (risk_per_lot-pos entry stop_loss spec per_lot e)
          bounds.1,
      bounds.0,
      bounds.2,
    )
