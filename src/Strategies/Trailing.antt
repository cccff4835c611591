-- ===== src/Strategies/Trailing.antt =====
-- app/portfolio/manager.py: the protective stop of an open position. The gateway's modification is
-- given.
pub mod Ratchet
use mt5_trading_bot.Base.{ℕ, Bool, true, false, ◌||◌, if◌then◌else◌, Option, none, some}
use mt5_trading_bot.Num.{ℚ, int, ratio, ◌+ℚ◌, ◌-ℚ◌, ◌*ℚ◌, ◌/ℚ◌, abs, eqb_ℚ, leb_ℚ, ltb_ℚ}
use mt5_trading_bot.Core.Text.{Text}

pub record TrailingPolicy : Type 0 where
  pub break_even_r : ℚ
  pub activate_r : ℚ
  pub atr_multiple : ℚ
  pub minimum_change_points : ℕ

abbrev pub default_policy : TrailingPolicy
default_policy = record {
  break_even_r = int 1;
  activate_r = ratio 3 1;
  atr_multiple = int 1;
  minimum_change_points = 5;
}

-- The broker's position: `is_buy` is `type == POSITION_TYPE_BUY`, and a stop of 0 is none.
pub record Holding : Type 0 where
  pub ticket : Text
  pub symbol : Text
  pub is_buy : Bool
  pub price_open : ℚ
  pub stop : ℚ
  pub target : ℚ

pub record Observation : Type 0 where
  pub price : ℚ
  pub atr : ℚ
  pub point : ℚ

abbrev pub risk_of : Holding → ℚ
risk_of h = abs (h.price_open -ℚ h.stop)

abbrev pub progress_of : Holding → ℚ → ℚ
progress_of h price =
    if h.is_buy then (price -ℚ h.price_open) /ℚ risk_of h else (h.price_open -ℚ price) /ℚ risk_of h

abbrev pub proposed_of : TrailingPolicy → Holding → Observation → ℚ
proposed_of policy h o =
    if ltb_ℚ (progress_of h o.price) policy.activate_r
    then h.price_open
    else if h.is_buy
    then o.price -ℚ o.atr *ℚ policy.atr_multiple
    else o.price +ℚ o.atr *ℚ policy.atr_multiple

abbrev pub improves : Bool → ℚ → ℚ → Bool
improves is_buy proposed stop = if is_buy then ltb_ℚ stop proposed else ltb_ℚ proposed stop

abbrev pub too_small : TrailingPolicy → ℚ → ℚ → ℚ → Bool
too_small policy proposed stop point =
    ltb_ℚ (abs (proposed -ℚ stop) /ℚ point) (int policy.minimum_change_points)

-- The stop that `manage` asks the gateway for.
unfoldable pub proposal : TrailingPolicy → Holding → Observation → Option ℚ
proposal policy h o =
    if eqb_ℚ h.stop (int 0) || leb_ℚ o.atr (int 0) || leb_ℚ o.point (int 0)
    then none
    else if leb_ℚ (risk_of h) (int 0)
    then none
    else if ltb_ℚ (progress_of h o.price) policy.break_even_r
    then none
    else let proposed = proposed_of policy h o in
      if improves h.is_buy proposed h.stop
      then if too_small policy proposed h.stop o.point then none else some proposed
      else none

unfoldable pub manage {ℓ} :
    {A : Type ℓ} → (Text → Text → ℚ → ℚ → A) → TrailingPolicy → Holding → Observation → Option A
unfolding proposal
manage modify policy h o = elim (proposal policy h o) [
  | none ↦ none
  | some proposed ↦ some (modify h.ticket h.symbol proposed h.target)
]
