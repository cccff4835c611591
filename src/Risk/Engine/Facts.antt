-- ===== src/Risk/Engine/Facts.antt =====
-- The inputs of one assessment and the numbers derived from them (app/risk/engine.py).
use mt5_trading_bot.Base.{ℕ, Bool, if◌then◌else◌, Option, none, some, unwrap_or}
use mt5_trading_bot.Num.{ℚ, int, ◌-ℚ◌, ◌*ℚ◌, ◌/ℚ◌, abs, eqb_ℚ, leb_ℚ, ltb_ℚ, is_pos}
use mt5_trading_bot.Core.Settings.{Settings}
use mt5_trading_bot.Core.Signal.{Signal, Action}
use mt5_trading_bot.Core.Account.{AccountProfile}
use mt5_trading_bot.Risk.Sizing.{
  SymbolSpec, risk_per_lot, required_margin, position_risk, size_for_loss_budget,
  minimum_volume_risk, value_per_point_per_lot,
}

-- `EntryFacts`; `none` is an input that could not be verified.
pub record EntryFacts : Type 0 where
  pub spec : Option SymbolSpec
  pub connected : Bool
  pub account : Option AccountProfile
  pub algo_trading_enabled : Option Bool
  pub data_age_seconds : Option ℚ
  pub momentum_action : Option Action
  pub spread_points : Option ℚ
  pub open_positions : Option ℕ
  pub symbol_positions : Option ℕ
  pub exposure : Option ℚ
  pub margin_level : Option ℚ
  pub duplicate_exists : Bool
  pub emergency_locked : Bool
  pub trading_enabled : Bool
  pub free_margin : Option ℚ
  pub equity : Option ℚ
  pub leverage : ℚ

-- A number that is there and is not 0, as Python's truth test reads it.
unfoldable pub truthy : Option ℚ → Option ℚ
truthy none = none
truthy (some v) = if eqb_ℚ v (int 0) then none else some v

unfoldable pub exposure_pct : Option ℚ → Option ℚ → Option ℚ
exposure_pct none equity = none
exposure_pct (some notional) none = none
exposure_pct (some notional) (some equity) =
    if leb_ℚ equity (int 0)
    then none
    else if ltb_ℚ notional (int 0)
    then none
    else some (notional /ℚ equity *ℚ int 100)

-- The numbers of the pure sizing code.
pub record Derived : Type 0 where
  pub entry : Option ℚ
  pub stop_loss : Option ℚ
  pub risk_distance : Option ℚ
  pub stop_points : Option ℚ
  pub per_lot : Option ℚ
  pub value_point : Option ℚ
  pub volume : Option ℚ
  pub risk_usd : Option ℚ
  pub min_lot_risk : Option ℚ
  pub margin : Option ℚ
  pub risk_reward : Option ℚ

-- Entry, stop and specification, all there, with a positive point.
distance_of : Option SymbolSpec → Option ℚ → Option ℚ → Option ℚ
distance_of (some spec) (some entry) (some stop) =
    if is_pos spec.point then some (abs (entry -ℚ stop)) else none
distance_of _ _ _ = none

points_of : Option SymbolSpec → Option ℚ → Option ℚ
points_of (some spec) (some distance) = some (distance /ℚ spec.point)
points_of _ _ = none

per_lot_of : Option SymbolSpec → Option ℚ → Option ℚ → Option ℚ
per_lot_of (some spec) (some entry) (some stop) =
    if is_pos spec.point then risk_per_lot entry stop spec else none
per_lot_of _ _ _ = none

value_of : Option SymbolSpec → Option ℚ → Option ℚ
value_of (some spec) (some distance) = value_per_point_per_lot spec
value_of _ _ = none

volume_of : Settings → Option SymbolSpec → Option ℚ → Option ℚ → Option ℚ
volume_of settings none entry stop = none
volume_of settings (some spec) entry stop =
    size_for_loss_budget settings.max_loss_per_trade_usd (unwrap_or entry (int 0))
      (unwrap_or stop (int 0)) spec

risk_of : Option ℚ → Option SymbolSpec → Option ℚ → Option ℚ → Option ℚ
risk_of (some volume) (some spec) (some entry) (some stop) = position_risk volume entry stop spec
risk_of _ _ _ _ = none

min_risk_of : Option SymbolSpec → Option ℚ → Option ℚ → Option ℚ
min_risk_of (some spec) (some entry) (some stop) = minimum_volume_risk entry stop spec
min_risk_of _ _ _ = none

margin_of : Option ℚ → Option SymbolSpec → Option ℚ → ℚ → Option ℚ
margin_of (some volume) (some spec) (some entry) leverage =
    required_margin volume spec entry leverage
margin_of _ _ _ _ = none

reward_of : Option ℚ → Option ℚ → Option ℚ → Option ℚ
reward_of (some target) (some entry) (some distance) = some (abs (target -ℚ entry) /ℚ distance)
reward_of _ _ _ = none

unfoldable pub derive : Settings → Signal → EntryFacts → Derived
unfolding distance_of points_of per_lot_of value_of volume_of risk_of min_risk_of margin_of
    reward_of
derive settings signal facts =
    let spec = facts.spec in
    let entry = truthy signal.entry in
    let stop = truthy signal.stop_loss in
    let distance = distance_of spec entry stop in
    let volume = volume_of settings spec entry stop in
    record {
      entry = entry;
      stop_loss = signal.stop_loss;
      risk_distance = distance;
      stop_points = points_of spec distance;
      per_lot = per_lot_of spec entry stop;
      value_point = value_of spec distance;
      volume = volume;
      risk_usd = risk_of (truthy volume) spec entry stop;
      min_lot_risk = min_risk_of spec entry stop;
      margin = margin_of (truthy volume) spec entry facts.leverage;
      risk_reward = reward_of (truthy signal.take_profit) entry (truthy distance);
    }
