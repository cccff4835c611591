-- ===== src/Execution/Validation.antt =====
-- app/execution/validation.py: no order leaves without a protective stop. The list of reasons is the
-- list of the messages, one constructor for each; an order passes where the list is empty.
pub mod Geometry
use mt5_trading_bot.Base.{
  Bool, true, false, not, ◌&&◌, ◌||◌, if◌then◌else◌, Option, none, some, List, [], ◌∷◌, ◌++◌,
}
use mt5_trading_bot.Num.{ℚ, int, ratio, billionth, ◌+ℚ◌, ◌-ℚ◌, ◌*ℚ◌, ◌/ℚ◌, abs, leb_ℚ, ltb_ℚ}
use mt5_trading_bot.Core.Signal.{Action, buy, sell, hold}
use mt5_trading_bot.Risk.Sizing.{SymbolSpec, min_stop_distance}

-- 1e-12
abbrev pub price_epsilon : ℚ
price_epsilon = ratio 1 999999999999

pub data StopReason : Type 0 where
  bad_side bad_entry no_stop zero_distance too_close stop_not_below stop_not_above : StopReason
  bad_target target_not_above target_not_below low_reward : StopReason

-- A reason where the test holds.
abbrev pub when : {A : Type 0} → Bool → A → List A
when true a = a ∷ []
when false a = []

-- `value is None or value <= 0`
unfoldable pub unusable : Option ℚ → Bool
unusable none = true
unusable (some v) = leb_ℚ v (int 0)

-- `_side`: an action that can be ordered.
abbrev pub tradable : Action → Bool
tradable buy = true
tradable sell = true
tradable hold = false

stop_side_reasons : Action → ℚ → ℚ → List StopReason
stop_side_reasons buy entry stop =
    when (leb_ℚ (entry -ℚ price_epsilon) stop) StopReason.stop_not_below
stop_side_reasons _ entry stop =
    when (leb_ℚ stop (entry +ℚ price_epsilon)) StopReason.stop_not_above

stop_reasons : Action → ℚ → ℚ → SymbolSpec → List StopReason
unfolding stop_side_reasons
stop_reasons side entry stop spec =
    let risk = abs (entry -ℚ stop) in
    let minimum = min_stop_distance spec in
    if leb_ℚ risk (int 0)
    then StopReason.zero_distance ∷ []
    else when (ltb_ℚ (int 0) minimum && ltb_ℚ risk minimum) StopReason.too_close
      ++ stop_side_reasons side entry stop

target_side_reasons : Action → ℚ → ℚ → List StopReason
target_side_reasons buy entry target =
    when (leb_ℚ target (entry +ℚ price_epsilon)) StopReason.target_not_above
target_side_reasons _ entry target =
    when (leb_ℚ (entry -ℚ price_epsilon) target) StopReason.target_not_below

reward_reasons : ℚ → ℚ → ℚ → Option ℚ → List StopReason
reward_reasons entry risk target none = []
reward_reasons entry risk target (some ratio) =
    when (ltb_ℚ (int 0) risk && ltb_ℚ (abs (target -ℚ entry) /ℚ risk) (ratio -ℚ billionth))
      StopReason.low_reward

target_reasons : Action → ℚ → ℚ → Option ℚ → Option ℚ → List StopReason
unfolding target_side_reasons reward_reasons
target_reasons side entry stop none min_risk_reward = []
target_reasons side entry stop (some target) min_risk_reward =
    if leb_ℚ target (int 0)
    then StopReason.bad_target ∷ []
    else target_side_reasons side entry target
      ++ reward_reasons entry (abs (entry -ℚ stop)) target min_risk_reward

-- The reasons against an order; `[]` is the code's `ok`.
unfoldable pub validate_stops :
    Action → Option ℚ → Option ℚ → Option ℚ → SymbolSpec → Option ℚ → List StopReason
unfolding unusable stop_reasons target_reasons
validate_stops action none stop_loss take_profit spec min_risk_reward =
    when (not (tradable action)) StopReason.bad_side
    ++ StopReason.bad_entry ∷ when (unusable stop_loss) StopReason.no_stop
validate_stops action (some entry) none take_profit spec min_risk_reward =
    when (not (tradable action)) StopReason.bad_side
    ++ when (unusable (some entry)) StopReason.bad_entry
    ++ StopReason.no_stop ∷ []
validate_stops action (some entry) (some stop) take_profit spec min_risk_reward =
    if not (tradable action) || (leb_ℚ entry (int 0) || leb_ℚ stop (int 0))
    then when (not (tradable action)) StopReason.bad_side
      ++ when (leb_ℚ entry (int 0)) StopReason.bad_entry
      ++ when (leb_ℚ stop (int 0)) StopReason.no_stop
    else stop_reasons action entry stop spec
      ++ target_reasons action entry stop take_profit min_risk_reward
