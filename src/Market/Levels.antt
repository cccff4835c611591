-- ===== src/Market/Levels.antt =====
-- app/services/scheduler.py, `_levels` and `_round_step`, and the tick of app/services/market.py: the
-- levels of a signal at the price the market shows now.
pub mod Distance
use mt5_trading_bot.Base.{
  ℕ, suc, ◌+◌, ◌-◌, ◌/◌, ◌^◌, Bool, true, false, not, ◌||◌, leb, ltb, if◌then◌else◌, Option, none,
  some, List, [], ◌∷◌, unwrap_or,
}
use mt5_trading_bot.Num.{
  ℚ, den, int, ratio, neg, billionth, ◌+ℚ◌, ◌-ℚ◌, ◌*ℚ◌, ◌/ℚ◌, abs, leb_ℚ, ltb_ℚ, round_half_even,
}
use mt5_trading_bot.Core.Settings.{Settings}
use mt5_trading_bot.Core.Signal.{Action, buy, sell, Signal}
use mt5_trading_bot.Risk.Sizing.{SymbolSpec}
use mt5_trading_bot.Risk.Engine.Facts.{truthy}
use mt5_trading_bot.Execution.Validation.{validate_stops, tradable}
use mt5_trading_bot.Strategies.Common.{Levels}

pub record TickSnapshot : Type 0 where
  pub bid : ℚ
  pub ask : ℚ
  pub time : ℕ

abbrev pub mid : TickSnapshot → ℚ
mid t = (t.bid +ℚ t.ask) /ℚ int 2

-- A tick as the terminal gives it: bid and ask where they are numbers, and the moment where
-- `epoch_to_utc` finds one.
pub record RawTick : Type 0 where
  pub bid : Option ℚ
  pub ask : Option ℚ
  pub time : Option ℕ

timed : ℚ → ℚ → Option ℕ → ℕ → ℚ → Option TickSnapshot
timed bid ask none now max_age = none
timed bid ask (some moment) now max_age =
    if ltb_ℚ max_age (int (now - moment))
    then none
    else some record { bid = bid; ask = ask; time = moment }

priced : Option ℚ → Option ℚ → Option ℕ → ℕ → ℚ → Option TickSnapshot
unfolding timed
priced (some bid) (some ask) time now max_age =
    if leb_ℚ bid (int 0) || leb_ℚ ask (int 0)
    then none
    else if ltb_ℚ ask bid
    then none
    else timed bid ask time now max_age
priced _ _ time now max_age = none

-- `tick_snapshot`
unfoldable pub tick_snapshot : Option RawTick → ℕ → ℚ → Option TickSnapshot
unfolding priced
tick_snapshot none now max_age = none
tick_snapshot (some t) now max_age = priced t.bid t.ask t.time now max_age

-- The whole numbers next to a value, below and above.
unfoldable pub floor_int : ℚ → ℚ
floor_int q =
    if leb q.minus q.plus
    then int ((q.plus - q.minus) / den q)
    else neg (int ((q.minus - q.plus + q.pred_den) / den q))

unfoldable pub ceil_int : ℚ → ℚ
unfolding floor_int
ceil_int q = neg (floor_int (neg q))

-- `_round_step`
unfoldable pub round_step : ℚ → ℚ → Bool → ℚ
unfolding floor_int ceil_int
round_step value step up =
    if leb_ℚ step (int 0)
    then value
    else (if up then ceil_int (value /ℚ step) else floor_int (value /ℚ step)) *ℚ step

-- `Decimal(1).scaleb(-digits)`
abbrev pub step_of : ℕ → ℚ
step_of digits = ratio 1 (10 ^ digits - 1)

-- `quantize` of a price, which is positive.
unfoldable pub quantized : ℚ → ℚ → ℚ
quantized price step = int (round_half_even (price /ℚ step)) *ℚ step

abbrev pub is_buy : Action → Bool
is_buy buy = true
is_buy _ = false

-- The reward to keep: the strategy's own where it names a target, refused below the configured one.
unfoldable pub kept_ratio : ℚ → Option ℚ → ℚ → ℚ → Option ℚ
kept_ratio required none reference risk = some required
kept_ratio required (some target) reference risk =
    let implied = abs (target -ℚ reference) /ℚ risk in
    if ltb_ℚ implied (required -ℚ billionth) then none else some implied

unfoldable pub anchored : Action → ℚ → ℚ → ℚ → ℚ → Levels
unfolding round_step
anchored action entry step risk reward =
    let up = is_buy action in
    let stop = round_step (if up then entry -ℚ risk else entry +ℚ risk) step (not up) in
    let distance = abs (entry -ℚ stop) in
    record {
      entry = entry;
      stop_loss = stop;
      take_profit =
          round_step (if up then entry +ℚ distance *ℚ reward else entry -ℚ distance *ℚ reward) step
            up;
    }

abbrev pub if_valid : Settings → Action → SymbolSpec → Levels → Option Levels
if_valid settings action spec l =
    elim (validate_stops action (some l.entry) (some l.stop_loss) (some l.take_profit) spec
      (some settings.min_risk_reward_ratio)) [ [] ↦ some l | _ ∷ _ ↦ none ]

abbrev pub entry_of : Action → TickSnapshot → ℕ → ℚ
entry_of action tick digits =
    quantized (if is_buy action then tick.ask else tick.bid) (step_of digits)

abbrev pub reference_of : Signal → TickSnapshot → ℚ
reference_of signal tick = unwrap_or (truthy signal.entry) (mid tick)

unfoldable pub anchor : Settings → Signal → SymbolSpec → TickSnapshot → ℚ → ℚ → Option Levels
unfolding kept_ratio anchored quantized
anchor settings signal spec tick reference risk =
    if leb_ℚ risk (int 0)
    then none
    else elim (kept_ratio settings.min_risk_reward_ratio signal.take_profit reference risk) [
      | none ↦ none
      | some reward ↦ if_valid settings signal.action spec (
          anchored signal.action (entry_of signal.action tick spec.digits) (step_of spec.digits)
            risk reward)
    ]

-- `_levels`; the reasons are left out.
unfoldable pub levels : Settings → Signal → SymbolSpec → TickSnapshot → Option Levels
unfolding anchor truthy
levels settings signal spec tick =
    if tradable signal.action
    then elim signal.stop_loss [
      | none ↦ none
      | some stop ↦
          let reference = reference_of signal tick in
          anchor settings signal spec tick reference (abs (reference -ℚ stop))
    ]
    else none
