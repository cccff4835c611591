-- ===== src/Risk/Engine/Checks.antt =====
-- The verdict of each check of the chain (app/risk/engine.py, `assess`): true is a pass.
use mt5_trading_bot.Base.{ℕ, Bool, true, false, not, ◌&&◌, ◌||◌, ltb, Option, none, some, is_some}
use mt5_trading_bot.Num.{ℚ, int, billionth, ◌+ℚ◌, ◌-ℚ◌, eqb_ℚ, leb_ℚ, ltb_ℚ}
use mt5_trading_bot.Core.Settings.{Settings, live_orders_permitted}
use mt5_trading_bot.Core.Signal.{Signal, Action, buy, sell, hold, same_action}
use mt5_trading_bot.Core.Account.{AccountProfile, classified, is_real}
use mt5_trading_bot.Risk.Sizing.{SymbolSpec, min_stop_distance}
use mt5_trading_bot.Risk.Engine.Facts.{Derived, exposure_pct}
use mt5_trading_bot.Execution.Validation.{price_epsilon, tradable}

-- 2: the broker's trade mode decides.
unfoldable pub account_authorized : Settings → Option AccountProfile → Bool
account_authorized settings none = false
account_authorized settings (some a) =
    classified a && not (is_real a && not (live_orders_permitted settings))

-- 4
unfoldable pub algo_enabled : Option Bool → Bool
algo_enabled none = false
algo_enabled (some b) = b

-- A measured value that is at most its limit; what was not measured fails.
unfoldable pub known_at_most : Option ℚ → ℚ → Bool
known_at_most none limit = false
known_at_most (some v) limit = leb_ℚ v limit

-- 6
unfoldable pub trend_signal : Settings → Signal → Bool
trend_signal settings signal =
    tradable signal.action
    && (not (ltb signal.score settings.min_signal_score)
        && not (ltb_ℚ settings.max_risk_per_trade_pct settings.risk_per_trade_pct))

-- 7: momentum must not contradict the trend.
unfoldable pub momentum_confirmed : Action → Option Action → Bool
momentum_confirmed action none = false
momentum_confirmed action (some m) =
    not (tradable action) || (same_action m hold || same_action m action)

-- 9: where the side and the entry agree. `float(entry)` of a missing entry raises in the code; the
-- loop never sends one, and here it fails.
unfoldable pub stop_side_ok : Action → Option ℚ → ℚ → Bool
stop_side_ok action none stop = false
stop_side_ok buy (some entry) stop = not (leb_ℚ (entry -ℚ price_epsilon) stop)
stop_side_ok sell (some entry) stop = not (leb_ℚ stop (entry +ℚ price_epsilon))
stop_side_ok hold (some entry) stop = false

unfoldable pub stop_distance_ok : SymbolSpec → Option ℚ → Bool
stop_distance_ok spec none = true
stop_distance_ok spec (some distance) =
    not (ltb_ℚ (int 0) (min_stop_distance spec) && ltb_ℚ distance (min_stop_distance spec))

unfoldable pub valid_stop_loss : Option SymbolSpec → Action → Derived → Bool
unfolding stop_distance_ok
valid_stop_loss none action d = false
valid_stop_loss (some spec) action d = elim d.stop_loss [
  | none ↦ false
  | some stop ↦
      not (leb_ℚ stop (int 0))
      && (stop_side_ok action d.entry stop && stop_distance_ok spec d.risk_distance)
]

-- 10: without a side the code tests only that there is a positive target.
unfoldable pub target_side_ok : Action → Option ℚ → ℚ → Bool
target_side_ok buy (some entry) target = not (leb_ℚ target (entry +ℚ price_epsilon))
target_side_ok sell (some entry) target = not (leb_ℚ (entry -ℚ price_epsilon) target)
target_side_ok hold entry target = true
target_side_ok _ none target = false

unfoldable pub valid_take_profit : Action → Option ℚ → Option ℚ → Bool
valid_take_profit action entry none = false
valid_take_profit action entry (some target) =
    not (leb_ℚ target (int 0)) && target_side_ok action entry target

-- 11
unfoldable pub risk_reward_ok : Settings → Option ℚ → Bool
risk_reward_ok settings none = false
risk_reward_ok settings (some reward) = leb_ℚ (settings.min_risk_reward_ratio -ℚ billionth) reward

-- 12: no volume is a rejection, whether it is the minimum lot or the sizing that fails.
unfoldable pub within_risk : Settings → Option ℚ → Bool
within_risk settings none = true
within_risk settings (some risk) = leb_ℚ risk (settings.max_loss_per_trade_usd +ℚ billionth)

unfoldable pub sized_ok : Settings → Option ℚ → Option ℚ → Bool
sized_ok settings none risk = false
sized_ok settings (some volume) risk =
    leb_ℚ volume (settings.max_lots_per_position +ℚ billionth) && within_risk settings risk

stop_truthy : Option ℚ → Bool
stop_truthy none = false
stop_truthy (some s) = not (eqb_ℚ s (int 0))

unfoldable pub position_sizing : Settings → Option SymbolSpec → Derived → Bool
unfolding stop_truthy
position_sizing settings spec d =
    is_some spec
    && (is_some d.entry
        && (stop_truthy d.stop_loss
            && (is_some d.risk_distance
                && (is_some d.per_lot && sized_ok settings d.volume d.risk_usd))))

-- 13
unfoldable pub margin_within_capital : Settings → Option ℚ → Option ℚ → Option ℚ → Bool
margin_within_capital settings none margin free = false
margin_within_capital settings (some volume) none free = false
margin_within_capital settings (some volume) (some margin) none = false
margin_within_capital settings (some volume) (some margin) (some free) =
    leb_ℚ margin (settings.max_bot_capital_usd +ℚ billionth) && leb_ℚ margin (free +ℚ billionth)

-- 14: an unknown level passes.
unfoldable pub margin_level_ok : Settings → Option ℚ → Bool
margin_level_ok settings none = true
margin_level_ok settings (some level) = leb_ℚ settings.min_margin_level_pct level

-- 15: no exposure given passes; one that cannot be put against the equity fails.
unfoldable pub total_exposure : Settings → Option ℚ → Option ℚ → Bool
total_exposure settings none equity = true
total_exposure settings (some notional) equity =
    known_at_most (exposure_pct (some notional) equity) settings.max_total_exposure_pct

-- 19 and 20: a count that is known and below its limit.
unfoldable pub known_below : Option ℕ → ℕ → Bool
known_below none limit = false
known_below (some n) limit = ltb n limit
