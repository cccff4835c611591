-- ===== src/Strategies/Common.antt =====
-- app/strategies/_common.py: the signals that a strategy returns. A timestamp is given, and the
-- reasons of a signal are left out.
use mt5_trading_bot.Base.{ℕ, Bool, true, leb, if◌then◌else◌, Option, none, some, [], ◌∷◌}
use mt5_trading_bot.Num.{ℚ, int, ratio, ◌+ℚ◌, ◌-ℚ◌, ◌*ℚ◌, abs, ltb_ℚ}
use mt5_trading_bot.Core.Text.{Text}
use mt5_trading_bot.Core.Signal.{Action, buy, sell, hold, Signal}

abbrev pub m15 : Text
m15 = b'M' ∷ b'1' ∷ b'5' ∷ []

-- Entry, stop and target.
pub record Levels : Type 0 where
  pub entry : ℚ
  pub stop_loss : ℚ
  pub take_profit : ℚ

abbrev pub hold_signal : Text → Text → Text → ℕ → Signal
hold_signal symbol strategy timeframe now = record {
  action = hold;
  confidence = int 0;
  score = 0;
  symbol = symbol;
  entry = none;
  stop_loss = none;
  take_profit = none;
  strategy = strategy;
  timeframe = timeframe;
  timestamp = now;
}

-- `min(max(int(score), 0), 100)`
abbrev pub bounded : ℕ → ℕ
bounded score = if leb score 100 then score else 100

unfoldable pub trade : Text → Text → Action → ℕ → Levels → Text → ℕ → Signal
trade symbol strategy action score levels timeframe now = record {
  action = action;
  confidence = ratio (bounded score) 99;
  score = bounded score;
  symbol = symbol;
  entry = some levels.entry;
  stop_loss = some levels.stop_loss;
  take_profit = some levels.take_profit;
  strategy = strategy;
  timeframe = timeframe;
  timestamp = now;
}

abbrev target_of : Action → ℚ → ℚ → ℚ
target_of buy entry reward = entry +ℚ reward
target_of _ entry reward = entry -ℚ reward

abbrev on_risk_side : Action → ℚ → ℚ → Bool
on_risk_side buy entry stop = ltb_ℚ stop entry
on_risk_side sell entry stop = ltb_ℚ entry stop
on_risk_side hold entry stop = true

unfoldable pub bracket : Action → ℚ → ℚ → ℚ → Option Levels
bracket action entry stop rr =
    if on_risk_side action entry stop
    then some record {
      entry = entry;
      stop_loss = stop;
      take_profit = target_of action entry (abs (entry -ℚ stop) *ℚ rr);
    }
    else none
