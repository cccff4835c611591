-- ===== src/Core/Signal.antt =====
-- app/core/schemas.py: signals and trade intents.
use mt5_trading_bot.Base.{ℕ, Bool, true, false, Option, [], ◌∷◌}
use mt5_trading_bot.Num.{ℚ}
use mt5_trading_bot.Core.Text.{Text}

pub data Action : Type 0 where
  buy sell hold : Action

abbrev pub same_action : Action → Action → Bool
same_action buy buy = true
same_action sell sell = true
same_action hold hold = true
same_action _ _ = false

abbrev pub action_name : Action → Text
action_name buy = b'B' ∷ b'U' ∷ b'Y' ∷ []
action_name sell = b'S' ∷ b'E' ∷ b'L' ∷ b'L' ∷ []
action_name hold = b'H' ∷ b'O' ∷ b'L' ∷ b'D' ∷ []

pub data SignalStatus : Type 0 where
  new blocked risk_rejected abandoned executed submitted rejected failed duplicate : SignalStatus

pub record Signal : Type 0 where
  pub action : Action
  pub confidence : ℚ
  pub score : ℕ
  pub symbol : Text
  pub entry : Option ℚ
  pub stop_loss : Option ℚ
  pub take_profit : Option ℚ
  pub strategy : Text
  pub timeframe : Text
  pub timestamp : ℕ

pub record TradeIntent : Type 0 where
  pub trade_id : Text
  pub signal : Signal
  pub volume : ℚ
  pub requested_price : ℚ
  pub idempotency_key : Text
  pub signal_id : Option Text
