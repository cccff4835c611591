-- ===== src/Database.antt =====
-- app/database/base.py and app/database/runtime.py: the tables, as records in insertion order. A
-- moment is a number of seconds since the epoch, a day the number of days; columns that no
-- modelled code reads (surrogate ids, `updated_at`, JSON metadata) are left out.
use mt5_trading_bot.Base.{ℕ, Bool, Option, List}
use mt5_trading_bot.Num.{ℚ}
use mt5_trading_bot.Core.Text.{Text}
use mt5_trading_bot.Core.Message.{Message}
use mt5_trading_bot.Core.Signal.{Action, SignalStatus}

pub record RiskRow : Type 0 where
  pub day : ℕ
  pub realized_pnl : ℚ
  pub starting_equity : Option ℚ
  pub peak_equity : Option ℚ
  pub emergency_locked : Bool
  pub trades_opened : ℕ
  pub session_started_at : Option ℕ
  pub kill_switch_reason : Option Message

pub record AuthorizationRow : Type 0 where
  pub consumed : Bool
  pub consumed_at : Option ℕ
  pub consumed_trade_id : Option Text
  pub consumed_reason : Option Text

-- The statuses of trades and execution guards.
pub data TradeStatus : Type 0 where
  pending executed submitted rejected failed duplicate closed partially_closed retired : TradeStatus

pub record TradeRow : Type 0 where
  pub trade_id : Text
  pub symbol : Text
  pub side : Action
  pub volume : ℚ
  pub status : TradeStatus
  pub mt5_order_ticket : Option Text
  pub mt5_position_ticket : Option Text
  pub requested_price : Option ℚ
  pub executed_price : Option ℚ
  pub stop_loss : ℚ
  pub take_profit : Option ℚ
  pub signal_score : ℕ
  pub strategy : Text
  pub exit_price : Option ℚ
  pub commission : Option ℚ
  pub swap : Option ℚ
  pub profit : Option ℚ
  pub open_time : Option ℕ
  pub close_time : Option ℕ
  pub mt5_deal_ticket : Option Text
  pub volume_closed : Option ℚ
  pub close_reason : Option Text
  pub created_at : ℕ

pub record GuardRow : Type 0 where
  pub idempotency_key : Text
  pub signal_id : Option Text
  pub symbol : Text
  pub side : Action
  pub volume : ℚ
  pub status : TradeStatus
  pub order_ticket : Option Text
  pub created_at : ℕ

pub record SignalRow : Type 0 where
  pub signal_id : Text
  pub symbol : Text
  pub strategy : Text
  pub timeframe : Text
  pub direction : Action
  pub confidence : ℚ
  pub score : ℕ
  pub entry_price : Option ℚ
  pub stop_loss : Option ℚ
  pub take_profit : Option ℚ
  pub executed : Bool
  pub status : SignalStatus
  pub order_ticket : Option Text
  pub created_at : ℕ

-- The lease of the market loop.
pub record LockRow : Type 0 where
  pub owner : Text
  pub acquired_at : ℕ
  pub heartbeat_at : ℕ

-- The audit rows that the modelled code writes.
pub data Event : Type 0 where
  trade_event : TradeStatus → Event
  protection_corrected protection_failed emergency_lock emergency_reset : Event
  emergency_stop : Bool → Bool → Event
  guard_retired reconciliation : Event

pub record Db : Type 0 where
  pub risk_rows : List RiskRow
  pub authorization : Option AuthorizationRow
  pub trades : List TradeRow
  pub guards : List GuardRow
  pub signals : List SignalRow
  pub lease : Option LockRow
  pub events : List Event
