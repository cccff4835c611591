-- ===== src/Market/SignalRows.antt =====
-- app/services/scheduler.py: the signal rows that `_submit_candidate` keeps: their identity, the row a
-- candidate leaves behind, and its status.
use mt5_trading_bot.Base.{
  ℕ, ◌-◌, Bool, true, false, not, ◌||◌, ltb, if◌then◌else◌, none, some, List, [], ◌∷◌, ◌++◌,
}
use mt5_trading_bot.Core.Text.{Text, text_eq, upper}
use mt5_trading_bot.Core.Signal.{action_name, Signal, SignalStatus}
use mt5_trading_bot.Database.{Db, SignalRow}
use mt5_trading_bot.Execution.Records.{find_signal}
use mt5_trading_bot.Execution.Request.{first_chars}
use mt5_trading_bot.Strategies.Common.{Levels}

-- `signal_identity`
unfoldable pub signal_identity : (Text → Text) → (ℕ → Text) → Signal → ℕ → Text
unfolding upper
signal_identity sha256 print signal candle_time =
    b's'
    ∷ b'i'
    ∷ b'g'
    ∷ b'-'
    ∷ first_chars 40 (
        sha256 (
          upper signal.symbol
          ++ b'|' ∷ signal.strategy
          ++ b'|' ∷ signal.timeframe
          ++ b'|' ∷ print candle_time
          ++ b'|' ∷ action_name signal.action))

abbrev pub is_new : SignalStatus → Bool
is_new SignalStatus.new = true
is_new _ = false

-- `_retryable`
unfoldable pub retryable : ℕ → SignalRow → ℕ → Bool
retryable stale_guard_seconds row now =
    if row.executed || not (is_new row.status)
    then false
    else ltb stale_guard_seconds (now - row.created_at)

-- The first row of the identity changed.
unfoldable pub change_signal : Text → (SignalRow → SignalRow) → List SignalRow → List SignalRow
change_signal id f [] = []
change_signal id f (s ∷ ss) =
    let rest = change_signal id f ss in if text_eq s.signal_id id then f s ∷ ss else s ∷ rest

abbrev pub with_signals : (List SignalRow → List SignalRow) → Db → Db
with_signals f db = record db { signals = f db.signals }

abbrev pub persisted_row : Text → Signal → ℕ → SignalRow
persisted_row id signal candle_time = record {
  signal_id = id;
  symbol = signal.symbol;
  strategy = signal.strategy;
  timeframe = signal.timeframe;
  direction = signal.action;
  confidence = signal.confidence;
  score = signal.score;
  entry_price = signal.entry;
  stop_loss = signal.stop_loss;
  take_profit = signal.take_profit;
  executed = false;
  status = SignalStatus.new;
  order_ticket = none;
  created_at = candle_time;
}

-- `_persist_signal`
unfoldable pub persist_signal : Text → Signal → ℕ → Db → Db
persist_signal id signal candle_time db = elim (find_signal id db.signals) [
  | some row ↦ db
  | none ↦ with_signals (λ rows. rows ++ persisted_row id signal candle_time ∷ []) db
]

abbrev pub with_status : SignalStatus → SignalRow → SignalRow
with_status status row = record row { status = status }

abbrev pub with_levels : Levels → SignalRow → SignalRow
with_levels l row = record row {
  entry_price = some l.entry;
  stop_loss = some l.stop_loss;
  take_profit = some l.take_profit;
}

-- `_reject_signal`
unfoldable pub reject_signal : Text → SignalStatus → Db → Db
unfolding change_signal
reject_signal id status db = with_signals (change_signal id (with_status status)) db
