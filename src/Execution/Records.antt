-- ===== src/Execution/Records.antt =====
-- The rows that a submission reads and writes (app/execution/service.py).
use mt5_trading_bot.Base.{
  ℕ, Bool, true, false, ◌||◌, if◌then◌else◌, Option, none, some, List, [], ◌∷◌, ◌++◌, is_some,
  or_else, unwrap_or,
}
use mt5_trading_bot.Num.{ℚ, int}
use mt5_trading_bot.Core.Text.{Text, text_eq, is_empty}
use mt5_trading_bot.Core.Signal.{TradeIntent, SignalStatus}
use mt5_trading_bot.Database.{Db, TradeRow, GuardRow, SignalRow, TradeStatus, Event, trade_event}

unfoldable pub find_trade : Text → List TradeRow → Option TradeRow
find_trade id [] = none
find_trade id (t ∷ ts) = if text_eq t.trade_id id then some t else find_trade id ts

unfoldable pub find_guard : Text → List GuardRow → Option GuardRow
find_guard key [] = none
find_guard key (g ∷ gs) = if text_eq g.idempotency_key key then some g else find_guard key gs

unfoldable pub find_signal : Text → List SignalRow → Option SignalRow
find_signal id [] = none
find_signal id (s ∷ ss) = if text_eq s.signal_id id then some s else find_signal id ss

-- ALLOWED_STATUSES
abbrev pub is_accepted : TradeStatus → Bool
is_accepted TradeStatus.executed = true
is_accepted TradeStatus.submitted = true
is_accepted _ = false

-- The status that a signal takes over from its execution.
abbrev pub signal_status : TradeStatus → SignalStatus
signal_status TradeStatus.executed = SignalStatus.executed
signal_status TradeStatus.submitted = SignalStatus.submitted
signal_status TradeStatus.failed = SignalStatus.failed
signal_status TradeStatus.duplicate = SignalStatus.duplicate
signal_status _ = SignalStatus.rejected

-- `intent.signal_id or intent.trade_id`
abbrev pub signal_id_of : TradeIntent → Text
signal_id_of intent =
    let id = unwrap_or intent.signal_id intent.trade_id in
    if is_empty id then intent.trade_id else id

synced : TradeStatus → Option Text → SignalRow → SignalRow
synced status ticket row = record row {
  executed = row.executed || is_accepted status;
  status = signal_status status;
  order_ticket = or_else ticket row.order_ticket;
}

new_signal : TradeIntent → SignalRow
new_signal intent =
    let signal = intent.signal in
    record {
      signal_id = signal_id_of intent;
      symbol = signal.symbol;
      strategy = signal.strategy;
      timeframe = signal.timeframe;
      direction = signal.action;
      confidence = signal.confidence;
      score = signal.score;
      entry_price = signal.entry;
      stop_loss = signal.stop_loss;
      take_profit = signal.take_profit;
      executed = false;
      status = SignalStatus.new;
      order_ticket = none;
      created_at = signal.timestamp;
    }

put_signal : TradeIntent → TradeStatus → Option Text → List SignalRow → List SignalRow
unfolding synced new_signal
put_signal intent status ticket [] = synced status ticket (new_signal intent) ∷ []
put_signal intent status ticket (s ∷ ss) =
    if text_eq s.signal_id (signal_id_of intent)
    then synced status ticket s ∷ ss
    else s ∷ put_signal intent status ticket ss

-- `_sync_signal`: the persisted signal always reflects the execution outcome.
unfoldable pub sync_signal : TradeIntent → TradeStatus → Option Text → Db → Db
unfolding put_signal
sync_signal intent status ticket db = record db {
  signals = put_signal intent status ticket db.signals;
}

-- What a fill adds to a trade record.
pub record Fill : Type 0 where
  pub ticket : Option Text
  pub deal : Option Text
  pub price : Option ℚ
  pub open_time : Option ℕ

abbrev pub no_fill : Fill
no_fill = record { ticket = none; deal = none; price = none; open_time = none }

unfoldable pub trade_row : TradeIntent → ℚ → TradeStatus → Fill → ℕ → TradeRow
trade_row intent volume status fill now =
    let signal = intent.signal in
    record {
      trade_id = intent.trade_id;
      symbol = signal.symbol;
      side = signal.action;
      volume = volume;
      status = status;
      mt5_order_ticket = fill.ticket;
      mt5_position_ticket = fill.deal;
      requested_price = some intent.requested_price;
      executed_price = fill.price;
      stop_loss = unwrap_or signal.stop_loss (int 0);
      take_profit = signal.take_profit;
      signal_score = signal.score;
      strategy = signal.strategy;
      exit_price = none;
      commission = none;
      swap = none;
      profit = none;
      open_time = fill.open_time;
      close_time = none;
      mt5_deal_ticket = none;
      volume_closed = none;
      close_reason = none;
      created_at = now;
    }

abbrev pub log_event : Event → Db → Db
log_event e db = record db { events = db.events ++ e ∷ [] }

abbrev add_trade : TradeRow → Db → Db
add_trade row db = record db { trades = db.trades ++ row ∷ [] }

-- `_persist_rejection`
unfoldable pub persist_rejection : TradeIntent → TradeStatus → ℕ → Db → TradeRow × Db
unfolding sync_signal trade_row
persist_rejection intent status now db =
    let row = trade_row intent intent.volume status no_fill now in
    (row, log_event (trade_event status) (sync_signal intent status none (add_trade row db)))

unfoldable pub set_guard : Text → TradeStatus → Option Text → List GuardRow → List GuardRow
set_guard key status ticket [] = []
set_guard key status ticket (g ∷ gs) =
    if text_eq g.idempotency_key key
    then record g { status = status; order_ticket = ticket } ∷ gs
    else g ∷ set_guard key status ticket gs

-- `_finish`: the guard takes the status and the ticket, and the trade is recorded.
unfoldable pub finish : Text → TradeIntent → ℚ → TradeStatus → Fill → ℕ → Db → TradeRow × Db
unfolding sync_signal trade_row set_guard
finish key intent volume status fill now db =
    let row = trade_row intent volume status fill now in
    let guarded = record db { guards = set_guard key status fill.ticket db.guards } in
    (
      row,
      log_event (trade_event status)
          (sync_signal intent status fill.ticket (add_trade row guarded)),
    )

-- `_reserve`: the unique key makes the insert of a second reservation fail.
unfoldable pub reserve : Text → TradeIntent → ℚ → ℕ → Db → Bool × Db
reserve key intent volume now db =
    let guard : GuardRow = record {
      idempotency_key = key;
      signal_id = some (signal_id_of intent);
      symbol = intent.signal.symbol;
      side = intent.signal.action;
      volume = volume;
      status = TradeStatus.pending;
      order_ticket = none;
      created_at = now;
    } in
    if is_some (find_guard key db.guards)
    then (false, db)
    else (true, record db { guards = db.guards ++ guard ∷ [] })
