-- ===== src/Tests/Reconciliation.antt =====
-- A position that took its profit, and the trade that opened it.
use mt5_trading_bot.Base.{◌≡◌, true, false, none, some, [], ◌∷◌}
use mt5_trading_bot.Num.{int, ratio}
use mt5_trading_bot.Core.Signal.{buy}
use mt5_trading_bot.Database.{TradeRow, TradeStatus}
use mt5_trading_bot.Reconciliation.{BrokerPosition, match_positions}
use mt5_trading_bot.Reconciliation.Matching.{Matched, match_positions-Matched}
use mt5_trading_bot.Reconciliation.Booking.{apply_position}
use mt5_trading_bot.Reconciliation.Idempotence.{apply_position-again}
use mt5_trading_bot.Tests.Data.{eurusd, ticket, first_id, empty_db}

abbrev open_trade : TradeRow
open_trade = record {
  trade_id = first_id;
  symbol = eurusd;
  side = buy;
  volume = ratio 1 99;
  status = TradeStatus.executed;
  mt5_order_ticket = some ticket;
  mt5_position_ticket = none;
  requested_price = some (ratio 11 9);
  executed_price = some (ratio 11 9);
  stop_loss = ratio 109 99;
  take_profit = some (ratio 112 99);
  signal_score = 80;
  strategy = [];
  exit_price = none;
  commission = none;
  swap = none;
  profit = none;
  open_time = some 1000;
  close_time = none;
  mt5_deal_ticket = none;
  volume_closed = none;
  close_reason = none;
  created_at = 1000;
}

abbrev closed_position : BrokerPosition
closed_position = record {
  position_id = ticket;
  symbol = eurusd;
  volume = ratio 1 99;
  open_time = some 1001;
  tickets = ticket ∷ [];
  volume_closed = ratio 1 99;
  entry_price = some (ratio 11 9);
  exit_price = some (ratio 112 99);
  close_time = some 5000;
  profit = int 20;
  commission = int 0;
  swap = int 0;
  order_ticket = some ticket;
  entry_deal = some ticket;
  exit_deal = none;
  close_reason = none;
  closed = true;
}

match_positions-Matched_example :
    Matched 60 (match_positions 60 (open_trade ∷ open_trade ∷ []) (closed_position ∷ [])).0
match_positions-Matched_example =
    match_positions-Matched 60 (open_trade ∷ open_trade ∷ []) (closed_position ∷ [])

apply_position-again_example :
    apply_position closed_position 7000
      (apply_position closed_position 6000 open_trade empty_db).1
      (apply_position closed_position 6000 open_trade empty_db).2
    ≡ (
      false,
      (apply_position closed_position 6000 open_trade empty_db).1,
      (apply_position closed_position 6000 open_trade empty_db).2,
    )
apply_position-again_example = apply_position-again closed_position 6000 7000 open_trade empty_db
