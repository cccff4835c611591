-- ===== src/Tests/Analytics.antt =====
-- The account that wins 5, loses 3 and 4, and wins 2.
use mt5_trading_bot.Base.{◌+◌, ◌≡◌, ◌↔◌, refl, true, none, some, List, [], ◌∷◌}
use mt5_trading_bot.Num.{ℚ, int, ◌+ℚ◌, eqb_ℚ, neg, is_pos}
use mt5_trading_bot.Database.{TradeRow, TradeStatus}
use mt5_trading_bot.Core.Signal.{buy}
use mt5_trading_bot.Reconciliation.Booking.{net_pnl}
use mt5_trading_bot.Analytics.{drawdown, curve_of, add_result, summary}
use mt5_trading_bot.Analytics.Drawdown.{history, Deepest, drawdown-Deepest}
use mt5_trading_bot.Analytics.Balance.{summary-Counted}
use mt5_trading_bot.Tests.Data.{eurusd, ticket, first_id}

abbrev results : List ℚ
results = int 5 ∷ neg (int 3) ∷ neg (int 4) ∷ int 2 ∷ []

fell_by_seven : eqb_ℚ (drawdown results).1 (int 7) ≡ true
unfolding drawdown curve_of add_result eqb_ℚ
fell_by_seven = refl

stands_five_below : eqb_ℚ (drawdown results).0 (int 5) ≡ true
unfolding drawdown curve_of add_result eqb_ℚ
stands_five_below = refl

drawdown-Deepest_example : Deepest (history [] results) (drawdown results)
drawdown-Deepest_example = drawdown-Deepest results

abbrev closed_trade : ℚ → TradeRow
closed_trade profit = record {
  trade_id = first_id;
  symbol = eurusd;
  side = buy;
  volume = int 1;
  status = TradeStatus.closed;
  mt5_order_ticket = some ticket;
  mt5_position_ticket = none;
  requested_price = none;
  executed_price = none;
  stop_loss = int 1;
  take_profit = none;
  signal_score = 80;
  strategy = [];
  exit_price = none;
  commission = some (neg (int 1));
  swap = none;
  profit = some profit;
  open_time = some 1000;
  close_time = some 2000;
  mt5_deal_ticket = none;
  volume_closed = none;
  close_reason = none;
  created_at = 1000;
}

-- The second trade gained just its commission.
abbrev closed_trades : List TradeRow
closed_trades = closed_trade (int 5) ∷ closed_trade (int 1) ∷ closed_trade (int 0) ∷ []

one_each : (summary closed_trades).breakeven_trades ≡ 1
unfolding summary net_pnl ◌+ℚ◌ is_pos neg
one_each = refl

summary-Counted_example :
    ((summary closed_trades).winning_trades
        + (summary closed_trades).losing_trades
        + (summary closed_trades).breakeven_trades
      ≡ (summary closed_trades).trades)
    × (((summary closed_trades).factor ≡ none) ↔ ((summary closed_trades).losing_trades ≡ 0))
summary-Counted_example = summary-Counted closed_trades
