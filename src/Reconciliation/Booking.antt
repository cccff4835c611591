-- ===== src/Reconciliation/Booking.antt =====
-- The broker's truth written onto a local trade, and the profit that is booked for it
-- (app/services/reconciliation.py, `Reconciler._apply`; app/services/analytics.py, `net_pnl`).
use mt5_trading_bot.Base.{
  ℕ, ◌/◌, Bool, true, false, not, ◌||◌, ◌==◌, if◌then◌else◌, Option, none, some, or_else, unwrap_or,
}
use mt5_trading_bot.Num.{ℚ, int, billionth, abs, leb_ℚ, is_pos, ◌+ℚ◌, ◌-ℚ◌}
use mt5_trading_bot.Core.Text.{Text, text_eq}
use mt5_trading_bot.Database.{Db, TradeRow, TradeStatus}
use mt5_trading_bot.Risk.State.{add_realized_pnl}
use mt5_trading_bot.Reconciliation.{BrokerPosition}

unfoldable pub net_pnl : TradeRow → ℚ
net_pnl t = unwrap_or t.profit (int 0) +ℚ unwrap_or t.commission (int 0) +ℚ unwrap_or t.swap (int 0)

unfoldable pub status_after : BrokerPosition → TradeStatus → TradeStatus
status_after p status =
    if p.closed
    then TradeStatus.closed
    else if is_pos p.volume_closed
    then TradeStatus.partially_closed
    else status

unfoldable pub volume_after : BrokerPosition → Option ℚ → Option ℚ
volume_after p v = if is_pos p.volume_closed then some p.volume_closed else v

-- The row with the values of `_apply`.
unfoldable pub written : BrokerPosition → TradeRow → TradeRow
written p t = record t {
  executed_price = or_else p.entry_price t.executed_price;
  exit_price = p.exit_price;
  volume_closed = volume_after p t.volume_closed;
  commission = some p.commission;
  swap = some p.swap;
  profit = some p.profit;
  open_time = or_else p.open_time t.open_time;
  close_time = p.close_time;
  mt5_deal_ticket = or_else p.exit_deal (or_else p.entry_deal t.mt5_deal_ticket);
  mt5_position_ticket = some p.position_id;
  mt5_order_ticket = or_else p.order_ticket t.mt5_order_ticket;
  close_reason = or_else p.close_reason t.close_reason;
  status = status_after p t.status;
}

-- `_differs` on numbers, moments, texts and statuses
unfoldable pub number_differs : Option ℚ → Option ℚ → Bool
number_differs none none = false
number_differs (some a) (some b) = not (leb_ℚ (abs (a -ℚ b)) billionth)
number_differs _ _ = true

unfoldable pub moment_differs : Option ℕ → Option ℕ → Bool
moment_differs none none = false
moment_differs (some a) (some b) = not (a == b)
moment_differs _ _ = true

unfoldable pub text_differs : Option Text → Option Text → Bool
text_differs none none = false
text_differs (some a) (some b) = not (text_eq a b)
text_differs _ _ = true

status_code : TradeStatus → ℕ
status_code TradeStatus.pending = 0
status_code TradeStatus.executed = 1
status_code TradeStatus.submitted = 2
status_code TradeStatus.rejected = 3
status_code TradeStatus.failed = 4
status_code TradeStatus.duplicate = 5
status_code TradeStatus.closed = 6
status_code TradeStatus.partially_closed = 7
status_code TradeStatus.retired = 8

unfoldable pub status_differs : TradeStatus → TradeStatus → Bool
unfolding status_code
status_differs a b = not (status_code a == status_code b)

-- Whether a business field of the second row differs from the first.
unfoldable pub changed : TradeRow → TradeRow → Bool
changed t u =
    number_differs t.executed_price u.executed_price
    || (number_differs t.exit_price u.exit_price
        || (number_differs t.volume_closed u.volume_closed
            || (number_differs t.commission u.commission
                || (number_differs t.swap u.swap
                    || (number_differs t.profit u.profit
                        || (moment_differs t.open_time u.open_time
                            || (moment_differs t.close_time u.close_time
                                || (text_differs t.mt5_deal_ticket u.mt5_deal_ticket
                                    || (text_differs t.mt5_position_ticket u.mt5_position_ticket
                                        || (text_differs t.mt5_order_ticket u.mt5_order_ticket
                                            || (text_differs t.close_reason u.close_reason
                                                || status_differs t.status u.status)))))))))))

-- Only the result of a closed position is booked, on the day it closed, as the difference.
unfoldable pub book_difference : Option ℕ → ℚ → ℕ → Db → Db
book_difference none delta now db = db
book_difference (some at) delta now db =
    if leb_ℚ (abs delta) billionth
    then db
    else (add_realized_pnl delta now (some (at / 86400)) db).1

-- Whether the row changed, the row and the tables after it.
unfoldable pub apply_position : BrokerPosition → ℕ → TradeRow → Db → Bool × TradeRow × Db
apply_position p now t db =
    if changed t (written p t)
    then (
      true,
      written p t,
      book_difference p.close_time (net_pnl (written p t) -ℚ net_pnl t) now db,
    )
    else (false, t, db)
