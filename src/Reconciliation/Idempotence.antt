-- ===== src/Reconciliation/Idempotence.antt =====
-- A second reconciliation books nothing (app/services/reconciliation.py).
use mt5_trading_bot.Base.{
  ℕ, ◌≡◌, refl, inl, inr, true, false, Option, none, some, or_else, arith, Bool-cases,
}
use mt5_trading_bot.Num.{ℚ, billionth, abs, leb_ℚ, ◌-ℚ◌, ◌+ℚ◌, neg}
use mt5_trading_bot.Core.Text.{Text, text_eq_refl}
use mt5_trading_bot.Database.{Db, TradeRow, TradeStatus}
use mt5_trading_bot.Reconciliation.{BrokerPosition}
use mt5_trading_bot.Reconciliation.Booking.{
  written, changed, apply_position, number_differs, moment_differs, text_differs, status_differs,
  status_after, volume_after,
}

difference_small : (a : ℚ) → leb_ℚ (abs (a -ℚ a)) billionth ≡ true
unfolding leb_ℚ abs ◌-ℚ◌ ◌+ℚ◌ neg
difference_small a = ground arith

number_differs_self : (o : Option ℚ) → number_differs o o ≡ false
unfolding number_differs
number_differs_self none = refl
number_differs_self (some a) = rw (difference_small a) refl

moment_differs_self : (o : Option ℕ) → moment_differs o o ≡ false
unfolding moment_differs
moment_differs_self none = refl
moment_differs_self (some a) = ground arith

text_differs_self : (o : Option Text) → text_differs o o ≡ false
unfolding text_differs
text_differs_self none = refl
text_differs_self (some a) = rw (text_eq_refl a) refl

status_differs_self : (s : TradeStatus) → status_differs s s ≡ false
unfolding status_differs
status_differs_self s = ground arith

changed_self : (t : TradeRow) → changed t t ≡ false
unfolding changed
changed_self t =
    rw
      (
        number_differs_self t.executed_price,
        number_differs_self t.exit_price,
        number_differs_self t.volume_closed,
        number_differs_self t.commission,
        number_differs_self t.swap,
        number_differs_self t.profit,
        moment_differs_self t.open_time,
        moment_differs_self t.close_time,
        text_differs_self t.mt5_deal_ticket,
        text_differs_self t.mt5_position_ticket,
        text_differs_self t.mt5_order_ticket,
        text_differs_self t.close_reason,
        status_differs_self t.status,
      )
      refl

or_else_twice {ℓ} : {A : Type ℓ} (o x : Option A) → or_else o (or_else o x) ≡ or_else o x
or_else_twice none x = refl
or_else_twice (some a) x = refl

or_else_thrice {ℓ} :
    {A : Type ℓ} (o u x : Option A)
    → or_else o (or_else u (or_else o (or_else u x))) ≡ or_else o (or_else u x)
or_else_thrice none u x = or_else_twice u x
or_else_thrice (some a) u x = refl

status_after_twice :
    (p : BrokerPosition) (s : TradeStatus) → status_after p (status_after p s) ≡ status_after p s
unfolding status_after
status_after_twice p s = ground arith

volume_after_twice :
    (p : BrokerPosition) (v : Option ℚ) → volume_after p (volume_after p v) ≡ volume_after p v
unfolding volume_after
volume_after_twice p v = ground arith

written_twice : (p : BrokerPosition) (t : TradeRow) → written p (written p t) ≡ written p t
unfolding written
written_twice p t =
    rw
      (
        or_else_twice p.entry_price t.executed_price,
        volume_after_twice p t.volume_closed,
        or_else_twice p.open_time t.open_time,
        or_else_thrice p.exit_deal p.entry_deal t.mt5_deal_ticket,
        or_else_twice p.order_ticket t.mt5_order_ticket,
        or_else_twice p.close_reason t.close_reason,
        status_after_twice p t.status,
      )
      refl

-- Whatever a position did to a trade and to the tables, the same position applied again, at any
-- later moment, changes neither the trade nor the tables: the profit is booked once.
pub apply_position-again :
    (p : BrokerPosition) (now later : ℕ) (t : TradeRow) (db : Db)
    → (let (_, t', db') = apply_position p now t db in
        apply_position p later t' db' ≡ (false, t', db'))
unfolding apply_position
apply_position-again p now later t db = elim (Bool-cases (changed t (written p t))) [
  | inl e ↦ rw (e, apply_position, written_twice p t, changed_self (written p t)) refl
  | inr e ↦ rw (e, apply_position, e) refl
]
