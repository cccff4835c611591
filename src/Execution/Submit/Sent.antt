-- ===== src/Execution/Submit/Sent.antt =====
-- What holds of a request that reached the broker.
use mt5_trading_bot.Base.{
  ℕ, ◌≡◌, sym, inl, inr, not, none, some, Option-cases, Bool-cases, some_inj,
}
use mt5_trading_bot.Core.Text.{Text}
use mt5_trading_bot.Core.Settings.{Settings, live_orders_permitted}
use mt5_trading_bot.Core.Signal.{TradeIntent}
use mt5_trading_bot.Database.{Db}
use mt5_trading_bot.Risk.State.{consume_one_trade_authorization}
use mt5_trading_bot.Execution.Broker.{Replies}
use mt5_trading_bot.Execution.Request.{Request, build_request, idempotency_key}
use mt5_trading_bot.Execution.Records.{find_trade, find_guard, reserve}
use mt5_trading_bot.Execution.Submit.{
  Outcome, Order, gates, send_order, authorize_and_send, submit, reject, spending,
}
use mt5_trading_bot.Execution.Submit.Once.{choose, Gated-cases}
use mt5_trading_bot.Execution.Submit.Gates.{Fit, gates-Fit}

-- The request is the one built of an order that passed every gate.
pub record Justified (settings : Settings) (intent : TradeIntent) (replies : Replies) (r : Request)
    : Type 0 where
  pub order : Order
  pub gates_passed : Fit settings intent replies order
  pub built : r ≡ build_request settings intent order.spec order.volume order.stop

send_order_sent :
    (settings : Settings) (intent : TradeIntent) (replies : Replies) (key : Text) (order : Order)
    (now : ℕ) (db : Db) (request : Request)
    → (send_order settings intent replies key order now db).0.sent ≡ some request
    → request ≡ build_request settings intent order.spec order.volume order.stop
unfolding send_order
send_order_sent settings intent replies key order now db request h =
    elim (Bool-cases (reserve key intent order.volume now db).0) [
      | inl e ↦ sym (some_inj (rw (e, send_order) at h))
      | inr e ↦ absurd (cc (rw (e, send_order) at h))
    ]

authorize_and_send_sent :
    (settings : Settings) (intent : TradeIntent) (replies : Replies) (key : Text) (order : Order)
    (now : ℕ) (db : Db) (request : Request)
    → (authorize_and_send settings intent replies key order now db).0.sent ≡ some request
    → request ≡ build_request settings intent order.spec order.volume order.stop
unfolding authorize_and_send reject
authorize_and_send_sent settings intent replies key order now db request =
    let (won, db') = consume_one_trade_authorization intent.trade_id (spending intent) now db in
    choose
      (λ (r : Outcome × Db).
        r.0.sent ≡ some request
        → request ≡ build_request settings intent order.spec order.volume order.stop)
      (not (live_orders_permitted settings)) replies.reservation_raises
      (consume_one_trade_authorization intent.trade_id (spending intent) now db).0
      (λ _. send_order_sent settings intent replies key order now db request) (λ h. absurd (cc h))
      (λ _. send_order_sent settings intent replies key order now _ request) (λ h. absurd (cc h))

-- A request that `submit` sends is built of an order that passed every gate: the trading mode, the
-- symbol universe, a volume above 0, a connected terminal and a classified account that is the
-- configured one (a REAL one only where live orders are permitted), a usable specification, a volume on
-- the broker's grid, valid stops and a margin that fits. No trade of this id and no guard of this key was there before.
pub submit_sent :
    (digest : TradeIntent → Text) (settings : Settings) (intent : TradeIntent) (replies : Replies)
    (rivals : Db → Db) (now : ℕ) (db : Db) (request : Request)
    → (submit digest settings intent replies rivals now db).0.sent ≡ some request
    → Justified settings intent replies request
      × (find_trade intent.trade_id db.trades ≡ none)
      × (find_guard (idempotency_key digest intent) db.guards ≡ none)
unfolding submit reject
submit_sent digest settings intent replies rivals now db request h =
    let key = idempotency_key digest intent in
    elim (Option-cases (find_trade intent.trade_id db.trades)) [
      | inr (t, e) ↦ absurd (cc (rw (e, submit) at h))
      | inl e ↦ elim (Option-cases (find_guard key db.guards)) [
        | inr (g, f) ↦ absurd (cc (rw (e, f, submit) at h))
        | inl f ↦ elim (Gated-cases (gates settings intent replies)) [
          | inl (r, g) ↦ absurd (cc (rw (e, f, g, submit) at h))
          | inr (order, g) ↦ (
            record {
              order = order;
              gates_passed = gates-Fit settings intent replies order g;
              built =
                  authorize_and_send_sent settings intent replies key order now (rivals db) request
                    (rw (e, f, g, submit) at h);
            },
            e,
            f,
          )
        ]
      ]
    ]
