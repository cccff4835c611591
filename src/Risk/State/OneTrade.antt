-- ===== src/Risk/State/OneTrade.antt =====
-- The single live-trade authorization over any interleaving of callers.
use mt5_trading_bot.Base.{ℕ, ◌+◌, ◌≤◌, ◌≡◌, if◌then◌else◌, Option, none, some, List, [], ◌∷◌, arith}
use mt5_trading_bot.Database.{Db, AuthorizationRow}
use mt5_trading_bot.Risk.State.{
  load, update_row, add_realized_pnl, observe_equity, register_trade_opened, commit_count,
  set_emergency_locked, set_kill_switch, clear_kill_switch, one_trade_authorization,
  consume_one_trade_authorization, authorize_one_trade,
}
use mt5_trading_bot.Risk.State.Operations.{
  StoreOp, load_row, opened, clear, lock, unlock, realized, observed, kill, read_authorization,
  consume, rearm, apply,
}

-- How many live entries the persisted row still allows.
abbrev allowance_of : Option AuthorizationRow → ℕ
allowance_of none = 1
allowance_of (some a) = if a.consumed then 0 else 1

unfoldable pub allowance : Db → ℕ
allowance db = allowance_of db.authorization

-- 1 for a reservation that succeeds on these tables.
unfoldable pub won : ℕ → StoreOp → Db → ℕ
won now (consume t r) db = if (consume_one_trade_authorization t r now db).0 then 1 else 0
won now _ db = 0

abbrev pub rearms_of : StoreOp → ℕ
rearms_of (rearm _) = 1
rearms_of _ = 0

-- The reservations that succeed in a run, and the manual authorizations in it.
unfoldable pub wins : List (ℕ × StoreOp) → Db → ℕ
wins [] db = 0
wins ((now, op) ∷ ops) db = won now op db + wins ops (apply now op db)

unfoldable pub rearms : List (ℕ × StoreOp) → ℕ
rearms [] = 0
rearms ((now, op) ∷ ops) = rearms_of op + rearms ops

-- The operations on the per-day rows leave the authorization alone.
pub load-authorization :
    (now : ℕ) (day : Option ℕ) (db : Db) → (load now day db).1.authorization ≡ db.authorization
unfolding load
load-authorization now day db = ground arith

won_bound :
    (now : ℕ) (op : StoreOp) (db : Db)
    → won now op db + allowance (apply now op db) ≤ allowance db + rearms_of op
unfolding won allowance apply register_trade_opened commit_count clear_kill_switch
    set_emergency_locked add_realized_pnl observe_equity set_kill_switch one_trade_authorization
    consume_one_trade_authorization authorize_one_trade update_row
won_bound now (load_row d) db = ground (arith, load-authorization now d db)
won_bound now (observed none d) db = ground (arith, load-authorization now d db)
won_bound now (observed (some x) d) db = ground (arith, load-authorization now d db)
won_bound now (consume t r) db = ground arith
won_bound now (rearm r) db = ground arith
won_bound now read_authorization db = ground arith
won_bound now (opened d) db = ground (arith, load-authorization now d db)
won_bound now (clear d) db = ground (arith, load-authorization now d db)
won_bound now (lock d) db = ground (arith, load-authorization now d db)
won_bound now (unlock d) db = ground (arith, load-authorization now d db)
won_bound now (realized x d) db = ground (arith, load-authorization now d db)
won_bound now (kill m d) db = ground (arith, load-authorization now d db)

-- Over any interleaving of store operations by any processes, no more live trades are reserved
-- than the persisted row allowed at the start (at most one) and manual authorizations were given.
pub wins-le-rearms : (ops : List (ℕ × StoreOp)) (db : Db) → wins ops db ≤ allowance db + rearms ops
unfolding wins rearms
wins-le-rearms [] db = omega arith
wins-le-rearms ((now, op) ∷ ops) db =
    omega (arith, won_bound now op db, wins-le-rearms ops (apply now op db))
