-- ===== src/Risk/State/Operations.antt =====
-- Every operation of the store as one step, and runs of steps: whole calls of any number of
-- processes, one after the other.
use mt5_trading_bot.Base.{ℕ, true, false, Option, List, [], ◌∷◌}
use mt5_trading_bot.Num.{ℚ}
use mt5_trading_bot.Core.Text.{Text}
use mt5_trading_bot.Core.Message.{Message}
use mt5_trading_bot.Database.{Db}
use mt5_trading_bot.Risk.State.{
  load, add_realized_pnl, observe_equity, register_trade_opened, set_emergency_locked,
  set_kill_switch, clear_kill_switch, one_trade_authorization, consume_one_trade_authorization,
  authorize_one_trade,
}

pub data StoreOp : Type 0 where
  load_row opened clear lock unlock : Option ℕ → StoreOp
  realized : ℚ → Option ℕ → StoreOp
  observed : Option ℚ → Option ℕ → StoreOp
  kill : Message → Option ℕ → StoreOp
  read_authorization : StoreOp
  consume : Text → Text → StoreOp
  rearm : Text → StoreOp

-- The tables after one operation at a time.
unfoldable pub apply : ℕ → StoreOp → Db → Db
apply now (load_row d) db = (load now d db).1
apply now (opened d) db = (register_trade_opened now d db).1
apply now (clear d) db = (clear_kill_switch now d db).1
apply now (lock d) db = (set_emergency_locked true now d db).1
apply now (unlock d) db = (set_emergency_locked false now d db).1
apply now (realized x d) db = (add_realized_pnl x now d db).1
apply now (observed x d) db = (observe_equity x now d db).1
apply now (kill m d) db = (set_kill_switch m now d db).1
apply now read_authorization db = (one_trade_authorization db).1
apply now (consume t r) db = (consume_one_trade_authorization t r now db).1
apply now (rearm r) db = (authorize_one_trade r db).1

unfoldable pub run : List (ℕ × StoreOp) → Db → Db
run [] db = db
run ((now, op) ∷ ops) db = run ops (apply now op db)
