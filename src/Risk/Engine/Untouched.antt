-- ===== src/Risk/Engine/Untouched.antt =====
-- What an assessment leaves alone: the guards of the executions (app/risk/engine.py).
use mt5_trading_bot.Base.{
  ℕ, ◌≡◌, refl, ◌∙◌, inl, inr, ap, sym, Bool, true, false, Option, none, some, List, [], ◌∷◌, arith,
  Option-cases, some_inj, unwrap_or,
}
use mt5_trading_bot.Guards.{passed, both_branches}
use mt5_trading_bot.Num.{ℚ}
use mt5_trading_bot.Core.Settings.{Settings}
use mt5_trading_bot.Core.Message.{Message, Limit, drawdown_stop, limits_reached}
use mt5_trading_bot.Core.Signal.{Signal}
use mt5_trading_bot.Core.Account.{AccountProfile, account_mismatch, classified}
use mt5_trading_bot.Database.{Db, GuardRow, RiskRow}
use mt5_trading_bot.Risk.State.{
  load, update_row, observe_equity, set_emergency_locked, set_kill_switch, one_trade_authorization,
  register_trade_opened, commit_count, count_from, latch, with_lock, see_equity,
}
use mt5_trading_bot.Risk.Engine.Facts.{EntryFacts, truthy}
use mt5_trading_bot.Risk.Engine.Session.{
  Fault, fine, first_raises, second_raises, Faults, Session, read_session, lock_on_mismatch,
  read_authorization, limits_of, draws_down_now, write_lock, lock_on_drawdown, latch_limits,
  read_store, store_latch, or_message,
}
use mt5_trading_bot.Risk.Engine.Assess.{Assessment, before_limits, conclude, assess}

abbrev guards_of : Option Db → List GuardRow
guards_of none = []
guards_of (some db) = db.guards

load-guards : (now : ℕ) (day : Option ℕ) (db : Db) → (load now day db).1.guards ≡ db.guards
unfolding load
load-guards now day db = ground arith

update_row-guards :
    (f : RiskRow → RiskRow) (now : ℕ) (day : Option ℕ) (db : Db)
    → (update_row f now day db).1.guards ≡ db.guards
unfolding update_row
update_row-guards f now day db = load-guards now day db

pub register_trade_opened-guards :
    (now : ℕ) (day : Option ℕ) (db : Db) → (register_trade_opened now day db).1.guards ≡ db.guards
unfolding register_trade_opened commit_count
register_trade_opened-guards now day db =
    update_row-guards (count_from (load now day db).0.trades_opened) now day db

write_lock-guards :
    (fault : Fault) (reason : Message) (now : ℕ) (day : Option ℕ) (db : Db)
    → (write_lock fault reason now day db).1.guards ≡ db.guards
unfolding write_lock set_kill_switch set_emergency_locked
write_lock-guards fine reason now day db =
    update_row-guards (latch (some reason)) now day (set_emergency_locked true now day db).1
    ∙ update_row-guards (with_lock true) now day db
write_lock-guards first_raises reason now day db = refl
write_lock-guards second_raises reason now day db = update_row-guards (with_lock true) now day db

read_store-guards :
    (fault : Fault) (locked : Bool) (equity : Option ℚ) (now : ℕ) (day : Option ℕ) (db : Db)
    → (read_store fault locked equity now day db).1.guards ≡ db.guards
unfolding read_store observe_equity
read_store-guards fine locked none now day db = load-guards now day db
read_store-guards fine locked (some e) now day db =
    update_row-guards (see_equity e) now day (load now day db).1 ∙ load-guards now day db
read_store-guards first_raises locked equity now day db = refl
read_store-guards second_raises locked equity now day db = load-guards now day db

read_session-guards :
    (fault : Fault) (locked : Bool) (equity : Option ℚ) (now : ℕ) (day : Option ℕ)
    (store : Option Db)
    → guards_of (read_session fault locked equity now day store).1 ≡ guards_of store
unfolding read_session
read_session-guards fault locked equity now day none = refl
read_session-guards fault locked equity now day (some db) =
    read_store-guards fault locked (truthy equity) now day db

lock_on_mismatch-guards :
    (fault : Fault) (account : Option AccountProfile) (reason : Option Message) (now : ℕ)
    (day : Option ℕ) (s : Session) (store : Option Db)
    → guards_of (lock_on_mismatch fault account reason now day s store).1 ≡ guards_of store
unfolding lock_on_mismatch
lock_on_mismatch-guards fault account none now day s store = refl
lock_on_mismatch-guards fault account (some reason) now day s none = refl
lock_on_mismatch-guards fault none (some reason) now day s (some db) = refl
lock_on_mismatch-guards fault (some p) (some reason) now day s (some db) =
    both_branches (λ (r : Session × Option Db). guards_of r.1 ≡ db.guards) (classified p)
      (write_lock-guards fault reason now day db) refl

read_authorization-guards :
    (raises : Bool) (store : Option Db)
    → guards_of (read_authorization raises store).1 ≡ guards_of store
unfolding read_authorization one_trade_authorization
read_authorization-guards raises none = refl
read_authorization-guards true (some db) = refl
read_authorization-guards false (some db) = ground arith

lock_on_drawdown-guards :
    (fault : Fault) (drawn : Bool) (now : ℕ) (day : Option ℕ) (s : Session) (store : Option Db)
    (o : Session × Option Db)
    → lock_on_drawdown fault drawn now day s store ≡ some o
    → guards_of o.1 ≡ guards_of store
unfolding lock_on_drawdown
lock_on_drawdown-guards fault false now day s store o h = rw (← some_inj h) refl
lock_on_drawdown-guards fault true now day s none o h = rw (← some_inj h) refl
lock_on_drawdown-guards fault true now day s (some db) o h =
    let written = write_lock fault drawdown_stop now day db in
    let (_, e) = passed written.0 h in
    rw (← some_inj e) (write_lock-guards fault drawdown_stop now day db)

store_latch-guards :
    (raises : Bool) (m : Message) (now : ℕ) (day : Option ℕ) (store : Option Db)
    → guards_of (store_latch raises m now day store) ≡ guards_of store
unfolding store_latch set_kill_switch
store_latch-guards raises m now day none = refl
store_latch-guards true m now day (some db) = refl
store_latch-guards false m now day (some db) = update_row-guards (latch (some m)) now day db

latch_limits-guards :
    (raises : Bool) (limits : List Limit) (now : ℕ) (day : Option ℕ) (s : Session)
    (store : Option Db)
    → guards_of (latch_limits raises limits now day s store).1 ≡ guards_of store
unfolding latch_limits set_kill_switch
latch_limits-guards raises [] now day s store = refl
latch_limits-guards raises (l ∷ ls) now day s store =
    both_branches (λ r. guards_of r ≡ guards_of store) s.readable
      (store_latch-guards raises (or_message s.kill (limits_reached (l ∷ ls))) now day store) refl

unwrapped :
    (store : Option Db) (db : Db)
    → guards_of store ≡ db.guards
    → (unwrap_or store db).guards ≡ db.guards
unwrapped none db h = refl
unwrapped (some d) db h = h

-- Whatever an assessment locks, latches or adds, the guards stay as they were.
pub assess-guards :
    (settings : Settings) (signal : Signal) (facts : EntryFacts) (faults : Faults) (now : ℕ)
    (day : Option ℕ) (db : Db) (a : Assessment) (store : Option Db)
    → assess settings signal facts faults now day (some db) ≡ some (a, store)
    → (unwrap_or store db).guards ≡ db.guards
unfolding assess before_limits conclude
assess-guards settings signal facts faults now day db a store h =
    let (s0, read) =
      read_session faults.read facts.emergency_locked facts.equity now day (some db) in
    let mismatch = account_mismatch facts.account settings.mt5_login settings.mt5_server in
    let (s, store1) = lock_on_mismatch faults.mismatch facts.account mismatch now day s0 read in
    let (seen, store2) = read_authorization faults.authorization store1 in
    elim (Option-cases (
      lock_on_drawdown faults.drawdown (draws_down_now settings facts.equity s) now day s store2)) [
        | inl e ↦ absurd (cc (rw (e, assess) at h))
        | inr (o, e) ↦ unwrapped store db (
            sym
              (ap (λ (x : Assessment × Option Db). guards_of x.1) (some_inj (rw (e, assess) at h)))
            ∙ latch_limits-guards faults.latch (limits_of settings facts.equity s) now day o.0 o.1
            ∙ lock_on_drawdown-guards faults.drawdown (draws_down_now settings facts.equity s) now
                day s store2 o e
            ∙ read_authorization-guards faults.authorization store1
            ∙ lock_on_mismatch-guards faults.mismatch facts.account mismatch now day s0 read
            ∙ read_session-guards faults.read facts.emergency_locked facts.equity now day (some db))
      ]
