-- ===== src/Bot/Emergency.antt =====
-- The emergency stop against later starts (app/services/bot.py).
use mt5_trading_bot.Base.{
  ℕ, ◌≡◌, inl, inr, ◌≤◌, refl, Bool, true, false, none, some, List, arith, Bool-cases, some_inj,
  sym, ◌∙◌,
}
use mt5_trading_bot.Core.Settings.{Settings}
use mt5_trading_bot.Database.{Db}
use mt5_trading_bot.Risk.State.{load, target_day, set_emergency_locked}
use mt5_trading_bot.Risk.State.Operations.{StoreOp, run}
use mt5_trading_bot.Risk.State.Lock.{
  NoUnlock, IsLast, load-Loaded, run-LockedFrom, set_emergency_locked-LockedFrom,
}
use mt5_trading_bot.Risk.Engine.Session.{Fault, fine, first_raises, second_raises}
use mt5_trading_bot.Execution.Records.{log_event}
use mt5_trading_bot.Bot.{
  BotStatus, is_running, StartReplies, StopReplies, persisted_lock, set_persisted_lock, lock_event,
  start, emergency_stop,
}

-- A start that finds the lock set does not happen.
start_refused :
    (settings : Settings) (replies : StartReplies) (now : ℕ) (status : BotStatus) (db : Db)
    → (load now none db).0.emergency_locked ≡ true
    → (start settings replies now record { status = status; store = some db }).0.0 ≡ false
unfolding start persisted_lock
start_refused settings replies now status db h = elim (Bool-cases (is_running status.state)) [
  | inl e ↦ rw e refl
  | inr e ↦ elim (Bool-cases replies.read_raises) [
    | inl f ↦ rw (e, f, start) refl
    | inr f ↦ rw (e, f, h, start) refl
  ]
]

-- A lock that is reported persisted is in the tables.
persisted_written :
    (fault : Fault) (now : ℕ) (db : Db)
    → (set_persisted_lock fault true now (some db)).0 ≡ true
    → (set_persisted_lock fault true now (some db)).1
      ≡ some (log_event (lock_event true) (set_emergency_locked true now none db).1)
unfolding set_persisted_lock
persisted_written fine now db h = refl
persisted_written first_raises now db h = absurd (cc h)
persisted_written second_raises now db h = absurd (cc h)

-- Where an emergency stop reports its lock as persisted and no row of a later day was there, every
-- later start, of this process or of a fresh one with any status, is refused, whatever operations
-- any processes make in between on the tables it leaves, except a reset.
pub emergency_stop-start :
    (settings : Settings) (close cancel : Bool) (stops : StopReplies) (now : ℕ) (status : BotStatus)
    (db after : Db) (ops : List (ℕ × StoreOp)) (starts : StartReplies) (later : ℕ)
    (at_start : BotStatus)
    → IsLast (target_day now none) db.risk_rows
    → (let r =
          emergency_stop settings close cancel stops now
            record { status = status; store = some db } in
        (r.0.lock_persisted ≡ true) × (r.1.store ≡ some after))
    → NoUnlock ops
    → now ≤ later
    → (start settings starts later record { status = at_start; store = some (run ops after) }).0.0
      ≡ false
unfolding emergency_stop
emergency_stop-start settings close cancel stops now status db after ops starts later at_start last
      (written, is) u far =
    let locked_db = log_event (lock_event true) (set_emergency_locked true now none db).1 in
    let same : after ≡ locked_db =
      some_inj (sym is ∙ persisted_written stops.lock_write now db written) in
    let D = target_day now none in
    start_refused settings starts later at_start (run ops after) (
      rw same (
        (load-Loaded D later none (run ops locked_db)
            (run-LockedFrom D ops locked_db u (set_emergency_locked-LockedFrom now none db last))).2
          (omega arith)))
