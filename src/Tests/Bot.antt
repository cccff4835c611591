-- ===== src/Tests/Bot.antt =====
-- The lifecycle at concrete inputs.
use mt5_trading_bot.Base.{ℕ, ◌≡◌, refl, true, false, none, some, List, [], ◌∷◌, arith}
use mt5_trading_bot.Core.Account
use mt5_trading_bot.Database.{Db, emergency_lock}
use mt5_trading_bot.Risk.State
use mt5_trading_bot.Risk.State.Operations.{StoreOp, opened}
use mt5_trading_bot.Risk.Engine.Session.{fine}
use mt5_trading_bot.Execution.Records.{log_event}
use mt5_trading_bot.Bot.{
  Bot, BotStatus, stopped, running, Detail, StartReplies, StopReplies, persisted_lock,
  set_persisted_lock, start, emergency_stop, Target, retcode, raised, sweep_list,
}
use mt5_trading_bot.Bot.Start.{Validated, start-Validated}
use mt5_trading_bot.Bot.Emergency.{emergency_stop-start}
use mt5_trading_bot.Bot.Sweep.{Accounted, sweep_list-Accounted}
use mt5_trading_bot.Risk.State.Operations.{run}
use mt5_trading_bot.Tests.Data.{demo_settings, raw_account, empty_db}

abbrev idle : BotStatus
idle = record { state = stopped; detail = Detail.fresh; started_at = none }

abbrev fresh_bot : Bot
fresh_bot = record { status = idle; store = some empty_db }

abbrev willing : StartReplies
willing = record {
  read_raises = false;
  initialized = true;
  logged_in = true;
  account = some raw_account;
  lock_write = fine;
  loop = some true;
}

started : (start demo_settings willing 100 fresh_bot).0.0 ≡ true
unfolding start persisted_lock State.load State.find_row State.new_row State.latest
    Account.account_profile Account.account_mismatch
started = refl

start-Validated_example :
    Validated demo_settings willing 100 fresh_bot
    × ((start demo_settings willing 100 fresh_bot).1.status.state ≡ running)
start-Validated_example = start-Validated demo_settings willing 100 fresh_bot started

abbrev targets : List Target
targets =
    record { magic = some 42; answer = retcode (some 10009) }
    ∷ record { magic = some 7; answer = retcode (some 10009) }
    ∷ record { magic = none; answer = raised }
    ∷ []

sweep_list-Accounted_example : Accounted 42 targets (sweep_list 42 targets)
sweep_list-Accounted_example = sweep_list-Accounted 42 targets

abbrev stop_answers : StopReplies
stop_answers = record {
  loop_stopped = some true;
  lock_write = fine;
  positions = some targets;
  orders = none;
}

abbrev locked_db : Db
locked_db = log_event emergency_lock (State.set_emergency_locked true 100 none empty_db).1

persisted :
    ((emergency_stop demo_settings true true stop_answers 100 fresh_bot).0.lock_persisted ≡ true)
    × ((emergency_stop demo_settings true true stop_answers 100 fresh_bot).1.store ≡ some locked_db)
unfolding emergency_stop set_persisted_lock
persisted = (refl, refl)

abbrev next_day : List (ℕ × StoreOp)
next_day = (86500, opened none) ∷ []

emergency_stop-start_example :
    (start demo_settings willing 200000
      record { status = idle; store = some (run next_day locked_db) }).0.0
    ≡ false
emergency_stop-start_example =
    emergency_stop-start demo_settings true true stop_answers 100 idle empty_db locked_db next_day
      willing 200000 idle tt persisted (refl, tt) (omega arith)
