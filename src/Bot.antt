-- ===== src/Bot.antt =====
-- The bot's lifecycle (app/services/bot.py, `BotService`): its status, the persisted emergency lock
-- and the closing of managed positions. A detail is the constructor of its message. The gateway, the
-- market loop and the faults of the store are answered by the environment, one record per call.
pub mod Emergency
pub mod Start
pub mod Sweep
use mt5_trading_bot.Base.{
  ℕ, suc, ◌+◌, Bool, true, false, not, ◌&&◌, ◌||◌, ◌==◌, if◌then◌else◌, Option, none, some, List,
  [], ◌∷◌, all, is_some, unwrap_or, length,
}
use mt5_trading_bot.Core.Settings.{Settings, live_orders_permitted}
use mt5_trading_bot.Core.Text.{Text}
use mt5_trading_bot.Core.Message.{Message}
use mt5_trading_bot.Core.Account.{
  AccountProfile, RawAccount, account_profile, account_mismatch, classified, is_real,
}
use mt5_trading_bot.Database.{Db, Event, emergency_lock, emergency_reset}
use mt5_trading_bot.Risk.State.{load, set_emergency_locked}
use mt5_trading_bot.Risk.Engine.Session.{Fault, fine, first_raises, second_raises}
use mt5_trading_bot.Execution.Records.{log_event}

pub data BotState : Type 0 where
  stopped starting running degraded locked error : BotState

pub data Detail : Type 0 where
  fresh already_running no_session_factory state_unreadable lock_persisted : Detail
  initialization_failed login_failed account_unread no_market_loop loop_not_started : Detail
  account_mismatched : Message → Detail
  mt5_validated stopped_unreadable stopped_locked stopped_by_request emergency_stopped : Detail
  stop_first lock_not_cleared reset_complete lock_in_force unhealthy all_healthy : Detail
  real_account account_unverified market_blocked validating : Detail

pub record BotStatus : Type 0 where
  pub state : BotState
  pub detail : Detail
  pub started_at : Option ℕ

abbrev pub is_running : BotState → Bool
is_running running = true
is_running degraded = true
is_running _ = false

-- The service with its tables; `none` where it has no session factory.
pub record Bot : Type 0 where
  pub status : BotStatus
  pub store : Option Db

abbrev pub entered : BotState → Detail → BotStatus → BotStatus
entered state detail s = record s { state = state; detail = detail }

-- `_persisted_lock`: `none` where the state cannot be read.
unfoldable pub persisted_lock : Bool → ℕ → Option Db → Option Bool × Option Db
persisted_lock raises now none = (some false, none)
persisted_lock true now (some db) = (none, some db)
persisted_lock false now (some db) =
    let (row, db') = load now none db in (some row.emergency_locked, some db')

abbrev lock_event : Bool → Event
lock_event true = emergency_lock
lock_event false = emergency_reset

-- `_set_persisted_lock`: the lock is committed before the audit row, so a fault in the second write
-- reports a failure of a lock that was set.
unfoldable pub set_persisted_lock : Fault → Bool → ℕ → Option Db → Bool × Option Db
set_persisted_lock fault value now none = (false, none)
set_persisted_lock fine value now (some db) =
    (true, some (log_event (lock_event value) (set_emergency_locked value now none db).1))
set_persisted_lock first_raises value now (some db) = (false, some db)
set_persisted_lock second_raises value now (some db) =
    (false, some (set_emergency_locked value now none db).1)

-- The answers to one `start`; `loop` is `none` where no market loop is configured.
pub record StartReplies : Type 0 where
  pub read_raises : Bool
  pub initialized : Bool
  pub logged_in : Bool
  pub account : Option RawAccount
  pub lock_write : Fault
  pub loop : Option Bool

-- `_fail`
abbrev fail : Detail → BotStatus → Option Db → (Bool × Detail) × Bot
fail detail s store = ((false, detail), record { status = entered error detail s; store = store })

start_loop : Option Bool → ℕ → BotStatus → Option Db → (Bool × Detail) × Bot
start_loop none now s store = fail Detail.no_market_loop s store
start_loop (some false) now s store = fail Detail.loop_not_started s store
start_loop (some true) now s store = (
  (true, Detail.mt5_validated),
  record {
    status = record { state = running; detail = Detail.mt5_validated; started_at = some now };
    store = store;
  },
)

-- `start` from the reading of the account on.
with_account : Settings → StartReplies → ℕ → BotStatus → Option Db → (Bool × Detail) × Bot
unfolding start_loop
with_account settings replies now s store = elim (account_profile replies.account) [
  | none ↦ fail Detail.account_unread s store
  | some p ↦ elim (account_mismatch (some p) settings.mt5_login settings.mt5_server) [
    | some m ↦
        fail (account_mismatched m) s (set_persisted_lock replies.lock_write true now store).1
    | none ↦ start_loop replies.loop now s store
  ]
]

-- `start` once the lock is known to be clear.
validate_mt5 : Settings → StartReplies → ℕ → BotStatus → Option Db → (Bool × Detail) × Bot
unfolding with_account
validate_mt5 settings replies now s store =
    let s' = entered starting Detail.validating s in
    if not replies.initialized
    then fail Detail.initialization_failed s' store
    else if not replies.logged_in
    then fail Detail.login_failed s' store
    else with_account settings replies now s' store

unfoldable pub start : Settings → StartReplies → ℕ → Bot → (Bool × Detail) × Bot
unfolding validate_mt5
start settings replies now bot =
    let (lock, store) = persisted_lock replies.read_raises now bot.store in
    if is_running bot.status.state
    then ((false, Detail.already_running), bot)
    else if not (is_some bot.store)
    then fail Detail.no_session_factory bot.status bot.store
    else elim lock [
      | none ↦ fail Detail.state_unreadable bot.status store
      | some true ↦ (
        (false, Detail.lock_in_force),
        record { status = entered locked Detail.lock_in_force bot.status; store = store },
      )
      | some false ↦ validate_mt5 settings replies now bot.status store
    ]

abbrev after_stop : Option Bool → BotStatus → BotStatus
after_stop none s = entered degraded Detail.stopped_unreadable s
after_stop (some true) s = entered locked Detail.stopped_locked s
after_stop (some false) s = entered stopped Detail.stopped_by_request s

-- The answer of the loop's own `stop` is only logged.
unfoldable pub stop : Bool → ℕ → Bot → (Bool × Detail) × Bot
stop read_raises now bot =
    let (lock, store) = persisted_lock read_raises now bot.store in
    let s = after_stop lock bot.status in ((true, s.detail), record { status = s; store = store })

unfoldable pub emergency_reset_bot : Fault → ℕ → Bot → (Bool × Detail) × Bot
emergency_reset_bot fault now bot =
    let (written, store) = set_persisted_lock fault false now bot.store in
    if is_running bot.status.state
    then ((false, Detail.stop_first), bot)
    else if not written
    then ((false, Detail.lock_not_cleared), record { status = bot.status; store = store })
    else (
      (true, Detail.reset_complete),
      record {
        status = record { state = stopped; detail = Detail.reset_complete; started_at = none };
        store = store;
      },
    )

-- `_real_account_reason`
unfoldable pub real_account_reason : Settings → Option AccountProfile → Option Detail
real_account_reason settings none = none
real_account_reason settings (some p) =
    if is_real p && not (live_orders_permitted settings)
    then some Detail.real_account
    else if not (classified p)
    then some Detail.account_unverified
    else none

-- The last cycle of the loop: how many reasons it gave, and for each symbol whether it is BLOCKED.
pub record Cycle : Type 0 where
  pub reasons : ℕ
  pub blocked_symbols : List Bool

abbrev itself : Bool → Bool
itself b = b

-- `_market_block_reason`
unfoldable pub market_block_reason : Option Cycle → Option Detail
market_block_reason none = none
market_block_reason (some c) = elim c.blocked_symbols [
  | [] ↦ none
  | b ∷ bs ↦
      if not (c.reasons == 0) && all itself (b ∷ bs) then some Detail.market_blocked else none
]

-- The states that `refresh_state` leaves as they are.
abbrev settled : BotState → Bool
settled stopped = true
settled starting = true
settled error = true
settled _ = false

healthy_status : Settings → Bool → Option RawAccount → Option Cycle → BotStatus → BotStatus
healthy_status settings false account cycle s = entered degraded Detail.unhealthy s
healthy_status settings true account cycle s =
    elim (real_account_reason settings (account_profile account)) [
      | some d ↦ entered degraded d s
      | none ↦ elim (market_block_reason cycle) [
        | some d ↦ entered degraded d s
        | none ↦ entered running Detail.all_healthy s
      ]
    ]

unfoldable pub refresh_state :
    Settings → Bool → Bool → Option RawAccount → Option Cycle → ℕ → Bot → Bot
unfolding healthy_status
refresh_state settings read_raises healthy account cycle now bot =
    let (lock, store) = persisted_lock read_raises now bot.store in
    if settled bot.status.state then bot else elim lock [
      | some true ↦ record {
        status = entered locked Detail.lock_in_force bot.status;
        store = store;
      }
      | none ↦ record {
        status = entered degraded Detail.state_unreadable bot.status;
        store = store;
      }
      | some false ↦ record {
        status = healthy_status settings healthy account cycle bot.status;
        store = store;
      }
    ]

-- The answer to a closing or cancelling order.
pub data Answer : Type 0 where
  raised nothing : Answer
  retcode : Option ℕ → Answer

-- 10009 is DONE, 10010 DONE_PARTIAL.
unfoldable pub accepted : Answer → Bool
accepted (retcode (some code)) = code == 10009 || code == 10010
accepted _ = false

-- A position or a pending order: its magic number, if it has one, and the answer to closing it.
pub record Target : Type 0 where
  pub magic : Option ℕ
  pub answer : Answer

pub record SweepReport : Type 0 where
  pub closed : ℕ
  pub failed : ℕ
  pub skipped : ℕ
  pub attempted : List Target

-- A target without a magic number counts as the bot's own.
unfoldable pub managed : ℕ → Target → Bool
managed magic t = unwrap_or t.magic magic == magic

abbrev tally : Bool → Target → SweepReport → SweepReport
tally false t r = record r { skipped = suc r.skipped }
tally true t r =
    if accepted t.answer
    then record r { closed = suc r.closed; attempted = t ∷ r.attempted }
    else record r { failed = suc r.failed; attempted = t ∷ r.attempted }

nothing_done : SweepReport
nothing_done = record { closed = 0; failed = 0; skipped = 0; attempted = [] }

-- `_close_managed_positions` and `_cancel_managed_orders`; `none` where the list cannot be read.
unfoldable pub sweep_list : ℕ → List Target → SweepReport
unfolding nothing_done
sweep_list magic [] = nothing_done
sweep_list magic (t ∷ ts) = tally (managed magic t) t (sweep_list magic ts)

unfoldable pub sweep : ℕ → Option (List Target) → SweepReport
unfolding nothing_done
sweep magic none = nothing_done
sweep magic (some ts) = sweep_list magic ts

-- The answers to one `emergency_stop`.
pub record StopReplies : Type 0 where
  pub loop_stopped : Option Bool
  pub lock_write : Fault
  pub positions : Option (List Target)
  pub orders : Option (List Target)

pub record StopReport : Type 0 where
  pub scheduler_stopped : Bool
  pub lock_persisted : Bool
  pub positions : Option SweepReport
  pub orders : Option SweepReport

abbrev asked : Bool → SweepReport → Option SweepReport
asked true r = some r
asked false r = none

unfoldable pub emergency_stop : Settings → Bool → Bool → StopReplies → ℕ → Bot → StopReport × Bot
emergency_stop settings close_positions cancel_pending replies now bot =
    let (written, store) = set_persisted_lock replies.lock_write true now bot.store in
    (
      record {
        scheduler_stopped = unwrap_or replies.loop_stopped false;
        lock_persisted = written;
        positions = asked close_positions (sweep settings.magic_number replies.positions);
        orders = asked cancel_pending (sweep settings.magic_number replies.orders);
      },
      record { status = entered locked Detail.emergency_stopped bot.status; store = store },
    )
