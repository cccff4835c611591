-- ===== src/Risk/Engine/Session.antt =====
-- The persisted side of an assessment (app/risk/engine.py, `assess`): the counters that are read, the
-- lock on an account mismatch, and the latch of a session that reached a limit. The calls of the
-- store may raise; `Faults` says which of them do in this run.
use mt5_trading_bot.Base.{
  ℕ, Bool, true, false, not, ◌&&◌, ◌||◌, leb, if◌then◌else◌, Option, none, some, List, [], ◌∷◌,
  ◌++◌, is_some,
}
use mt5_trading_bot.Num.{ℚ, int, billionth, ◌-ℚ◌, ◌*ℚ◌, ◌/ℚ◌, leb_ℚ, is_pos}
use mt5_trading_bot.Core.Text.{is_empty}
use mt5_trading_bot.Core.Settings.{Settings}
use mt5_trading_bot.Core.Message.{
  Message, Limit, session_loss_limit, daily_trade_limit, daily_loss_limit, drawdown_limit,
  drawdown_stop, limits_reached, operator,
}
use mt5_trading_bot.Core.Account.{AccountProfile, classified}
use mt5_trading_bot.Database.{Db, RiskRow}
use mt5_trading_bot.Risk.State.{
  load, observe_equity, set_emergency_locked, set_kill_switch, one_trade_authorization,
  session_loss,
}
use mt5_trading_bot.Risk.Engine.Facts.{truthy}
use mt5_trading_bot.Execution.Validation.{when}

-- Where the two calls of the read, and of each pair of writes, raise.
pub data Fault : Type 0 where
  fine first_raises second_raises : Fault

pub record Faults : Type 0 where
  pub read : Fault
  pub mismatch : Fault
  pub authorization : Bool
  pub drawdown : Fault
  pub latch : Bool

pub record Session : Type 0 where
  pub readable : Bool
  pub loss : ℚ
  pub trades : ℕ
  pub peak : Option ℚ
  pub kill : Option Message
  pub locked : Bool

-- What stands before the read.
abbrev unread : Bool → Session
unread locked = record {
  readable = false;
  loss = int 0;
  trades = 0;
  peak = none;
  kill = none;
  locked = locked;
}

abbrev pub from_row : Bool → Bool → RiskRow → Session
from_row readable locked row = record {
  readable = readable;
  loss = session_loss row;
  trades = row.trades_opened;
  peak = row.peak_equity;
  kill = row.kill_switch_reason;
  locked = locked || row.emergency_locked;
}

-- `if facts.equity: state.observe_equity(facts.equity, day)`
see : Option ℚ → ℕ → Option ℕ → Db → Db
see none now day db = db
see (some e) now day db = (observe_equity (some e) now day db).1

unfoldable pub read_store : Fault → Bool → Option ℚ → ℕ → Option ℕ → Db → Session × Db
unfolding see
read_store fine locked equity now day db =
    let (row, db') = load now day db in (from_row true locked row, see equity now day db')
read_store first_raises locked equity now day db = (unread locked, db)
read_store second_raises locked equity now day db =
    let (row, db') = load now day db in (from_row (not (is_some equity)) locked row, db')

-- No store is an unavailable input, never a session without losses.
unfoldable pub read_session :
    Fault → Bool → Option ℚ → ℕ → Option ℕ → Option Db → Session × Option Db
unfolding read_store
read_session fault locked equity now day none = (unread locked, none)
read_session fault locked equity now day (some db) =
    let (session, db') = read_store fault locked (truthy equity) now day db in (session, some db')

-- The two writes of a lock; `true` where both were made.
unfoldable pub write_lock : Fault → Message → ℕ → Option ℕ → Db → Bool × Db
write_lock fine reason now day db =
    (true, (set_kill_switch reason now day (set_emergency_locked true now day db).1).1)
write_lock first_raises reason now day db = (false, db)
write_lock second_raises reason now day db = (false, (set_emergency_locked true now day db).1)

was_read : Option AccountProfile → Bool
was_read none = false
was_read (some a) = classified a

-- 3: an account that was read and is not the expected one locks the session and the store.
unfoldable pub lock_on_mismatch :
    Fault
    → Option AccountProfile
    → Option Message
    → ℕ
    → Option ℕ
    → Session
    → Option Db
    → Session × Option Db
unfolding was_read
lock_on_mismatch fault account none now day s store = (s, store)
lock_on_mismatch fault account (some reason) now day s none =
    (if was_read account then record s { locked = true } else s, none)
lock_on_mismatch fault account (some reason) now day s (some db) =
    if was_read account
    then (record s { locked = true }, some (write_lock fault reason now day db).1)
    else (s, some db)

-- 17: the read adds the row of the authorization where there is none.
unfoldable pub read_authorization : Bool → Option Db → Option Db × Option Db
read_authorization raises none = (none, none)
read_authorization true (some db) = (none, some db)
read_authorization false (some db) = (some db, some (one_trade_authorization db).1)

loses : Settings → Session → Bool
loses settings s = leb_ℚ (settings.max_session_loss_usd -ℚ billionth) s.loss && is_pos s.loss

loses_day : Settings → Option ℚ → Session → Bool
loses_day settings none s = false
loses_day settings (some equity) s = leb_ℚ (equity *ℚ settings.max_daily_loss_pct /ℚ int 100) s.loss

draws_down : Settings → Option ℚ → Option ℚ → Bool
draws_down settings (some equity) (some peak) =
    is_pos peak && leb_ℚ settings.max_drawdown_pct ((peak -ℚ equity) /ℚ peak *ℚ int 100)
draws_down settings _ _ = false

-- 18: the limits that the session has reached; none is looked at where the store was not read.
unfoldable pub limits_of : Settings → Option ℚ → Session → List Limit
unfolding loses loses_day draws_down
limits_of settings equity s =
    if s.readable
    then when (loses settings s) session_loss_limit
      ++ when (leb settings.max_daily_trades s.trades) daily_trade_limit
      ++ when (loses_day settings (truthy equity) s) daily_loss_limit
      ++ when (draws_down settings (truthy equity) (truthy s.peak)) drawdown_limit
    else []

unfoldable pub draws_down_now : Settings → Option ℚ → Session → Bool
unfolding draws_down
draws_down_now settings equity s = s.readable && draws_down settings (truthy equity) (truthy s.peak)

-- `reason or ...` on a message: an empty text counts as none.
unfoldable pub or_message : Option Message → Message → Message
or_message none m = m
or_message (some (operator t)) m = if is_empty t then m else operator t
or_message (some (limits_reached [])) m = m
or_message (some k) m = k

-- The lock of a drawdown: the two writes are not guarded, so a failing store ends the assessment.
unfoldable pub lock_on_drawdown :
    Fault → Bool → ℕ → Option ℕ → Session → Option Db → Option (Session × Option Db)
lock_on_drawdown fault false now day s store = some (s, store)
lock_on_drawdown fault true now day s none = some (s, none)
lock_on_drawdown fault true now day s (some db) =
    let (written, db') = write_lock fault drawdown_stop now day db in
    if written
    then some (record s { locked = true; kill = some (or_message s.kill drawdown_stop) }, some db')
    else none

unfoldable pub store_latch : Bool → Message → ℕ → Option ℕ → Option Db → Option Db
store_latch raises m now day none = none
store_latch true m now day (some db) = some db
store_latch false m now day (some db) = some (set_kill_switch m now day db).1

-- Reaching a limit persists why the session closed.
unfoldable pub latch_limits :
    Bool → List Limit → ℕ → Option ℕ → Session → Option Db → Session × Option Db
unfolding store_latch
latch_limits raises [] now day s store = (s, store)
latch_limits raises (l ∷ ls) now day s store =
    let reason = or_message s.kill (limits_reached (l ∷ ls)) in
    (
      record s { kill = some reason },
      if s.readable then store_latch raises reason now day store else store,
    )
