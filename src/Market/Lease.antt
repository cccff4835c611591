-- ===== src/Market/Lease.antt =====
-- The lease of the market loop (app/services/scheduler.py, `_acquire_db_lock`, `_release_db_lock`):
-- one row, taken, renewed and taken over by the processes that run the loop.
pub mod Processes
pub mod Leaders
pub mod Race
use mt5_trading_bot.Base.{ℕ, ◌-◌, Bool, true, false, leb, if◌then◌else◌, Option, none, some}
use mt5_trading_bot.Core.Text.{Text, text_eq}
use mt5_trading_bot.Database.{LockRow}

abbrev pub fresh_lease : Text → ℕ → LockRow
fresh_lease me now = record { owner = me; acquired_at = now; heartbeat_at = now }

-- Whether the row's heartbeat is at most `ttl` old.
unfoldable pub is_held : ℕ → ℕ → LockRow → Bool
is_held ttl now row = leb (now - row.heartbeat_at) ttl

-- The commit of a process that read `seen`, on the row that is there by then. An insert fails where
-- the unique key is taken; an update changes the row it read, whoever owns it by then, and fails
-- where it is gone.
unfoldable pub commit : Text → ℕ → ℕ → Option LockRow → Option LockRow → Bool × Option LockRow
unfolding is_held
commit me ttl now none none = (true, some (fresh_lease me now))
commit me ttl now none (some row) = (false, some row)
commit me ttl now (some seen) none = (false, none)
commit me ttl now (some seen) (some row) =
    if text_eq seen.owner me
    then (true, some (record row { heartbeat_at = now }))
    else if is_held ttl now seen
    then (false, some row)
    else (true, some (fresh_lease me now))

-- `_acquire_db_lock` with nothing between its read and its commit.
unfoldable pub acquire : Text → ℕ → ℕ → Option LockRow → Bool × Option LockRow
unfolding commit
acquire me ttl now row = commit me ttl now row row

-- `_release_db_lock`: only the owner deletes the row.
unfoldable pub release : Text → Option LockRow → Option LockRow
release me none = none
release me (some row) = if text_eq row.owner me then none else some row
