-- ===== src/Market/Lease/Race.antt =====
-- Two standbys that read the same stale row (app/services/scheduler.py, `_acquire_db_lock`).
use mt5_trading_bot.Base.{
  ℕ, ◌+◌, ◌<◌, ◌≡◌, ◌↔◌, refl, true, false, Option, none, some, arith, some_inj,
}
use mt5_trading_bot.Core.Text.{Text, text_eq}
use mt5_trading_bot.Database.{LockRow}
use mt5_trading_bot.Market.Lease.{acquire, commit, is_held, fresh_lease}

stale_commit :
    (me : Text) (ttl now : ℕ) (seen row : LockRow)
    → text_eq seen.owner me ≡ false
    → seen.heartbeat_at + ttl < now
    → commit me ttl now (some seen) (some row) ≡ (true, some (fresh_lease me now))
unfolding commit is_held
stale_commit me ttl now seen row other old = ground arith

-- The take-over is no conditional update: of two processes that both read a row which neither owns and
-- whose heartbeat is older than the time to live, both are told that they lead, whichever commits
-- last; the row then names the last one.
pub both_take_over :
    (a b : Text) (ttl now now' : ℕ) (seen : LockRow)
    → text_eq seen.owner a ≡ false
    → text_eq seen.owner b ≡ false
    → seen.heartbeat_at + ttl < now
    → seen.heartbeat_at + ttl < now'
    → (let (first, row) = commit a ttl now (some seen) (some seen) in
        let (second, row') = commit b ttl now' (some seen) row in
        (first ≡ true) × (second ≡ true) × (row' ≡ some (fresh_lease b now')))
both_take_over a b ttl now now' seen not_a not_b old old' =
    let one = stale_commit a ttl now seen seen not_a old in
    let two = stale_commit b ttl now' seen (fresh_lease a now) not_b old' in
    rw (one, two) (refl, refl, refl)

-- A process that does not own the lease gets it exactly where there is no row or the heartbeat is
-- older than the time to live: a leader that keeps its heartbeat is never replaced, and the row of
-- one that crashed is taken over as soon as it is stale.
pub acquire-stale :
    (me : Text) (ttl now : ℕ) (lease : Option LockRow)
    → ((row : LockRow) → lease ≡ some row → text_eq row.owner me ≡ false)
    → ((acquire me ttl now lease).0 ≡ true)
      ↔ ((row : LockRow) → lease ≡ some row → row.heartbeat_at + ttl < now)
unfolding acquire is_held
acquire-stale me ttl now none other = (λ _ row e. absurd (cc e), λ _. refl)
acquire-stale me ttl now (some row) other =
    let foreign = other row refl in
    (
      λ won r e. rw (← some_inj e) (ground (arith, foreign, won)),
      λ stale. ground (arith, foreign, stale row refl),
    )
