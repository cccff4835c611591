-- ===== src/News/Provider/Throttle.antt =====
-- One refresh serves the cycles that follow it (app/news/provider.py, `_due` and `refresh`).
use mt5_trading_bot.Base.{
  ℕ, ◌+◌, ◌<◌, ◌≤◌, ◌≡◌, refl, inl, inr, ◌⊎◌, Bool, true, false, Option, some, List, arith,
  Bool-cases,
}
use mt5_trading_bot.Core.Text.{Text}
use mt5_trading_bot.News.Event.{NewsEvent}
use mt5_trading_bot.News.Payload.{NewsError}
use mt5_trading_bot.News.Cache.{NewsTables}
use mt5_trading_bot.News.Provider.{
  CalendarSnapshot, CalendarPolicy, Attempt, is_due, fetch, settle, refresh, fail, succeed,
  bounded_policy,
}

pub bounded_policy-intervals :
    (key : Text) (closed : Bool) (window refresh age retry back ahead : ℕ)
    → let p = bounded_policy key closed window refresh age retry back ahead in
      (1 ≤ p.failure_retry_seconds) × (p.failure_retry_seconds ≤ p.refresh_seconds)
unfolding bounded_policy
bounded_policy-intervals key closed window refresh age retry back ahead =
    (ground arith, ground arith)

module _ (from_iso : Text → Option ℕ) (row_id : Text → ℕ → ℕ → Text) (policy : CalendarPolicy) where
  not_due :
      (s : CalendarSnapshot) (last now : ℕ)
      → s.last_attempt_at ≡ some last
      → 1 ≤ policy.failure_retry_seconds
      → policy.failure_retry_seconds ≤ policy.refresh_seconds
      → now < last + policy.failure_retry_seconds
      → is_due policy s now ≡ false
  unfolding is_due
  not_due s last now e o b h =
      rw e
        (elim (Bool-cases s.healthy) [ inl k ↦ rw k (ground arith) | inr k ↦ rw k (ground arith) ])

  settle-attempted :
      (a : Attempt) (s : CalendarSnapshot) (tables : NewsTables) (r : NewsError ⊎ List NewsEvent)
      → (settle from_iso row_id a s tables r).0.last_attempt_at ≡ some a.moment
  unfolding settle fail succeed
  settle-attempted a s tables (inl error) = refl
  settle-attempted a s tables (inr events) = refl

  -- After a refresh that was due, and whatever it answered, a refresh within the retry interval
  -- makes no request and writes nothing: it leaves the calendar and the tables as they are.
  pub refresh-throttled :
      (a b : Attempt) (s : CalendarSnapshot) (tables : NewsTables)
      → 1 ≤ policy.failure_retry_seconds
      → policy.failure_retry_seconds ≤ policy.refresh_seconds
      → is_due policy s a.moment ≡ true
      → b.moment < a.moment + policy.failure_retry_seconds
      → refresh from_iso row_id policy b (refresh from_iso row_id policy a (s, tables))
        ≡ refresh from_iso row_id policy a (s, tables)
  unfolding refresh
  refresh-throttled a b s tables o r d h =
      let after = settle from_iso row_id a s tables (fetch from_iso row_id policy a) in
      rw
        (
          d,
          not_due after.0 a.moment b.moment
              (settle-attempted a s tables (fetch from_iso row_id policy a)) o r h,
        )
        refl
