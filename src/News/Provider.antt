-- ===== src/News/Provider.antt =====
-- app/news/provider.py, `TradingEconomicsCalendarProvider`: the calendar in memory, its refreshing
-- and its gate. The transport's answers and the faults of the database are given; log lines and
-- details are left out.
pub mod Throttle
use mt5_trading_bot.Base.{
  ℕ, ◌+◌, ◌-◌, ◌*◌, Bool, true, false, not, ltb, leb, if◌then◌else◌, ◌⊎◌, inl, inr, Option, none,
  some, List, [], ◌∷◌, or_else,
}
use mt5_trading_bot.Core.Text.{Text}
use mt5_trading_bot.News.Tables.{trading_economics}
use mt5_trading_bot.News.Event.{
  NewsEvent, NewsDecision, Reason, stale, unmapped, unavailable, pair_currencies, blocking_of,
  window_decision,
}
use mt5_trading_bot.News.Payload.{
  Payload, Response, NewsError, calendar_unavailable, calendar_auth_error, calendar_malformed,
  calendar, parse_calendar_payload,
}
use mt5_trading_bot.News.Cache.{NewsTables, CachedCalendar, load_news, save_news}

pub data CalendarState : Type 0 where
  fresh old unreachable no_credential not_attempted : CalendarState

pub record CalendarSnapshot : Type 0 where
  pub events : List NewsEvent
  pub retrieved_at : Option ℕ
  pub last_attempt_at : Option ℕ
  pub last_success_at : Option ℕ
  pub healthy : Bool
  pub state : CalendarState
  pub last_error : Option NewsError

pub record CalendarPolicy : Type 0 where
  pub api_key : Text
  pub fail_closed : Bool
  pub window_minutes : ℕ
  pub refresh_seconds : ℕ
  pub max_age_seconds : ℕ
  pub failure_retry_seconds : ℕ
  pub lookback_hours : ℕ
  pub horizon_hours : ℕ

abbrev at_least_one : ℕ → ℕ
at_least_one n = if leb 1 n then n else 1

abbrev smaller : ℕ → ℕ → ℕ
smaller a b = if leb a b then a else b

-- `__init__`: the intervals, bounded.
unfoldable pub bounded_policy : Text → Bool → ℕ → ℕ → ℕ → ℕ → ℕ → ℕ → CalendarPolicy
bounded_policy api_key fail_closed window refresh max_age retry lookback horizon = record {
  api_key = api_key;
  fail_closed = fail_closed;
  window_minutes = window;
  refresh_seconds = at_least_one refresh;
  max_age_seconds = at_least_one max_age;
  failure_retry_seconds = at_least_one (smaller retry (at_least_one refresh));
  lookback_hours = lookback;
  horizon_hours = at_least_one horizon;
}

abbrev empty_snapshot : CalendarSnapshot
empty_snapshot = record {
  events = [];
  retrieved_at = none;
  last_attempt_at = none;
  last_success_at = none;
  healthy = false;
  state = not_attempted;
  last_error = none;
}

-- `_restore`: the calendar of an earlier process, which is never read as healthy.
unfoldable pub restored : Option CachedCalendar → CalendarSnapshot
restored none = empty_snapshot
restored (some cached) = elim cached.events [
  | [] ↦ empty_snapshot
  | e ∷ es ↦ record {
    events = cached.events;
    retrieved_at = cached.retrieved_at;
    last_attempt_at = none;
    last_success_at = cached.last_success_at;
    healthy = false;
    state = not_attempted;
    last_error = none;
  }
]

-- `_due`; the intervals are positive, so a last attempt in the future is not due.
unfoldable pub is_due : CalendarPolicy → CalendarSnapshot → ℕ → Bool
is_due policy s moment = elim s.last_attempt_at [
  | none ↦ true
  | some last ↦
      leb (if s.healthy then policy.refresh_seconds else policy.failure_retry_seconds)
        (moment - last)
]

-- What the environment answers to one refresh: the response to a request between two moments,
-- whether the database can be written, and its clock.
pub record Attempt : Type 0 where
  pub moment : ℕ
  pub transport : ℕ → ℕ → Response
  pub writable : Bool
  pub written_at : ℕ

abbrev attempted : CalendarSnapshot → ℕ → CalendarSnapshot
attempted s moment = record {
  events = s.events;
  retrieved_at = s.retrieved_at;
  last_attempt_at = some moment;
  last_success_at = s.last_success_at;
  healthy = s.healthy;
  state = s.state;
  last_error = s.last_error;
}

abbrev state_after : NewsError → CalendarState
state_after calendar_auth_error = no_credential
state_after _ = unreachable

-- `_fail`
unfoldable pub fail : NewsError → CalendarSnapshot → CalendarSnapshot
fail error s = record {
  events = s.events;
  retrieved_at = s.retrieved_at;
  last_attempt_at = s.last_attempt_at;
  last_success_at = s.last_success_at;
  healthy = false;
  state = state_after error;
  last_error = some error;
}

unfoldable pub succeed : List NewsEvent → ℕ → CalendarSnapshot → CalendarSnapshot
succeed events moment s = record {
  events = events;
  retrieved_at = some moment;
  last_attempt_at = s.last_attempt_at;
  last_success_at = some moment;
  healthy = true;
  state = fresh;
  last_error = none;
}

-- `data_age_seconds`; a moment before the reference has the age 0.
unfoldable pub data_age : CalendarSnapshot → ℕ → Option ℕ
data_age s moment = elim (or_else s.last_success_at s.retrieved_at) [
  | none ↦ none
  | some reference ↦ some (moment - reference)
]

-- `state`
unfoldable pub state_at : CalendarPolicy → CalendarSnapshot → ℕ → CalendarState
unfolding data_age
state_at policy s moment =
    if s.healthy
    then elim (data_age s moment) [
      | none ↦ old
      | some age ↦ if ltb policy.max_age_seconds age then old else fresh
    ]
    else s.state

-- A refusal where the policy requires protection.
abbrev unprotected : CalendarPolicy → Bool → Reason → NewsDecision
unprotected policy available reason = record {
  allowed = not policy.fail_closed;
  available = available;
  reason = reason;
}

-- `decision` once the calendar was refreshed.
unfoldable pub gate : CalendarPolicy → CalendarSnapshot → Text → ℕ → NewsDecision
unfolding data_age pair_currencies
gate policy s symbol moment =
    if s.healthy
    then elim (data_age s moment) [
      | none ↦ unprotected policy true stale
      | some age ↦
          if ltb policy.max_age_seconds age
          then unprotected policy true stale
          else elim (pair_currencies symbol) [
            | none ↦ unprotected policy true unmapped
            | some currencies ↦
                window_decision (blocking_of currencies policy.window_minutes moment s.events)
          ]
    ]
    else unprotected policy false unavailable

module _ (from_iso : Text → Option ℕ) (row_id : Text → ℕ → ℕ → Text) where
  abbrev parsed : NewsError ⊎ Payload → ℕ → NewsError ⊎ List NewsEvent
  parsed (inl error) moment = inl error
  parsed (inr payload) moment =
      parse_calendar_payload from_iso row_id payload moment trading_economics

  unfoldable pub fetch : CalendarPolicy → Attempt → NewsError ⊎ List NewsEvent
  unfolding calendar
  fetch policy a =
      parsed
        (calendar policy.api_key (
          a.transport (a.moment - policy.lookback_hours * 3600)
            (a.moment + policy.horizon_hours * 3600)))
        a.moment

  unfoldable pub settle :
      Attempt
      → CalendarSnapshot
      → NewsTables
      → NewsError ⊎ List NewsEvent
      → CalendarSnapshot × NewsTables
  unfolding fail succeed save_news
  settle a s tables (inl error) = (
    fail error (attempted s a.moment),
    save_news trading_economics a.writable a.written_at s.events s.retrieved_at s.last_success_at
        false tables,
  )
  settle a s tables (inr events) = (
    succeed events a.moment (attempted s a.moment),
    save_news trading_economics a.writable a.written_at events (some a.moment) (some a.moment) true
        tables,
  )

  unfoldable pub refresh :
      CalendarPolicy → Attempt → CalendarSnapshot × NewsTables → CalendarSnapshot × NewsTables
  unfolding is_due fetch settle
  refresh policy a (s, tables) =
      if is_due policy s a.moment then settle a s tables (fetch policy a) else (s, tables)

  unfoldable pub decision :
      CalendarPolicy
      → Attempt
      → Text
      → CalendarSnapshot × NewsTables
      → NewsDecision × CalendarSnapshot × NewsTables
  unfolding refresh gate
  decision policy a symbol st =
      let after = refresh policy a st in (gate policy after.0 symbol a.moment, after.0, after.1)
