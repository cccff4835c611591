-- ===== src/News/Cache.antt =====
-- app/news/provider.py and app/database/base.py: the calendar that the database keeps, one set of
-- rows per provider. `detail` is left out; a fault of the database is given.
pub mod RoundTrip
use mt5_trading_bot.Base.{
  ℕ, Bool, true, false, not, ◌&&◌, leb, if◌then◌else◌, Option, none, some, List, [], ◌∷◌, ◌++◌, map,
  keep, find, all, length, unwrap_or,
}
use mt5_trading_bot.Core.Text.{Text, text_eq}
use mt5_trading_bot.News.Event.{NewsEvent}

pub record NewsEventRow : Type 0 where
  pub provider : Text
  pub event_id : Text
  pub title : Text
  pub country : Text
  pub currency : Text
  pub impact : Text
  pub event_time : ℕ
  pub actual : Option Text
  pub forecast : Option Text
  pub previous : Option Text
  pub retrieved_at : ℕ

pub record NewsStateRow : Type 0 where
  pub provider : Text
  pub healthy : Bool
  pub event_count : ℕ
  pub last_attempt_at : Option ℕ
  pub last_success_at : Option ℕ
  pub retrieved_at : Option ℕ

pub record NewsTables : Type 0 where
  pub events : List NewsEventRow
  pub states : List NewsStateRow

pub record CachedCalendar : Type 0 where
  pub events : List NewsEvent
  pub retrieved_at : Option ℕ
  pub last_success_at : Option ℕ

module _ {ℓ} {A : Type ℓ} (key : A → ℕ) where
  abbrev insert_by : A → List A → List A
  insert_by x [] = x ∷ []
  insert_by x (y ∷ ys) =
      let rest = insert_by x ys in if leb (key x) (key y) then x ∷ y ∷ ys else y ∷ rest

  -- `ORDER BY`
  abbrev pub sort_by : List A → List A
  sort_by [] = []
  sort_by (x ∷ xs) = insert_by x (sort_by xs)

abbrev pub own_row : Text → NewsEventRow → Bool
own_row provider row = text_eq row.provider provider

abbrev pub own_state : Text → NewsStateRow → Bool
own_state provider row = text_eq row.provider provider

abbrev pub event_of_row : NewsEventRow → NewsEvent
event_of_row row = record {
  when = row.event_time;
  currency = row.currency;
  impact = row.impact;
  title = row.title;
  event_id = row.event_id;
  country = row.country;
  actual = row.actual;
  forecast = row.forecast;
  previous = row.previous;
  retrieved_at = some row.retrieved_at;
  provider = row.provider;
}

abbrev calendar_of : Option NewsStateRow → List NewsEventRow → Option CachedCalendar
calendar_of none [] = none
calendar_of none (r ∷ rs) =
    some record { events = map event_of_row (r ∷ rs); retrieved_at = none; last_success_at = none }
calendar_of (some state) rs = some record {
  events = map event_of_row rs;
  retrieved_at = state.retrieved_at;
  last_success_at = state.last_success_at;
}

-- `SqlNewsCache.load`; an unreadable database is no calendar.
unfoldable pub load_news : Text → Bool → NewsTables → Option CachedCalendar
load_news provider readable tables =
    if readable
    then calendar_of (find (own_state provider) tables.states)
        (sort_by (λ row. row.event_time) (keep (own_row provider) tables.events))
    else none

-- `event.provider or self.provider`
abbrev pub or_own : Text → Text → Text
or_own [] provider = provider
or_own (c ∷ t) provider = c ∷ t

abbrev pub row_of : Text → ℕ → NewsEvent → NewsEventRow
row_of provider now e = record {
  provider = or_own e.provider provider;
  event_id = e.event_id;
  title = e.title;
  country = e.country;
  currency = e.currency;
  impact = e.impact;
  event_time = e.when;
  actual = e.actual;
  forecast = e.forecast;
  previous = e.previous;
  retrieved_at = unwrap_or e.retrieved_at now;
}

-- The rows once a calendar replaced its provider's; an empty calendar leaves them.
unfoldable pub replaced : Text → ℕ → List NewsEvent → List NewsEventRow → List NewsEventRow
replaced provider now [] rows = rows
replaced provider now (e ∷ es) rows =
    keep (λ row. not (own_row provider row)) rows ++ map (row_of provider now) (e ∷ es)

-- The provider's first row updated, or a new one.
unfoldable pub set_state : Text → NewsStateRow → List NewsStateRow → List NewsStateRow
set_state provider state [] = state ∷ []
set_state provider state (row ∷ rows) =
    let rest = set_state provider state rows in
    if own_state provider row then state ∷ rows else row ∷ rest

abbrev pub state_row : Text → ℕ → ℕ → Option ℕ → Option ℕ → Bool → NewsStateRow
state_row provider now count retrieved_at last_success_at healthy = record {
  provider = provider;
  healthy = healthy;
  event_count = count;
  last_attempt_at = some now;
  last_success_at = last_success_at;
  retrieved_at = retrieved_at;
}

-- The unique constraint on `event_id`.
abbrev pub unique_ids : List NewsEventRow → Bool
unique_ids [] = true
unique_ids (row ∷ rows) =
    all (λ other. not (text_eq row.event_id other.event_id)) rows && unique_ids rows

-- `SqlNewsCache.save` at a moment: all of it or, where the database refuses it, nothing.
unfoldable pub save_news :
    Text → Bool → ℕ → List NewsEvent → Option ℕ → Option ℕ → Bool → NewsTables → NewsTables
unfolding replaced set_state
save_news provider writable now events retrieved_at last_success_at healthy tables =
    if writable && unique_ids (replaced provider now events tables.events)
    then record {
      events = replaced provider now events tables.events;
      states =
          set_state provider
            (state_row provider now (length events) retrieved_at last_success_at healthy)
            tables.states;
    }
    else tables
