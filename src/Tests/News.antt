-- ===== src/Tests/News.antt =====
-- The calendar and its gate at concrete inputs.
use mt5_trading_bot.Base.{
  ℕ, ◌≡◌, refl, true, false, inr, Option, none, some, List, [], ◌∷◌, All, arith,
}
use mt5_trading_bot.Core.Text.{Text, text_eq, strip, upper}
use mt5_trading_bot.News.Tables.{iso, high_impact, trading_economics, static_name}
use mt5_trading_bot.News.Event.{NewsEvent}
use mt5_trading_bot.News.Payload
use mt5_trading_bot.News.Payload.{Row, object, rows, string, Response, response, NewsError}
use mt5_trading_bot.News.Payload.Complete.{Held, parse_calendar_payload-Held}
use mt5_trading_bot.News.Cache.{NewsTables, load_news, save_news, unique_ids, replaced}
use mt5_trading_bot.News.Cache.RoundTrip.{load_news-save_news, load_news-save_news_of_another}
use mt5_trading_bot.News.Provider.{
  CalendarPolicy, CalendarSnapshot, Attempt, bounded_policy, restored, is_due, refresh, decision,
}
use mt5_trading_bot.News.Provider.Throttle.{refresh-throttled}
use mt5_trading_bot.News.Gate.{Protected, decision-Protected}
use mt5_trading_bot.Tests.Data.{eurusd, first_id}

-- Every timestamp is read as the moment 5000.
abbrev read_iso : Text → Option ℕ
read_iso t = some 5000

abbrev number_row : Text → ℕ → ℕ → Text
number_row provider index when = b'0' ∷ index ∷ []

abbrev row_fields : List (Text × Payload.Value)
row_fields =
    (b'D' ∷ b'a' ∷ b't' ∷ b'e' ∷ [], string (b'x' ∷ []))
    ∷ (b'I' ∷ b'm' ∷ b'p' ∷ b'a' ∷ b'c' ∷ b't' ∷ [], string (b'3' ∷ []))
    ∷ (b'C' ∷ b'u' ∷ b'r' ∷ b'r' ∷ b'e' ∷ b'n' ∷ b'c' ∷ b'y' ∷ [], string (b'u' ∷ b's' ∷ b'd' ∷ []))
    ∷ []

abbrev usd_event : NewsEvent
usd_event = record {
  when = 5000;
  currency = iso b'U' b'S' b'D';
  impact = high_impact;
  title = [];
  event_id = b'0' ∷ 0 ∷ [];
  country = [];
  actual = none;
  forecast = none;
  previous = none;
  retrieved_at = some 9000;
  provider = trading_economics;
}

one_row :
    Payload.parse_calendar_payload read_iso number_row
      (rows (object row_fields ∷ []))
      9000
      trading_economics
    ≡ inr (usd_event ∷ [])
unfolding Payload.parse_calendar_payload strip text_eq upper
one_row = refl

parse_calendar_payload-Held_example :
    All (Held read_iso number_row (usd_event ∷ [])) (object row_fields ∷ [])
parse_calendar_payload-Held_example =
    parse_calendar_payload-Held read_iso number_row (object row_fields ∷ []) 9000 trading_economics
      (usd_event ∷ []) one_row

abbrev no_rows : NewsTables
no_rows = record { events = []; states = [] }

one_id : unique_ids (replaced trading_economics 9000 (usd_event ∷ []) []) ≡ true
unfolding replaced
one_id = refl

load_news-save_news_example :
    load_news trading_economics true
      (save_news trading_economics true 9000 (usd_event ∷ []) (some 9000) (some 9000) true no_rows)
    ≡ some record { events = usd_event ∷ []; retrieved_at = some 9000; last_success_at = some 9000 }
load_news-save_news_example =
    load_news-save_news trading_economics 9000 usd_event [] (some 9000) (some 9000) true no_rows
      ((refl, refl), tt) one_id

apart : text_eq trading_economics static_name ≡ false
unfolding text_eq
apart = refl

load_news-save_news_of_another_example :
    load_news static_name true
      (save_news trading_economics true 9000 (usd_event ∷ []) none none true no_rows)
    ≡ load_news static_name true no_rows
load_news-save_news_of_another_example =
    load_news-save_news_of_another trading_economics static_name apart true true 9000
      (usd_event ∷ []) none none true no_rows ((refl, refl), tt)

abbrev policy : CalendarPolicy
policy = bounded_policy first_id true 30 300 900 60 12 168

abbrev answering : ℕ → Attempt
answering moment = record {
  moment = moment;
  transport = λ from to. response (some 200) (some (rows (object row_fields ∷ [])));
  writable = true;
  written_at = moment;
}

abbrev start : CalendarSnapshot × NewsTables
start = (restored none, no_rows)

allowed : (decision read_iso number_row policy (answering 9000) eurusd start).0.allowed ≡ true
unfolding decision restored strip bounded_policy Payload.parse_calendar_payload text_eq upper
allowed = refl

closed : policy.fail_closed ≡ true
unfolding bounded_policy
closed = refl

retried : policy.failure_retry_seconds ≡ 60
unfolding bounded_policy
retried = refl

refreshed : policy.refresh_seconds ≡ 300
unfolding bounded_policy
refreshed = refl

decision-Protected_example : Protected read_iso number_row policy (answering 9000 ∷ []) eurusd 9000
decision-Protected_example =
    decision-Protected read_iso number_row policy [] none no_rows (answering 9000) eurusd closed
      allowed

first_due : is_due policy (restored none) 9000 ≡ true
unfolding is_due restored
first_due = refl

refresh-throttled_example :
    refresh read_iso number_row policy
      (answering 9059)
      (refresh read_iso number_row policy (answering 9000) start)
    ≡ refresh read_iso number_row policy (answering 9000) start
refresh-throttled_example =
    refresh-throttled read_iso number_row policy (answering 9000) (answering 9059) (restored none)
      no_rows (omega (arith, retried)) (omega (arith, retried, refreshed)) first_due
      (omega (arith, retried))
