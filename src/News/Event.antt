-- ===== src/News/Event.antt =====
-- app/news/provider.py: events, decisions and the currencies of a symbol. A moment is a number of
-- seconds since the epoch, and the reason of a decision is the case it was made in.
use mt5_trading_bot.Base.{
  ℕ, ◌-◌, ◌*◌, Bool, true, false, not, ◌&&◌, ◌||◌, ltb, leb, if◌then◌else◌, Option, none, some,
  List, [], ◌∷◌, any, keep, length,
}
use mt5_trading_bot.Core.Text.{Text, text_eq, strip, upper, is_empty}
use mt5_trading_bot.News.Tables.{high_impact, known_currencies}

pub record NewsEvent : Type 0 where
  pub when : ℕ
  pub currency : Text
  pub impact : Text
  pub title : Text
  pub event_id : Text
  pub country : Text
  pub actual : Option Text
  pub forecast : Option Text
  pub previous : Option Text
  pub retrieved_at : Option ℕ
  pub provider : Text

-- `high_impact`
abbrev pub is_high : NewsEvent → Bool
is_high e = text_eq e.impact high_impact

pub data Reason : Type 0 where
  unavailable stale unmapped quiet : Reason
  news_window : List NewsEvent → Reason

pub record NewsDecision : Type 0 where
  pub allowed : Bool
  pub available : Bool
  pub reason : Reason

abbrev pub is_member : Text → List Text → Bool
is_member t ts = any (text_eq t) ts

abbrev first_three : Text → Text
first_three (a ∷ b ∷ c ∷ _) = a ∷ b ∷ c ∷ []
first_three t = t

abbrev after_three : Text → Text
after_three (_ ∷ _ ∷ _ ∷ t) = t
after_three t = []

unfoldable pub currencies_of : Text → List Text
currencies_of symbol =
    let text = upper (strip symbol) in
    if ltb (length text) 6
    then if is_empty text then [] else text ∷ []
    else first_three text ∷ first_three (after_three text) ∷ []

abbrev is_letter : ℕ → Bool
is_letter c = (leb b'a' c && leb c b'z') || (leb b'A' c && leb c b'Z')

unfoldable pub pair_of : Text → Option (List Text)
pair_of letters =
    let base = first_three letters in
    let quote = first_three (after_three letters) in
    if ltb (length letters) 6
    then none
    else if is_member base known_currencies
        && is_member quote known_currencies
        && not (text_eq base quote)
    then some (base ∷ quote ∷ [])
    else none

unfoldable pub pair_currencies : Text → Option (List Text)
unfolding pair_of
pair_currencies symbol = pair_of (upper (keep is_letter symbol))

-- `abs(a - b)`
abbrev pub distance : ℕ → ℕ → ℕ
distance a b = if leb a b then b - a else a - b

abbrev pub seconds_of_minutes : ℕ → ℕ
seconds_of_minutes n = n * 60

-- A high-impact event of one of the currencies inside the window around the moment.
abbrev pub is_blocking : List Text → ℕ → ℕ → NewsEvent → Bool
is_blocking currencies window_minutes now e =
    is_high e
    && is_member e.currency currencies
    && leb (distance e.when now) (seconds_of_minutes window_minutes)

abbrev pub blocking_of : List Text → ℕ → ℕ → List NewsEvent → List NewsEvent
blocking_of currencies window_minutes now events =
    keep (is_blocking currencies window_minutes now) events

-- The last step of every `decision`.
abbrev pub window_decision : List NewsEvent → NewsDecision
window_decision [] = record { allowed = true; available = true; reason = quiet }
window_decision (e ∷ es) = record {
  allowed = false;
  available = true;
  reason = news_window (e ∷ es);
}

-- `UnavailableNewsProvider.decision`
abbrev pub unavailable_decision : Bool → NewsDecision
unavailable_decision fail_closed = record {
  allowed = not fail_closed;
  available = false;
  reason = unavailable;
}

-- `StaticNewsProvider.decision`
unfoldable pub static_decision : Bool → ℕ → List NewsEvent → Text → ℕ → NewsDecision
unfolding currencies_of
static_decision fail_closed window_minutes [] symbol now = unavailable_decision fail_closed
static_decision fail_closed window_minutes (e ∷ es) symbol now =
    window_decision (blocking_of (currencies_of symbol) window_minutes now (e ∷ es))
