-- ===== src/News/Payload.antt =====
-- app/news/provider.py: one call of the calendar API and the reading of its rows. The transport's
-- answer is given; so are the standard library's reading of ISO-8601 (`from_iso`, as UTC seconds)
-- and the formatted identity of a row that has none (`row_id`, of provider, index and moment).
pub mod Complete
use mt5_trading_bot.Base.{
  ℕ, suc, ◌+◌, leb, ◌&&◌, ◌==◌, Bool, true, false, ◌||◌, if◌then◌else◌, ◌⊎◌, inl, inr, Option, none,
  some, List, [], ◌∷◌, unwrap_or, map,
}
use mt5_trading_bot.Core.Text.{Text, text_eq, strip, upper, is_empty}
use mt5_trading_bot.News.Tables.{
  impact_by_importance, country_currencies, high_impact, date_fields, importance_fields,
  country_fields, currency_fields, event_fields, id_fields, actual_fields, forecast_fields,
  previous_fields,
}
use mt5_trading_bot.News.Event.{NewsEvent}

-- A value of a row: `null`, a string, or another value with its `str`.
pub data Value : Type 0 where
  null : Value
  string printed : Text → Value

-- A row of the payload: an object's fields, or no object.
pub data Row : Type 0 where
  not_an_object : Row
  object : List (Text × Value) → Row

pub data Payload : Type 0 where
  not_a_list : Payload
  rows : List Row → Payload

-- `NewsError` and its subclasses.
pub data NewsError : Type 0 where
  calendar_unavailable calendar_auth_error calendar_malformed : NewsError

-- An answer of the transport: the status, where there is one, and the body, where it is JSON.
pub data Response : Type 0 where
  request_failed : Response
  response : Option ℕ → Option Payload → Response

abbrev read_body : Option Payload → NewsError ⊎ Payload
read_body none = inl calendar_malformed
read_body (some payload) = inr payload

abbrev read_status : Option ℕ → Option Payload → NewsError ⊎ Payload
read_status none body = inl calendar_unavailable
read_status (some status) body =
    if (status == 401) || (status == 403)
    then inl calendar_auth_error
    else if status == 200
    then read_body body
    else inl calendar_unavailable

-- `TradingEconomicsCalendarClient.calendar`
unfoldable pub calendar : Text → Response → NewsError ⊎ Payload
calendar api_key answer =
    if is_empty (strip api_key) then inl calendar_auth_error else elim answer [
      | request_failed ↦ inl calendar_unavailable
      | response status body ↦ read_status status body
    ]

abbrev is_present : Value → Bool
is_present null = false
is_present (string []) = false
is_present (string (_ ∷ _)) = true
is_present (printed _) = true

abbrev str : Value → Text
str null = []
str (string t) = t
str (printed t) = t

module _ {ℓ} {A : Type ℓ} where
  -- `dict.get`
  abbrev pub lookup : Text → List (Text × A) → Option A
  lookup key [] = none
  lookup key ((k, v) ∷ rest) = if text_eq key k then some v else lookup key rest

abbrev present_value : Option Value → Option Value
present_value none = none
present_value (some v) = if is_present v then some v else none

-- `_field`
unfoldable pub field : List (Text × Value) → List Text → Option Value
field item [] = none
field item (name ∷ names) = elim (present_value (lookup name item)) [
  | none ↦ field item names
  | some v ↦ some v
]

abbrev non_empty : Text → Option Text
non_empty [] = none
non_empty (c ∷ t) = some (c ∷ t)

-- `_text`
abbrev text_of : Option Value → Option Text
text_of none = none
text_of (some v) = non_empty (strip (str v))

abbrev str_or_empty : Option Value → Text
str_or_empty none = []
str_or_empty (some v) = str v

abbrev lower_char : ℕ → ℕ
lower_char c = if leb b'A' c && leb c b'Z' then c + 32 else c

-- `str.lower`
abbrev lower : Text → Text
lower s = map lower_char s

unfoldable pub normalise_impact : Option Value → Option Text
normalise_impact value = lookup (lower (strip (str_or_empty value))) impact_by_importance

-- The result of reading a row.
pub data RowResult : Type 0 where
  malformed skipped : RowResult
  event : NewsEvent → RowResult

-- The currency of a row, or that of its country.
unfoldable pub currency_of : List (Text × Value) → Text
unfolding field
currency_of item =
    let own = upper (unwrap_or (text_of (field item currency_fields)) []) in
    let country = unwrap_or (text_of (field item country_fields)) [] in
    if is_empty own then unwrap_or (lookup (lower (strip country)) country_currencies) [] else own

module _ (from_iso : Text → Option ℕ) (row_id : Text → ℕ → ℕ → Text) where
  -- A text that ends in Z or z has `+00:00` in its place.
  abbrev zulu : Text → Text
  zulu [] = []
  zulu (c ∷ []) =
      if (c == b'Z') || (c == b'z') then b'+' ∷ b'0' ∷ b'0' ∷ b':' ∷ b'0' ∷ b'0' ∷ [] else c ∷ []
  zulu (c ∷ d ∷ t) = c ∷ zulu (d ∷ t)

  unfoldable pub parse_timestamp : Option Value → Option ℕ
  parse_timestamp value =
      let text = strip (str_or_empty value) in if is_empty text then none else from_iso (zulu text)

  unfoldable pub event_of : ℕ → Text → ℕ → List (Text × Value) → ℕ → Text → NewsEvent
  unfolding field currency_of
  event_of moment provider index item when impact = record {
    when = when;
    currency = currency_of item;
    impact = impact;
    title = unwrap_or (text_of (field item event_fields)) [];
    event_id = unwrap_or (text_of (field item id_fields)) (row_id provider index when);
    country = unwrap_or (text_of (field item country_fields)) [];
    actual = text_of (field item actual_fields);
    forecast = text_of (field item forecast_fields);
    previous = text_of (field item previous_fields);
    retrieved_at = some moment;
    provider = provider;
  }

  unfoldable pub read_row : ℕ → Text → ℕ → Row → RowResult
  unfolding parse_timestamp normalise_impact field currency_of event_of
  read_row moment provider index not_an_object = malformed
  read_row moment provider index (object item) = elim (parse_timestamp (field item date_fields)) [
    | none ↦ malformed
    | some when ↦ elim (normalise_impact (field item importance_fields)) [
      | none ↦ malformed
      | some impact ↦
          if is_empty (currency_of item)
          then if text_eq impact high_impact then malformed else skipped
          else event (event_of moment provider index item when impact)
    ]
  ]

  unfoldable pub read_rows : ℕ → Text → ℕ → List Row → Option (List NewsEvent)
  unfolding read_row
  read_rows moment provider index [] = some []
  read_rows moment provider index (row ∷ rest) =
      let others = read_rows moment provider (suc index) rest in
      elim (read_row moment provider index row) [
        | malformed ↦ none
        | skipped ↦ others
        | event e ↦ elim others [ none ↦ none | some es ↦ some (e ∷ es) ]
      ]

  abbrev or_malformed : Option (List NewsEvent) → NewsError ⊎ List NewsEvent
  or_malformed none = inl calendar_malformed
  or_malformed (some es) = inr es

  unfoldable pub parse_calendar_payload : Payload → ℕ → Text → NewsError ⊎ List NewsEvent
  unfolding read_rows
  parse_calendar_payload not_a_list moment provider = inl calendar_malformed
  parse_calendar_payload (rows rs) moment provider = or_malformed (read_rows moment provider 0 rs)
