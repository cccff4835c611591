-- ===== src/Execution/Request.antt =====
-- The order request and the idempotency key (app/execution/service.py). The digest of an intent is
-- the SHA-256 of its printed fields, a parameter.
use mt5_trading_bot.Base.{
  ℕ, zero, suc, ◌-◌, ◌/◌, ◌%◌, ◌^◌, Bool, true, false, ◌&&◌, ◌||◌, leb, ◌==◌, if◌then◌else◌, Option,
  none, some, [], ◌∷◌, map,
}
use mt5_trading_bot.Num.{ℚ, int, ratio, ◌*ℚ◌, eqb_ℚ, round_half_even}
use mt5_trading_bot.Core.Text.{Text, strip, is_empty}
use mt5_trading_bot.Core.Signal.{TradeIntent, Action, buy}
use mt5_trading_bot.Core.Settings.{Settings}
use mt5_trading_bot.Risk.Sizing.{SymbolSpec}

pub data Filling : Type 0 where
  fill_or_kill immediate_or_cancel return_rest : Filling

-- The request of a market order; the constant entries (action, deviation, type_time) are left out.
pub record Request : Type 0 where
  pub symbol : Text
  pub volume : ℚ
  pub is_buy : Bool
  pub price : ℚ
  pub stop_loss : ℚ
  pub take_profit : ℚ
  pub magic : ℕ
  pub comment : Text
  pub filling : Filling

abbrev pub first_chars : ℕ → Text → Text
first_chars zero t = []
first_chars (suc n) [] = []
first_chars (suc n) (c ∷ t) = c ∷ first_chars n t

is_safe : ℕ → Bool
is_safe c =
    (leb b'0' c && leb c b'9')
    || ((leb b'A' c && leb c b'Z') || ((leb b'a' c && leb c b'z') || (c == b'-' || c == b'_')))

safe_char : ℕ → ℕ
unfolding is_safe
safe_char c = if is_safe c then c else b'-'

-- `bot-` and the first 24 characters of the trade id, made safe for a comment.
unfoldable pub order_comment : Text → Text
unfolding safe_char
order_comment trade_id = b'b' ∷ b'o' ∷ b't' ∷ b'-' ∷ first_chars 24 (map safe_char trade_id)

-- `round(value, digits)` of a price
unfoldable pub round_digits : ℕ → ℚ → ℚ
round_digits digits value = ratio (round_half_even (value *ℚ int (10 ^ digits))) (10 ^ digits - 1)

abbrev filling_of : ℕ → Filling
filling_of mode =
    if mode % 2 == 1
    then fill_or_kill
    else if (mode / 2) % 2 == 1
    then immediate_or_cancel
    else return_rest

-- `round(float(take_profit), digits) if take_profit else 0.0`
abbrev target_price : ℕ → Option ℚ → ℚ
target_price digits none = int 0
target_price digits (some t) = if eqb_ℚ t (int 0) then int 0 else round_digits digits t

abbrev is_buy_order : Action → Bool
is_buy_order buy = true
is_buy_order _ = false

-- `stop` is the stop loss of the signal, which is there once the stops are validated.
unfoldable pub build_request : Settings → TradeIntent → SymbolSpec → ℚ → ℚ → Request
build_request settings intent spec volume stop = record {
  symbol = intent.signal.symbol;
  volume = volume;
  is_buy = is_buy_order intent.signal.action;
  price = round_digits spec.digits intent.requested_price;
  stop_loss = round_digits spec.digits stop;
  take_profit = target_price spec.digits intent.signal.take_profit;
  magic = settings.magic_number;
  comment = order_comment intent.trade_id;
  filling = filling_of spec.filling_mode;
}

-- The caller's key, or a deterministic identity of the intent, cut to the column's width.
unfoldable pub idempotency_key : (TradeIntent → Text) → TradeIntent → Text
idempotency_key digest intent =
    let raw = strip intent.idempotency_key in
    first_chars 128 (if is_empty raw then digest intent else raw)
