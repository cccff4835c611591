-- ===== src/Core/Account.antt =====
-- app/mt5/account.py: the broker account as MT5 reports it, and whether it is the expected one.
use mt5_trading_bot.Base.{
  ℕ, Bool, false, not, ◌&&◌, ◌||◌, leb, ◌==◌, if◌then◌else◌, Option, none, some, [], is_some,
  unwrap_or,
}
use mt5_trading_bot.Num.{ℚ, int}
use mt5_trading_bot.Core.Text.{Text, text_eq, strip, upper, is_empty}
use mt5_trading_bot.Core.Message.{Message, account_unreadable, wrong_login, wrong_server}

pub record AccountProfile : Type 0 where
  pub login : Option ℕ
  pub server : Text
  pub company : Text
  pub currency : Text
  pub balance : ℚ
  pub equity : ℚ
  pub free_margin : Option ℚ
  pub leverage : ℚ
  pub trade_mode : Option ℕ

-- 0 is DEMO, 1 is CONTEST, 2 is REAL.
unfoldable pub is_real : AccountProfile → Bool
is_real p = elim p.trade_mode [ none ↦ false | some m ↦ m == 2 ]

unfoldable pub is_demo : AccountProfile → Bool
is_demo p = elim p.trade_mode [ none ↦ false | some m ↦ m == 0 ]

-- The trade mode is one of TRADE_MODE_NAMES.
unfoldable pub classified : AccountProfile → Bool
classified p = elim p.trade_mode [ none ↦ false | some m ↦ leb m 2 ]

-- What `account_info()` returned: an attribute that is missing or cannot be converted is `none`;
-- for `margin_free` the two differ, `none` and `some none`.
pub record RawAccount : Type 0 where
  pub login : Option ℕ
  pub server : Option Text
  pub company : Option Text
  pub currency : Option Text
  pub balance : Option ℚ
  pub equity : Option ℚ
  pub margin_free : Option (Option ℚ)
  pub leverage : Option ℚ
  pub trade_mode : Option ℕ

free_margin_of : Option (Option ℚ) → Option ℚ
free_margin_of none = none
free_margin_of (some v) = some (unwrap_or v (int 0))

unfoldable pub account_profile : Option RawAccount → Option AccountProfile
unfolding free_margin_of
account_profile none = none
account_profile (some a) = some record {
  login = a.login;
  server = unwrap_or a.server [];
  company = unwrap_or a.company [];
  currency = unwrap_or a.currency [];
  balance = unwrap_or a.balance (int 0);
  equity = unwrap_or a.equity (int 0);
  free_margin = free_margin_of a.margin_free;
  leverage = unwrap_or a.leverage (int 0);
  trade_mode = a.trade_mode;
}

-- `bool(expected_server and str(expected_server).strip())`
unfoldable pub server_expected : Option Text → Bool
server_expected none = false
server_expected (some s) = not (is_empty (strip s))

unfoldable pub same_login : Option ℕ → ℕ → Bool
same_login none n = false
same_login (some m) n = m == n

unfoldable pub same_server : Text → Text → Bool
same_server a b = text_eq (upper (strip a)) (upper (strip b))

login_differs : Option ℕ → AccountProfile → Bool
unfolding same_login
login_differs none p = false
login_differs (some n) p = not (same_login p.login n)

server_differs : Option Text → AccountProfile → Bool
unfolding server_expected
server_differs none p = false
server_differs (some s) p = server_expected (some s) && not (same_server p.server s)

-- The reason of a mismatch; `none` is the code's (True, "").
unfoldable pub account_mismatch : Option AccountProfile → Option ℕ → Option Text → Option Message
unfolding login_differs server_differs server_expected
account_mismatch profile login server =
    if not (is_some login || server_expected server) then none else elim profile [
      | none ↦ some account_unreadable
      | some p ↦
          if login_differs login p
          then some wrong_login
          else if server_differs server p
          then some wrong_server
          else none
    ]
