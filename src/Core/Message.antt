-- ===== src/Core/Message.antt =====
-- The reasons that the program persists as a session's kill switch. The code keeps formatted text;
-- here each message is the constructor of its template, and only an operator's own text is text.
use mt5_trading_bot.Base.{Bool, true, false, Option, none, some, List, []}
use mt5_trading_bot.Core.Text.{Text, strip, is_empty}

pub data Limit : Type 0 where
  session_loss_limit daily_trade_limit daily_loss_limit drawdown_limit : Limit

pub data Message : Type 0 where
  account_unreadable wrong_login wrong_server drawdown_stop : Message
  limits_reached : List Limit → Message
  operator : Text → Message

-- `not reason.strip()`; the templates are never blank.
unfoldable pub is_blank : Message → Bool
is_blank (operator t) = is_empty (strip t)
is_blank (limits_reached []) = true
is_blank _ = false

-- `bool((reason or "").strip())`
unfoldable pub is_latched : Option Message → Bool
unfolding is_blank
is_latched none = false
is_latched (some m) = elim (is_blank m) [ true ↦ false | false ↦ true ]
