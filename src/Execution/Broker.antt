-- ===== src/Execution/Broker.antt =====
-- What the broker answers during one submission (app/mt5/gateway.py over the MetaTrader5 package,
-- which is not part of the repository): every answer is chosen by the environment.
use mt5_trading_bot.Base.{ℕ, Bool, Option, List}
use mt5_trading_bot.Num.{ℚ}
use mt5_trading_bot.Core.Text.{Text}
use mt5_trading_bot.Core.Account.{RawAccount}
use mt5_trading_bot.Risk.Sizing.{SymbolInfo}

-- An open position; an attribute that is missing is `none`.
pub record Position : Type 0 where
  pub ticket : Option Text
  pub symbol : Text
  pub magic : Option ℕ
  pub stop_loss : Option ℚ
  pub take_profit : Option ℚ

-- The result of `order_send`.
pub record SendResult : Type 0 where
  pub retcode : Option ℕ
  pub order : Option Text
  pub deal : Option Text
  pub price : Option ℚ

pub data SendOutcome : Type 0 where
  send_raised no_result : SendOutcome
  answered : SendResult → SendOutcome

pub data CloseOutcome : Type 0 where
  close_raised no_close_result close_answered : CloseOutcome

pub record Replies : Type 0 where
  -- `_preflight`
  pub connected : Bool
  pub symbol_known : Bool
  pub preflight_account : Option RawAccount
  -- `submit`
  pub symbol_info : Option SymbolInfo
  pub account : Option RawAccount
  pub reservation_raises : Bool
  pub send : SendOutcome
  -- `_verify_protection`: the positions after the fill, those after the repair, and the closing
  pub filled : Option (List Position)
  pub refreshed : Option (List Position)
  pub close : CloseOutcome
