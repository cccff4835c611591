-- ===== src/Core/Settings.antt =====
-- app/core/config.py: the settings that the modelled components read.
use mt5_trading_bot.Base.{ℕ, Bool, true, false, ◌&&◌, Option, List}
use mt5_trading_bot.Num.{ℚ}
use mt5_trading_bot.Core.Text.{Text}

pub data TradingMode : Type 0 where
  backtest paper demo live : TradingMode

pub record Settings : Type 0 where
  pub trading_mode : TradingMode
  pub live_trading_enabled : Bool
  pub mt5_login : Option ℕ
  pub mt5_server : Option Text
  pub symbols : List Text
  pub risk_per_trade_pct : ℚ
  pub max_daily_loss_pct : ℚ
  pub max_drawdown_pct : ℚ
  pub max_open_positions : ℕ
  pub max_positions_per_symbol : ℕ
  pub max_bot_capital_usd : ℚ
  pub max_loss_per_trade_usd : ℚ
  pub max_session_loss_usd : ℚ
  pub max_daily_trades : ℕ
  pub max_lots_per_position : ℚ
  pub min_signal_score : ℕ
  pub max_spread_points_default : ℚ
  pub magic_number : ℕ
  pub max_total_exposure_pct : ℚ
  pub min_margin_level_pct : ℚ
  pub max_risk_per_trade_pct : ℚ
  pub min_risk_reward_ratio : ℚ
  pub ensemble_min_votes : ℕ
  pub ensemble_min_confidence : ℚ
  pub scheduler_lock_ttl_seconds : ℕ
  pub market_data_max_age_seconds : ℚ
  pub reconciliation_match_window_seconds : ℕ
  pub stale_guard_seconds : ℕ

abbrev pub is_live : TradingMode → Bool
is_live live = true
is_live _ = false

unfoldable pub live_orders_permitted : Settings → Bool
live_orders_permitted s = is_live s.trading_mode && s.live_trading_enabled
