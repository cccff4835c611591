-- ===== src/Tests/Data.antt =====
-- The concrete values of the tests: a demo and a live deployment on EURUSD.
use mt5_trading_bot.Base.{true, false, none, some, [], ◌∷◌}
use mt5_trading_bot.Num.{int, ratio}
use mt5_trading_bot.Core.Text.{Text}
use mt5_trading_bot.Core.Settings.{Settings, TradingMode, demo, live}
use mt5_trading_bot.Core.Signal.{Signal, TradeIntent, buy}
use mt5_trading_bot.Core.Account.{RawAccount, AccountProfile}
use mt5_trading_bot.Database.{Db}
use mt5_trading_bot.Risk.Sizing.{SymbolInfo, SymbolSpec}
use mt5_trading_bot.Risk.Engine.Facts.{EntryFacts}
use mt5_trading_bot.Risk.Engine.Session.{Faults, fine}
use mt5_trading_bot.Execution.Broker.{Replies, Position, answered, close_answered}

abbrev pub eurusd : Text
eurusd = b'E' ∷ b'U' ∷ b'R' ∷ b'U' ∷ b'S' ∷ b'D' ∷ []

abbrev pub first_id : Text
first_id = b't' ∷ b'1' ∷ []

abbrev pub ticket : Text
ticket = b'9' ∷ []

abbrev settings_in : TradingMode → Settings
settings_in mode = record {
  trading_mode = mode;
  live_trading_enabled = true;
  mt5_login = some 7;
  mt5_server = none;
  symbols = eurusd ∷ [];
  risk_per_trade_pct = int 1;
  max_daily_loss_pct = int 5;
  max_drawdown_pct = int 10;
  max_open_positions = 1;
  max_positions_per_symbol = 1;
  max_bot_capital_usd = int 1000;
  max_loss_per_trade_usd = int 10;
  max_session_loss_usd = int 20;
  max_daily_trades = 3;
  max_lots_per_position = ratio 1 1;
  min_signal_score = 60;
  max_spread_points_default = int 20;
  magic_number = 42;
  max_total_exposure_pct = int 1000;
  min_margin_level_pct = int 200;
  max_risk_per_trade_pct = int 2;
  min_risk_reward_ratio = int 1;
  ensemble_min_votes = 3;
  ensemble_min_confidence = ratio 1 1;
  scheduler_lock_ttl_seconds = 60;
  market_data_max_age_seconds = int 60;
  reconciliation_match_window_seconds = 60;
  stale_guard_seconds = 600;
}

abbrev pub demo_settings : Settings
demo_settings = settings_in demo

abbrev pub live_settings : Settings
live_settings = settings_in live

abbrev pub info : SymbolInfo
info = record {
  volume_min = some (ratio 1 99);
  volume_max = some (int 100);
  volume_step = some (ratio 1 99);
  trade_tick_value = some (int 1);
  trade_tick_value_profit = none;
  trade_tick_size = some (ratio 1 99999);
  point = some (ratio 1 99999);
  trade_stops_level = some (int 10);
  freeze_level = none;
  trade_contract_size = some (int 100000);
  margin_initial = none;
  digits = some (int 5);
  filling_mode = some (int 1);
}

abbrev pub eurusd_spec : SymbolSpec
eurusd_spec = record {
  volume_min = ratio 1 99;
  volume_max = int 100;
  volume_step = ratio 1 99;
  tick_value = int 1;
  tick_size = ratio 1 99999;
  point = ratio 1 99999;
  trade_stops_level = int 10;
  freeze_level = int 0;
  contract_size = int 100000;
  margin_per_lot = int 0;
  digits = 5;
  filling_mode = 1;
}

-- Buy at 1.1 with the stop at 1.09 and the target at 1.12.
abbrev pub buy_signal : Signal
buy_signal = record {
  action = buy;
  confidence = ratio 9 9;
  score = 80;
  symbol = eurusd;
  entry = some (ratio 11 9);
  stop_loss = some (ratio 109 99);
  take_profit = some (ratio 112 99);
  strategy = [];
  timeframe = [];
  timestamp = 1000;
}

abbrev pub intent : TradeIntent
intent = record {
  trade_id = first_id;
  signal = buy_signal;
  volume = ratio 1 99;
  requested_price = ratio 11 9;
  idempotency_key = first_id;
  signal_id = none;
}

abbrev pub raw_account : RawAccount
raw_account = record {
  login = some 7;
  server = none;
  company = none;
  currency = none;
  balance = some (int 1000);
  equity = some (int 1000);
  margin_free = some (some (int 1000));
  leverage = some (int 100);
  trade_mode = some 0;
}

abbrev pub profile : AccountProfile
profile = record {
  login = some 7;
  server = [];
  company = [];
  currency = [];
  balance = int 1000;
  equity = int 1000;
  free_margin = some (int 1000);
  leverage = int 100;
  trade_mode = some 0;
}

abbrev pub position : Position
position = record {
  ticket = some ticket;
  symbol = eurusd;
  magic = some 42;
  stop_loss = some (ratio 109 99);
  take_profit = some (ratio 112 99);
}

-- A broker that fills the order and shows the position with its levels.
abbrev pub filling_broker : Replies
filling_broker = record {
  connected = true;
  symbol_known = true;
  preflight_account = some raw_account;
  symbol_info = some info;
  account = some raw_account;
  reservation_raises = false;
  send = answered record {
    retcode = some 10009;
    order = some ticket;
    deal = some ticket;
    price = some (ratio 11 9);
  };
  filled = some (position ∷ []);
  refreshed = none;
  close = close_answered;
}

abbrev pub facts : EntryFacts
facts = record {
  spec = some eurusd_spec;
  connected = true;
  account = some profile;
  algo_trading_enabled = some true;
  data_age_seconds = some (int 1);
  momentum_action = some buy;
  spread_points = some (int 2);
  open_positions = some 0;
  symbol_positions = some 0;
  exposure = none;
  margin_level = none;
  duplicate_exists = false;
  emergency_locked = false;
  trading_enabled = true;
  free_margin = some (int 1000);
  equity = some (int 1000);
  leverage = int 100;
}

abbrev pub no_faults : Faults
no_faults = record {
  read = fine;
  mismatch = fine;
  authorization = false;
  drawdown = fine;
  latch = false;
}

abbrev pub empty_db : Db
empty_db = record {
  risk_rows = [];
  authorization = none;
  trades = [];
  guards = [];
  signals = [];
  lease = none;
  events = [];
}

-- No other process commits anything.
abbrev pub alone : Db → Db
alone db = db

abbrev pub no_digest : TradeIntent → Text
no_digest i = []
