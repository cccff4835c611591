-- ===== src/Tests/Cycle.antt =====
-- A cycle of the market loop at concrete inputs.
use mt5_trading_bot.Base.{◌≡◌, refl, Bool, true, false, none, some, [], ◌∷◌}
use mt5_trading_bot.Num.{int, ratio}
use mt5_trading_bot.Num
use mt5_trading_bot.Core.Signal.{buy}
use mt5_trading_bot.Core.Account
use mt5_trading_bot.Risk.Sizing
use mt5_trading_bot.Risk.Engine.Session.{fine}
use mt5_trading_bot.Market.Levels
use mt5_trading_bot.Market.Scan.{ScanReplies, Gate, gates_of}
use mt5_trading_bot.Market.Cycle.{cycle}
use mt5_trading_bot.Market.Cycle.Leading.{Led, cycle-Led}
use mt5_trading_bot.Tests.Data.{
  eurusd, first_id, info, raw_account, buy_signal, demo_settings, empty_db, no_digest,
}
use mt5_trading_bot.Tests.Candidate.{around, constant_digest, printed}

-- A quiet market with one strategy that votes for a buy.
abbrev replies : ScanReplies
replies = record {
  connected = true;
  account = some raw_account;
  margin_level = none;
  lock_write = fine;
  infos = λ name. some info;
  tick = some record { bid = some (ratio 11 9); ask = some (ratio 11 9); time = some 1000 };
  news_allowed = true;
  positions = some [];
  closes = λ timeframe. some 900;
  voters = record { timeframe = b'M' ∷ b'1' ∷ b'5' ∷ []; answer = some buy_signal } ∷ [];
  by_ensemble = false;
  momentum_action = some buy;
  trade_allowed = some true;
  clock = 1000;
  around = λ s. around;
}

abbrev is_ready : Gate → Bool
is_ready (Gate.ready o) = true
is_ready (Gate.shut why) = false

-- The gates of this market are open.
opens : is_ready (gates_of demo_settings replies eurusd 1000 empty_db).0 ≡ true
unfolding gates_of Num.leb_ℚ Account.account_mismatch Account.account_profile
    Sizing.spec_from_symbol_info Sizing.positive Num.is_pos Num.ltb_ℚ Levels.tick_snapshot
opens = refl

cycle-Led_example :
    (let (result, after) =
        cycle constant_digest printed no_digest demo_settings first_id
          (λ symbol. replies)
          1000
          1000
          empty_db in
      Led constant_digest printed no_digest demo_settings first_id
        (λ symbol. replies)
        1000
        1000
        empty_db
        result
        after)
cycle-Led_example =
    cycle-Led constant_digest printed no_digest demo_settings first_id (λ symbol. replies) 1000 1000
      empty_db
