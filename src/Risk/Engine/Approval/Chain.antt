-- ===== src/Risk/Engine/Approval/Chain.antt =====
-- The verdicts of a chain that passes (app/risk/engine.py, `assess`).
use mt5_trading_bot.Base.{
  ◌≡◌, refl, Bool, true, false, not, ◌||◌, Option, none, some, List, [], ◌∷◌, arith, all, all-All,
  is_none,
}
use mt5_trading_bot.Core.Settings.{Settings}
use mt5_trading_bot.Core.Message.{is_latched, Limit}
use mt5_trading_bot.Core.Signal.{Signal}
use mt5_trading_bot.Core.Account.{account_mismatch}
use mt5_trading_bot.Risk.Engine.Facts.{EntryFacts, Derived}
use mt5_trading_bot.Risk.Engine.Checks.{
  account_authorized, algo_enabled, known_at_most, trend_signal, momentum_confirmed,
  valid_stop_loss, valid_take_profit, risk_reward_ok, position_sizing, margin_within_capital,
  margin_level_ok, total_exposure, known_below,
}
use mt5_trading_bot.Risk.Engine.Session.{Session}
use mt5_trading_bot.Risk.Engine.Assess.{checks_of, passes}

-- Every verdict of the chain, read off the list.
pub record Verdicts (settings : Settings) (signal : Signal) (facts : EntryFacts) (d : Derived)
    (s : Session) (limits : List Limit) (unblocked : Bool) : Type 0 where
  pub connected : facts.connected ≡ true
  pub authorized : account_authorized settings facts.account ≡ true
  pub matches : account_mismatch facts.account settings.mt5_login settings.mt5_server ≡ none
  pub algo : algo_enabled facts.algo_trading_enabled ≡ true
  pub fresh : known_at_most facts.data_age_seconds settings.market_data_max_age_seconds ≡ true
  pub trend : trend_signal settings signal ≡ true
  pub momentum : momentum_confirmed signal.action facts.momentum_action ≡ true
  pub spread : known_at_most facts.spread_points settings.max_spread_points_default ≡ true
  pub stop : valid_stop_loss facts.spec signal.action d ≡ true
  pub target : valid_take_profit signal.action d.entry signal.take_profit ≡ true
  pub reward : risk_reward_ok settings d.risk_reward ≡ true
  pub sizing : position_sizing settings facts.spec d ≡ true
  pub margin : margin_within_capital settings d.volume d.margin facts.free_margin ≡ true
  pub level : margin_level_ok settings facts.margin_level ≡ true
  pub exposure : total_exposure settings facts.exposure facts.equity ≡ true
  pub readable : s.readable ≡ true
  pub one_trade : unblocked ≡ true
  pub within_limits : limits ≡ []
  pub single : known_below facts.open_positions settings.max_open_positions ≡ true
  pub per_symbol : known_below facts.symbol_positions settings.max_positions_per_symbol ≡ true
  pub no_duplicate : facts.duplicate_exists ≡ false
  pub unlocked : s.locked ≡ false
  pub unlatched : is_latched s.kill ≡ false
  pub enabled : facts.trading_enabled ≡ true

eq_none : {A : Type 0} (o : Option A) → is_none o ≡ true → o ≡ none
eq_none none h = refl
eq_none (some x) h = cc

eq_false : (b : Bool) → not b ≡ true → b ≡ false
eq_false b h = ground arith

clear_parts :
    (locked latched enabled : Bool)
    → not (locked || (latched || not enabled)) ≡ true
    → (locked ≡ false) × (latched ≡ false) × (enabled ≡ true)
clear_parts locked latched enabled h = ground arith

pub checks_of-Verdicts :
    (settings : Settings) (signal : Signal) (facts : EntryFacts) (d : Derived) (s : Session)
    (limits : List Limit) (unblocked : Bool)
    → all passes (checks_of settings signal facts d s limits unblocked) ≡ true
    → Verdicts settings signal facts d s limits unblocked
unfolding checks_of
checks_of-Verdicts settings signal facts d s (l ∷ ls) unblocked h =
    let f = all-All passes (checks_of settings signal facts d s (l ∷ ls) unblocked) h in
    absurd (cc f.1.1.1.1.1.1.1.1.1.1.1.1.1.1.1.1.1.0)
checks_of-Verdicts settings signal facts d s [] unblocked h =
    let f = all-All passes (checks_of settings signal facts d s [] unblocked) h in
    record {
      connected = f.0;
      authorized = f.1.0;
      matches = eq_none _ f.1.1.0;
      algo = f.1.1.1.0;
      fresh = f.1.1.1.1.0;
      trend = f.1.1.1.1.1.0;
      momentum = f.1.1.1.1.1.1.0;
      spread = f.1.1.1.1.1.1.1.0;
      stop = f.1.1.1.1.1.1.1.1.0;
      target = f.1.1.1.1.1.1.1.1.1.0;
      reward = f.1.1.1.1.1.1.1.1.1.1.0;
      sizing = f.1.1.1.1.1.1.1.1.1.1.1.0;
      margin = f.1.1.1.1.1.1.1.1.1.1.1.1.0;
      level = f.1.1.1.1.1.1.1.1.1.1.1.1.1.0;
      exposure = f.1.1.1.1.1.1.1.1.1.1.1.1.1.1.0;
      readable = f.1.1.1.1.1.1.1.1.1.1.1.1.1.1.1.0;
      one_trade = f.1.1.1.1.1.1.1.1.1.1.1.1.1.1.1.1.0;
      within_limits = refl;
      single = f.1.1.1.1.1.1.1.1.1.1.1.1.1.1.1.1.1.1.0;
      per_symbol = f.1.1.1.1.1.1.1.1.1.1.1.1.1.1.1.1.1.1.1.0;
      no_duplicate = eq_false _ f.1.1.1.1.1.1.1.1.1.1.1.1.1.1.1.1.1.1.1.1.0;
      unlocked =
          (clear_parts s.locked (is_latched s.kill) facts.trading_enabled
            f.1.1.1.1.1.1.1.1.1.1.1.1.1.1.1.1.1.1.1.1.1.0).0;
      unlatched =
          (clear_parts s.locked (is_latched s.kill) facts.trading_enabled
            f.1.1.1.1.1.1.1.1.1.1.1.1.1.1.1.1.1.1.1.1.1.0).1;
      enabled =
          (clear_parts s.locked (is_latched s.kill) facts.trading_enabled
            f.1.1.1.1.1.1.1.1.1.1.1.1.1.1.1.1.1.1.1.1.1.0).2;
    }
