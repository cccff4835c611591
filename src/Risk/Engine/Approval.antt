-- ===== src/Risk/Engine/Approval.antt =====
-- What an approval means (app/risk/engine.py).
mod Chain
mod Persisted
pub mod Parts
use mt5_trading_bot.Base.{
  some_inj, ap, ◌∙◌, ℕ, ◌<◌, ◌≤◌, ◌≡◌, ◌⊎◌, Bool-cases, inl, inr, refl, sym, Bool, true, false, not,
  ◌&&◌, ◌||◌, leb, Option, none, some, List, [], ◌∷◌, arith, all, all-All, Option-cases, is_none,
}
use mt5_trading_bot.Num.{ℚ, int, billionth, ◌+ℚ◌, ◌-ℚ◌, ◌*ℚ◌, ◌/ℚ◌, leb_ℚ, ltb_ℚ, is_pos}
use mt5_trading_bot.Core.Settings.{Settings, live_orders_permitted}
use mt5_trading_bot.Core.Message.{is_latched, Limit}
use mt5_trading_bot.Core.Signal.{Signal, Action, buy, sell, hold, same_action}
use mt5_trading_bot.Core.Account.{AccountProfile, account_mismatch, classified, is_real}
use mt5_trading_bot.Database.{Db, RiskRow}
use mt5_trading_bot.Risk.State.{load, session_loss, one_trade_authorization, observe_equity}
use mt5_trading_bot.Risk.Sizing.{SymbolSpec}
use mt5_trading_bot.Risk.Engine.Checks.{sized_ok, within_risk}
use mt5_trading_bot.Risk.State.OneTrade.{load-authorization}
use mt5_trading_bot.Execution.Validation.{tradable}
use mt5_trading_bot.Risk.Authorization.{authorization_state, blocked}
use mt5_trading_bot.Risk.Engine.Facts.{EntryFacts, Derived, derive, truthy, exposure_pct}
use mt5_trading_bot.Risk.Engine.Checks.{
  account_authorized, algo_enabled, known_at_most, trend_signal, momentum_confirmed,
  valid_stop_loss, valid_take_profit, risk_reward_ok, position_sizing, margin_within_capital,
  margin_level_ok, total_exposure, known_below,
}
use mt5_trading_bot.Risk.Engine.Session.{
  Fault, fine, first_raises, second_raises, Faults, Session, from_row, read_session,
  lock_on_mismatch, read_authorization, limits_of, draws_down_now, lock_on_drawdown, latch_limits,
}
use mt5_trading_bot.Risk.Engine.Assess.{
  Assessment, checks_of, passes, before_limits, conclude, assess,
}
use mt5_trading_bot.Risk.Engine.Approval.Chain.{Verdicts, checks_of-Verdicts}
use mt5_trading_bot.Risk.Engine.Approval.Parts.{
  StopFits, TargetFits, stop_part, target_part, Measured, Below, ExposureFits, account_part,
  volume_part, margin_part, positions_part, trend_part, known_part, algo_part, momentum_part,
  reward_part, trade_loss_part, level_part, exposure_part,
}
use mt5_trading_bot.Risk.Engine.Approval.Persisted.{
  read_session_readable, read_session-authorization, one_trade_part, authorization_same,
  before_limits_matched, conclude_approved, assess_parts, session_part, row_part, read_session-some,
}

-- The order that an approval is given for, and the state that allows it.
pub record Cleared (settings : Settings) (signal : Signal) (facts : EntryFacts) (d : Derived)
    (row : RiskRow) (db : Db) : Type 0 where
  pub connected : facts.connected ≡ true
  pub account :
      (p : AccountProfile) × (facts.account ≡ some p)
      × (classified p ≡ true)
      × (is_real p ≡ true → live_orders_permitted settings ≡ true)
  pub matches : account_mismatch facts.account settings.mt5_login settings.mt5_server ≡ none
  pub algo : facts.algo_trading_enabled ≡ some true
  pub fresh_data : Measured facts.data_age_seconds settings.market_data_max_age_seconds
  pub spread : Measured facts.spread_points settings.max_spread_points_default
  pub tradable_side : tradable signal.action ≡ true
  pub score : settings.min_signal_score ≤ signal.score
  pub risk_setting : leb_ℚ settings.risk_per_trade_pct settings.max_risk_per_trade_pct ≡ true
  pub momentum :
      (m : Action) × (facts.momentum_action ≡ some m) × ((m ≡ hold) ⊎ (m ≡ signal.action))
  pub reward :
      (w : ℚ) × (d.risk_reward ≡ some w)
      × (leb_ℚ (settings.min_risk_reward_ratio -ℚ billionth) w ≡ true)
  pub trade_loss :
      (w : ℚ) → d.risk_usd ≡ some w → leb_ℚ w (settings.max_loss_per_trade_usd +ℚ billionth) ≡ true
  pub stop : StopFits facts.spec signal.action d
  pub target : TargetFits signal.action d.entry signal.take_profit
  pub volume :
      (v : ℚ) × (d.volume ≡ some v) × (leb_ℚ v (settings.max_lots_per_position +ℚ billionth) ≡ true)
  pub margin :
      (m : ℚ) × (f : ℚ) × (d.margin ≡ some m)
      × (facts.free_margin ≡ some f)
      × (leb_ℚ m (settings.max_bot_capital_usd +ℚ billionth) ≡ true)
      × (leb_ℚ m (f +ℚ billionth) ≡ true)
  pub margin_level :
      (l : ℚ) → facts.margin_level ≡ some l → leb_ℚ settings.min_margin_level_pct l ≡ true
  pub exposure : ExposureFits settings facts.exposure facts.equity
  pub positions : Below facts.open_positions settings.max_open_positions
  pub symbol_positions : Below facts.symbol_positions settings.max_positions_per_symbol
  pub enabled : facts.trading_enabled ≡ true
  pub no_duplicate : facts.duplicate_exists ≡ false
  pub unlocked : row.emergency_locked ≡ false
  pub unlatched : is_latched row.kill_switch_reason ≡ false
  pub allowance_left : row.trades_opened < settings.max_daily_trades
  pub loss_left :
      (leb_ℚ (settings.max_session_loss_usd -ℚ billionth) (session_loss row)
        && is_pos (session_loss row))
      ≡ false
  pub day_loss_left :
      (e : ℚ)
      → truthy facts.equity ≡ some e
      → leb_ℚ (e *ℚ settings.max_daily_loss_pct /ℚ int 100) (session_loss row) ≡ false
  pub no_drawdown :
      (e p : ℚ)
      → truthy facts.equity ≡ some e
      → truthy row.peak_equity ≡ some p
      → is_pos p ≡ true
      → leb_ℚ settings.max_drawdown_pct ((p -ℚ e) /ℚ p *ℚ int 100) ≡ false
  pub one_trade :
      live_orders_permitted settings ≡ true → (one_trade_authorization db).0.consumed ≡ false

module _ (settings : Settings) (signal : Signal) (facts : EntryFacts) (faults : Faults) (now : ℕ)
    (day : Option ℕ) where
  abbrev reading : Option Db → Session × Option Db
  reading store = read_session faults.read facts.emergency_locked facts.equity now day store

  Verdicts-Cleared :
      (store : Option Db) (s last : Session) (limits : List Limit) (unblocked : Bool)
      → Verdicts settings signal facts (derive settings signal facts) last limits unblocked
      → last ≡ s
      → s ≡ (reading store).0
      → s.readable ≡ true
      → leb settings.max_daily_trades s.trades ≡ false
      → (leb_ℚ (settings.max_session_loss_usd -ℚ billionth) s.loss && is_pos s.loss) ≡ false
      → ((e : ℚ)
          → truthy facts.equity ≡ some e
          → leb_ℚ (e *ℚ settings.max_daily_loss_pct /ℚ int 100) s.loss ≡ false)
      → ((e p : ℚ)
          → truthy facts.equity ≡ some e
          → truthy s.peak ≡ some p
          → is_pos p ≡ true
          → leb_ℚ settings.max_drawdown_pct ((p -ℚ e) /ℚ p *ℚ int 100) ≡ false)
      → ((db : Db)
          → (reading store).1 ≡ some db
          → live_orders_permitted settings ≡ true
          → (one_trade_authorization db).0.consumed ≡ false)
      → (db : Db) × (store ≡ some db)
        × Cleared settings signal facts (derive settings signal facts) (load now day db).0 db
  Verdicts-Cleared store s last limits unblocked v is read was trades loss daily drawn one =
      let (db, e, from) =
        read_session_readable faults.read facts.emergency_locked facts.equity now day store
          (rw (← read) was) in
      let row : RiskRow = (load now day db).0 in
      let s_row : s ≡ from_row true facts.emergency_locked row = read ∙ from in
      let (side, score, risk) = trend_part settings signal v.trend in
      let (unlocked, unlatched) =
        row_part s facts.emergency_locked row s_row (rw (← is) v.unlocked)
          (rw (← is) v.unlatched) in
      let (db', there) =
        read_session-some faults.read facts.emergency_locked facts.equity now day db in
      (
        db,
        e,
        record {
          connected = v.connected;
          account = account_part settings facts.account v.authorized;
          matches = v.matches;
          algo = algo_part facts.algo_trading_enabled v.algo;
          fresh_data = known_part facts.data_age_seconds _ v.fresh;
          spread = known_part facts.spread_points _ v.spread;
          tradable_side = side;
          score = score;
          risk_setting = risk;
          momentum = momentum_part signal.action facts.momentum_action side v.momentum;
          reward = reward_part settings (derive settings signal facts).risk_reward v.reward;
          trade_loss = trade_loss_part settings facts.spec (derive settings signal facts) v.sizing;
          stop = stop_part facts.spec signal.action (derive settings signal facts) v.stop;
          target = target_part signal.action _ signal.take_profit side v.target;
          volume = volume_part settings facts.spec (derive settings signal facts) v.sizing;
          margin = margin_part settings _ _ facts.free_margin v.margin;
          positions = positions_part facts.open_positions settings.max_open_positions v.single;
          margin_level = level_part settings facts.margin_level v.level;
          exposure = exposure_part settings facts.exposure facts.equity v.exposure;
          symbol_positions =
              positions_part facts.symbol_positions settings.max_positions_per_symbol v.per_symbol;
          enabled = v.enabled;
          day_loss_left = λ q f. rw s_row at (daily q f);
          no_drawdown = λ q p f g k. drawn q p f (rw s_row g) k;
          no_duplicate = v.no_duplicate;
          unlocked = unlocked;
          unlatched = unlatched;
          allowance_left = ground arith;
          loss_left = rw s_row at loss;
          one_trade = λ p.
              rw
                (← (
                  authorization_same db db' (
                    read_session-authorization faults.read facts.emergency_locked facts.equity now
                      day db db' there)))
                (one db' (rw e there) p);
        },
      )

pub approved-Cleared :
    (settings : Settings) (signal : Signal) (facts : EntryFacts) (faults : Faults) (now : ℕ)
    (day : Option ℕ) (store : Option Db) (a : Assessment) (store' : Option Db)
    → assess settings signal facts faults now day store ≡ some (a, store')
    → a.approved ≡ true
    → (db : Db) × (store ≡ some db)
      × Cleared settings signal facts (derive settings signal facts) (load now day db).0 db
approved-Cleared settings signal facts faults now day store a store' h ok =
    let (s, store1) = before_limits settings facts faults now day store in
    let (seen, store2) = read_authorization faults.authorization store1 in
    let limits = limits_of settings facts.equity s in
    let d = derive settings signal facts in
    let (s', store3, drawn, e) =
      assess_parts settings signal facts faults now day store a store' h in
    let last : Session = (latch_limits faults.latch limits now day s' store3).0 in
    let v : Verdicts settings signal facts d last limits
        (not (blocked (authorization_state settings seen))) =
      checks_of-Verdicts settings signal facts d last limits _ (
        conclude_approved settings signal facts faults.latch now day limits _ s' store3 a store' e
          ok) in
    let same = before_limits_matched settings facts faults now day store v.matches in
    let (is, was, trades, loss, daily, fell) =
      session_part settings facts.equity faults.drawdown faults.latch now day s s' store2 store3
        drawn v.within_limits v.readable in
    Verdicts-Cleared settings signal facts faults now day store s last limits
      (not (blocked (authorization_state settings seen))) v is
      (ap (λ (p : Session × Option Db). p.0) same) was trades loss daily fell
      (λ db there p.
        one_trade_part settings faults.authorization db
          (rw (ap (λ (p : Session × Option Db). p.1) same ∙ there) at v.one_trade) p)
