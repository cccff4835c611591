-- ===== src/Risk/Engine/Assess.antt =====
-- The chain itself (app/risk/engine.py, `RiskEngine.assess`).
use mt5_trading_bot.Base.{
  ℕ, Bool, true, false, not, ◌||◌, Option, none, some, List, [], ◌∷◌, all, keep, is_none,
}
use mt5_trading_bot.Core.Settings.{Settings}
use mt5_trading_bot.Core.Message.{is_latched, Limit}
use mt5_trading_bot.Core.Signal.{Signal}
use mt5_trading_bot.Core.Account.{account_mismatch}
use mt5_trading_bot.Database.{Db}
use mt5_trading_bot.Risk.Authorization.{authorization_state, blocked}
use mt5_trading_bot.Risk.Engine.Facts.{EntryFacts, Derived, derive}
use mt5_trading_bot.Risk.Engine.Checks.{
  account_authorized, algo_enabled, known_at_most, trend_signal, momentum_confirmed,
  valid_stop_loss, valid_take_profit, risk_reward_ok, position_sizing, margin_within_capital,
  margin_level_ok, total_exposure, known_below,
}
use mt5_trading_bot.Risk.Engine.Session.{
  Faults, Session, read_session, lock_on_mismatch, read_authorization, limits_of, draws_down_now,
  lock_on_drawdown, latch_limits,
}

-- CHECK_ORDER
pub data CheckName : Type 0 where
  mt5_connected account_is_authorized account_matches_expected algo_trading_enabled : CheckName
  fresh_market_data trend momentum spread_within_limit stop_is_valid target_is_valid : CheckName
  reward sizing margin_fits margin_level exposure risk_state_available : CheckName
  one_trade loss_limits single_position symbol_position_limit no_duplicate : CheckName
  emergency_stop_clear : CheckName

pub record Check : Type 0 where
  pub name : CheckName
  pub ok : Bool

pub record Assessment : Type 0 where
  pub approved : Bool
  pub checks : List Check
  pub derived : Derived
  pub session : Session
  pub limits : List Limit

abbrev check : CheckName → Bool → Check
check name ok = record { name = name; ok = ok }

-- The list of verdicts: `s` is the session as the last check sees it, `readable` as the read left it,
-- `limits` the limits that it reached, `unblocked` the verdict on the authorization.
unfoldable pub checks_of :
    Settings → Signal → EntryFacts → Derived → Session → List Limit → Bool → List Check
checks_of settings signal facts d s limits unblocked =
    check CheckName.mt5_connected facts.connected
    ∷ check CheckName.account_is_authorized (account_authorized settings facts.account)
    ∷ check CheckName.account_matches_expected
        (is_none (account_mismatch facts.account settings.mt5_login settings.mt5_server))
    ∷ check CheckName.algo_trading_enabled (algo_enabled facts.algo_trading_enabled)
    ∷ check CheckName.fresh_market_data
        (known_at_most facts.data_age_seconds settings.market_data_max_age_seconds)
    ∷ check CheckName.trend (trend_signal settings signal)
    ∷ check CheckName.momentum (momentum_confirmed signal.action facts.momentum_action)
    ∷ check CheckName.spread_within_limit
        (known_at_most facts.spread_points settings.max_spread_points_default)
    ∷ check CheckName.stop_is_valid (valid_stop_loss facts.spec signal.action d)
    ∷ check CheckName.target_is_valid (valid_take_profit signal.action d.entry signal.take_profit)
    ∷ check CheckName.reward (risk_reward_ok settings d.risk_reward)
    ∷ check CheckName.sizing (position_sizing settings facts.spec d)
    ∷ check CheckName.margin_fits
        (margin_within_capital settings d.volume d.margin facts.free_margin)
    ∷ check CheckName.margin_level (margin_level_ok settings facts.margin_level)
    ∷ check CheckName.exposure (total_exposure settings facts.exposure facts.equity)
    ∷ check CheckName.risk_state_available s.readable
    ∷ check CheckName.one_trade unblocked
    ∷ check CheckName.loss_limits (elim limits [ [] ↦ true | _ ∷ _ ↦ false ])
    ∷ check CheckName.single_position (known_below facts.open_positions settings.max_open_positions)
    ∷ check CheckName.symbol_position_limit
        (known_below facts.symbol_positions settings.max_positions_per_symbol)
    ∷ check CheckName.no_duplicate (not facts.duplicate_exists)
    ∷ check CheckName.emergency_stop_clear
        (not (s.locked || (is_latched s.kill || not facts.trading_enabled)))
    ∷ []

abbrev pub passes : Check → Bool
passes c = c.ok

unfoldable pub failures : Assessment → List Check
failures a = keep (λ c. not c.ok) a.checks

-- The session after the read and the mismatch lock, and the store with the authorization read.
unfoldable pub before_limits :
    Settings → EntryFacts → Faults → ℕ → Option ℕ → Option Db → Session × Option Db
before_limits settings facts faults now day store =
    let (s, store') = read_session faults.read facts.emergency_locked facts.equity now day store in
    lock_on_mismatch faults.mismatch facts.account
      (account_mismatch facts.account settings.mt5_login settings.mt5_server) now day s store'

-- The latch of the limits and the verdicts, from the session as the drawdown lock leaves it.
unfoldable pub conclude :
    Settings
    → Signal
    → EntryFacts
    → Bool
    → ℕ
    → Option ℕ
    → List Limit
    → Bool
    → Session × Option Db
    → Assessment × Option Db
conclude settings signal facts latch_raises now day limits unblocked (s, store) =
    let d = derive settings signal facts in
    let (last, store') = latch_limits latch_raises limits now day s store in
    let checks = checks_of settings signal facts d last limits unblocked in
    (
      record {
        approved = all passes checks;
        checks = checks;
        derived = d;
        session = last;
        limits = limits;
      },
      store',
    )

-- The outcome, `none` where a drawdown could not be persisted and the call raises, with the tables.
unfoldable pub assess :
    Settings
    → Signal
    → EntryFacts
    → Faults
    → ℕ
    → Option ℕ
    → Option Db
    → Option (Assessment × Option Db)
unfolding before_limits
assess settings signal facts faults now day store =
    let (s, store1) = before_limits settings facts faults now day store in
    let (seen, store2) = read_authorization faults.authorization store1 in
    let limits = limits_of settings facts.equity s in
    let unblocked = not (blocked (authorization_state settings seen)) in
    elim (lock_on_drawdown faults.drawdown (draws_down_now settings facts.equity s) now day s
      store2) [
        | none ↦ none
        | some outcome ↦
            some (conclude settings signal facts faults.latch now day limits unblocked outcome)
      ]
