-- ===== src/Tests/Candidate.antt =====
-- A candidate of the market loop at concrete inputs.
use mt5_trading_bot.Base.{ℕ, ◌≡◌, refl, Bool, true, false, Option, none, some, [], ◌∷◌, is_some}
use mt5_trading_bot.Num.{ℚ, int, ratio}
use mt5_trading_bot.Num
use mt5_trading_bot.Core.Signal.{buy, TradeIntent}
use mt5_trading_bot.Core.Text.{Text, strip, text_eq}
use mt5_trading_bot.Core.Settings
use mt5_trading_bot.Core.Account
use mt5_trading_bot.Core.Text
use mt5_trading_bot.Core.Message
use mt5_trading_bot.Database.{Db}
use mt5_trading_bot.Risk.Sizing
use mt5_trading_bot.Risk.State
use mt5_trading_bot.Risk.Authorization
use mt5_trading_bot.Risk.Engine.Facts
use mt5_trading_bot.Risk.Engine.Checks
use mt5_trading_bot.Risk.Engine.Session
use mt5_trading_bot.Risk.Engine.Assess
use mt5_trading_bot.Execution.Request
use mt5_trading_bot.Execution.Request.{Request}
use mt5_trading_bot.Execution.Records
use mt5_trading_bot.Execution.Validation
use mt5_trading_bot.Execution.Submit
use mt5_trading_bot.Execution.Submit.{Outcome}
use mt5_trading_bot.Market.Levels
use mt5_trading_bot.Market.Levels.Distance.{Placed, levels-Placed}
use mt5_trading_bot.Market.Candidate
use mt5_trading_bot.Market.Candidate.{
  SymbolContext, Surroundings, Candidate, submitted, submit_candidate, is_duplicate,
}
use mt5_trading_bot.Market.SignalRows
use mt5_trading_bot.Market.SignalRows.{signal_identity}
use mt5_trading_bot.Market.Candidate.Sent.{Traded, submit_candidate-Traded}
use mt5_trading_bot.Tests.Data.{
  eurusd_spec, demo_settings, buy_signal, filling_broker, profile, no_faults, empty_db, alone,
  no_digest,
}

abbrev pub context : SymbolContext
context = record {
  now = 1000;
  spec = eurusd_spec;
  tick = record { bid = ratio 11 9; ask = ratio 11 9; time = 1000 };
  equity = int 1000;
  free_margin = some (int 1000);
  leverage = int 100;
  margin_level = none;
  exposure = int 0;
  open_positions = 0;
  symbol_positions = 0;
  profile = some profile;
  algo_trading_enabled = some true;
  data_age_seconds = some (int 1);
  momentum_action = some buy;
}

abbrev pub around : Surroundings
around = record {
  clock = 1000;
  faults = no_faults;
  replies = filling_broker;
  rivals = alone;
  left_by_failure = alone;
}

abbrev pub constant_digest : Text → Text
constant_digest t = b'0' ∷ []

abbrev pub printed : ℕ → Text
printed t = []

unfoldable get : {A : Type 0} (o : Option A) → is_some o ≡ true → (a : A) × (o ≡ some a)
get none h = absurd (cc h)
get (some a) h = (a, refl)

abbrev is_sent : Candidate → Bool
is_sent (submitted i o) = is_some o.sent
is_sent _ = false

abbrev result : Candidate × Db
result =
    submit_candidate constant_digest printed no_digest demo_settings around context buy_signal 900
      empty_db

was_sent : is_sent result.0 ≡ true
unfolding submit_candidate is_duplicate signal_identity SignalRows.persist_signal
    Candidate.price_candidate SignalRows.change_signal Candidate.assess_candidate Candidate.facts_of
    Candidate.spread_points Candidate.duplicate_order_exists Candidate.execute_candidate
    SignalRows.reject_signal SignalRows.retryable Records.find_signal Levels.levels Levels.anchor
    Levels.kept_ratio Levels.anchored Levels.round_step Levels.floor_int Levels.ceil_int
    Levels.quantized State.register_trade_opened Assess.assess Session.lock_on_drawdown
    Session.draws_down_now Session.lock_on_mismatch Account.account_mismatch Session.read_session
    Facts.truthy Num.eqb_ℚ State.load State.find_row State.new_row State.latest Assess.conclude
    Assess.checks_of Checks.account_authorized Account.classified Account.is_real
    Checks.algo_enabled Checks.known_at_most Checks.trend_signal Num.ltb_ℚ Checks.momentum_confirmed
    Checks.valid_stop_loss Facts.derive Checks.stop_side_ok Num.◌-ℚ◌ Num.is_pos
    Sizing.min_stop_distance Sizing.positive Num.◌*ℚ◌ Num.max_ℚ Num.abs Account.same_login
    Account.same_server Account.server_expected Message.is_blank Message.is_latched
    Settings.live_orders_permitted Num.choose_even Num.floor Num.inverse Num.leb_ℚ Num.neg
    Num.round_half_even Num.◌+ℚ◌ Num.◌/ℚ◌ Authorization.authorization_state Authorization.blocked
    Authorization.blocked_reason Assess.before_limits Checks.known_below Checks.margin_level_ok
    Checks.margin_within_capital Checks.position_sizing Checks.risk_reward_ok Checks.sized_ok
    Checks.target_side_ok Checks.total_exposure Checks.valid_take_profit Checks.within_risk
    Session.latch_limits Session.limits_of Session.read_authorization Sizing.floor_steps
    Sizing.normalize_volume Sizing.position_risk Sizing.required_margin Sizing.risk_per_lot
    Sizing.round_eighth Sizing.size_for_loss_budget State.observe_equity
    State.one_trade_authorization State.session_loss State.update_row Submit.submit
    Records.find_trade Records.find_guard Submit.gates Submit.preflight Text.text_eq
    Account.account_profile Sizing.spec_from_symbol_info Text.strip Text.upper Records.reserve
    Request.build_request Request.idempotency_key Submit.authorize_and_send Submit.free_of
    Submit.in_universe Submit.leverage_of Submit.never_ordered Submit.send_order Validation.unusable
    Validation.validate_stops Sizing.margin_within_free_margin State.consume_one_trade_authorization
    Facts.exposure_pct
was_sent = refl

-- A candidate that was sent is a submission with a request.
unfoldable opened :
    (r : Candidate)
    → is_sent r ≡ true
    → (i : TradeIntent) × (o : Outcome) × (q : Request) × (r ≡ submitted i o) × (o.sent ≡ some q)
opened Candidate.already_recorded h = absurd (cc h)
opened Candidate.bad_bracket h = absurd (cc h)
opened Candidate.risk_rejected h = absurd (cc h)
opened Candidate.raised h = absurd (cc h)
opened (submitted i o) h = let (q, e) = get o.sent h in (i, o, q, refl, e)

abbrev the_intent : TradeIntent
the_intent = (opened result.0 was_sent).0

abbrev the_outcome : Outcome
the_outcome = (opened result.0 was_sent).1

abbrev the_request : Request
the_request = (opened result.0 was_sent).2

abbrev the_id : Text
the_id = signal_identity constant_digest printed buy_signal 900

submit_candidate-Traded_example :
    (is_duplicate demo_settings.stale_guard_seconds
        (Records.find_signal the_id empty_db.signals)
        1000
      ≡ false)
    × ((seen : Db) × (seen.trades ≡ [])
        × (seen.guards ≡ [])
        × (seen.risk_rows ≡ [])
        × (seen.authorization ≡ none)
        × Traded no_digest demo_settings around context buy_signal the_id seen the_intent
            the_request)
submit_candidate-Traded_example =
    submit_candidate-Traded no_digest demo_settings around context buy_signal constant_digest
      printed 900 empty_db the_intent the_outcome the_request (opened result.0 was_sent).3
      (opened result.0 was_sent).4

placed : is_some (Levels.levels demo_settings buy_signal eurusd_spec context.tick) ≡ true
unfolding Levels.levels Levels.anchor Levels.kept_ratio Levels.anchored Levels.round_step
    Levels.floor_int Levels.ceil_int Levels.quantized Facts.truthy Num.eqb_ℚ Num.leb_ℚ Num.ltb_ℚ
    Num.abs Num.neg Num.◌-ℚ◌ Num.◌+ℚ◌ Num.◌*ℚ◌ Num.◌/ℚ◌ Num.inverse Num.is_pos Num.round_half_even
    Num.choose_even Num.max_ℚ Sizing.min_stop_distance Sizing.positive Validation.validate_stops
placed = refl

levels-Placed_example :
    Placed demo_settings buy_signal eurusd_spec context.tick
      (get (Levels.levels demo_settings buy_signal eurusd_spec context.tick) placed).0
levels-Placed_example =
    levels-Placed demo_settings buy_signal eurusd_spec context.tick
      (get (Levels.levels demo_settings buy_signal eurusd_spec context.tick) placed).0
      (get (Levels.levels demo_settings buy_signal eurusd_spec context.tick) placed).1
