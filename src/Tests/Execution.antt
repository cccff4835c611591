-- ===== src/Tests/Execution.antt =====
-- Validation, protection and submission at concrete inputs.
use mt5_trading_bot.Base.{
  ◌≡◌, refl, ◌≤◌, true, Option, none, some, List, [], ◌∷◌, arith, is_some, count_if, if◌then◌else◌,
}
use mt5_trading_bot.Num.{ℚ, int, ratio}
use mt5_trading_bot.Num
use mt5_trading_bot.Core.Signal.{buy}
use mt5_trading_bot.Core.Text.{Text, text_eq}
use mt5_trading_bot.Core.Settings.{live_orders_permitted}
use mt5_trading_bot.Core.Account
use mt5_trading_bot.Core.Text
use mt5_trading_bot.Core.Message
use mt5_trading_bot.Database.{Db}
use mt5_trading_bot.Risk.Sizing
use mt5_trading_bot.Risk.State
use mt5_trading_bot.Risk.Authorization
use mt5_trading_bot.Risk.Engine.Facts
use mt5_trading_bot.Risk.Engine.Checks
use mt5_trading_bot.Risk.Engine.Session
use mt5_trading_bot.Risk.Engine.Assess
use mt5_trading_bot.Risk.Engine.Approval
use mt5_trading_bot.Risk.State.OneTrade.{allowance}
use mt5_trading_bot.Execution.Broker.{Position, close_answered}
use mt5_trading_bot.Execution.Request
use mt5_trading_bot.Execution.Records
use mt5_trading_bot.Execution.Validation
use mt5_trading_bot.Execution.Validation.Geometry.{
  Sound, validate_stops-Sound, Sound-validate_stops,
}
use mt5_trading_bot.Execution.Protection.{verify_protection}
use mt5_trading_bot.Execution.Protection.Outcome.{Reported, verify_protection-Reported}
use mt5_trading_bot.Execution.Submit
use mt5_trading_bot.Execution.Submit.Sent.{Justified, submit_sent}
use mt5_trading_bot.Execution.Submit.Attempts.{Attempt, sends, sends-le-allowance}
use mt5_trading_bot.Execution.Submit.Once.{reserved}
use mt5_trading_bot.Execution.Submit.Register.{
  Run, ended, submits, Trace, taken, exec, keys_sent, keys_sent-Trace, one_order,
}
use mt5_trading_bot.Tests.Data.{
  eurusd, ticket, eurusd_spec, demo_settings, live_settings, buy_signal, intent, filling_broker,
  position, facts, no_faults, empty_db, alone, no_digest,
}

stops_pass :
    Validation.validate_stops buy
      (some (ratio 11 9))
      (some (ratio 109 99))
      (some (ratio 112 99))
      eurusd_spec
      (some (int 1))
    ≡ []
unfolding Validation.validate_stops Sizing.min_stop_distance Sizing.positive Num.is_pos Num.leb_ℚ
    Num.ltb_ℚ Num.◌*ℚ◌ Num.◌/ℚ◌ Num.inverse Num.abs Num.◌-ℚ◌ Num.◌+ℚ◌ Num.neg Num.max_ℚ
stops_pass = refl

validate_stops-Sound_example :
    (e : ℚ) × (s : ℚ) × (some (ratio 11 9) ≡ some e)
    × (some (ratio 109 99) ≡ some s)
    × Sound buy e s (some (ratio 112 99)) eurusd_spec (some (int 1))
validate_stops-Sound_example =
    validate_stops-Sound buy (some (ratio 11 9)) (some (ratio 109 99)) (some (ratio 112 99))
      eurusd_spec (some (int 1)) stops_pass

order-Sound : Sound buy (ratio 11 9) (ratio 109 99) (some (ratio 112 99)) eurusd_spec (some (int 1))
unfolding Sizing.min_stop_distance Sizing.positive Num.is_pos Num.leb_ℚ Num.ltb_ℚ Num.◌*ℚ◌ Num.◌/ℚ◌
    Num.inverse Num.abs Num.◌-ℚ◌ Num.◌+ℚ◌ Num.neg Num.max_ℚ
order-Sound = record {
  entry_positive = refl;
  stop_positive = refl;
  distance_positive = refl;
  far_enough = refl;
  sides = (refl, refl);
  pays = (refl, refl);
}

Sound-validate_stops_example :
    Validation.validate_stops buy
      (some (ratio 11 9))
      (some (ratio 109 99))
      (some (ratio 112 99))
      eurusd_spec
      (some (int 1))
    ≡ []
Sound-validate_stops_example =
    Sound-validate_stops buy (ratio 11 9) (ratio 109 99) (some (ratio 112 99)) eurusd_spec
      (some (int 1)) order-Sound

-- A position that lost its stop and is not repaired.
abbrev bare : Position
bare = record position { stop_loss = none }

verify_protection-Reported_example :
    Reported demo_settings eurusd_spec eurusd
      (ratio 109 99)
      (ratio 112 99)
      (some ticket)
      (some (bare ∷ []))
      none
      close_answered
      (verify_protection demo_settings eurusd_spec eurusd
        (some (ratio 109 99))
        (some (ratio 112 99))
        (some ticket)
        (some (bare ∷ []))
        none
        close_answered)
verify_protection-Reported_example =
    verify_protection-Reported demo_settings eurusd_spec eurusd (some (ratio 109 99))
      (some (ratio 112 99)) (some ticket) (some (bare ∷ [])) none close_answered

unfoldable get : {A : Type 0} (o : Option A) → is_some o ≡ true → (a : A) × (o ≡ some a)
get none h = absurd (cc h)
get (some a) h = (a, refl)

assessed_is_some :
    is_some (Assess.assess demo_settings buy_signal facts no_faults 100 none (some empty_db)) ≡ true
unfolding Assess.assess Session.lock_on_drawdown Session.draws_down_now Session.lock_on_mismatch
    Account.account_mismatch Session.read_session Facts.truthy Num.eqb_ℚ State.load State.find_row
    State.new_row State.latest
assessed_is_some = refl

abbrev assessed : Assess.Assessment × Option Db
assessed =
    (get (Assess.assess demo_settings buy_signal facts no_faults 100 none (some empty_db))
      assessed_is_some).0

sent_is_some :
    is_some (Submit.submit no_digest demo_settings intent filling_broker alone 100 empty_db).0.sent
    ≡ true
unfolding Submit.submit Records.find_trade Records.find_guard Submit.gates Submit.preflight
    Text.text_eq Num.leb_ℚ Account.account_profile Account.classified Account.account_mismatch
    Account.is_real Sizing.spec_from_symbol_info Sizing.positive Num.is_pos Num.ltb_ℚ
    Sizing.normalize_volume Sizing.floor_steps Num.◌/ℚ◌ Account.same_login Account.same_server
    Account.server_expected live_orders_permitted Text.strip Text.upper Records.reserve
    Request.build_request Request.idempotency_key Submit.authorize_and_send Submit.free_of
    Submit.in_universe Submit.leverage_of Submit.never_ordered Submit.send_order Validation.unusable
    Validation.validate_stops Num.abs Num.choose_even Num.eqb_ℚ Num.floor Num.inverse Num.max_ℚ
    Num.neg Num.round_half_even Num.◌*ℚ◌ Num.◌+ℚ◌ Num.◌-ℚ◌ Sizing.margin_within_free_margin
    Sizing.min_stop_distance Sizing.required_margin Sizing.round_eighth
    State.consume_one_trade_authorization State.one_trade_authorization
sent_is_some = refl

abbrev sent_request : Request.Request
sent_request =
    (get (Submit.submit no_digest demo_settings intent filling_broker alone 100 empty_db).0.sent
      sent_is_some).0

submit_sent_example :
    Justified demo_settings intent filling_broker sent_request
    × (Records.find_trade intent.trade_id empty_db.trades ≡ none)
    × (Records.find_guard (Request.idempotency_key no_digest intent) empty_db.guards ≡ none)
submit_sent_example =
    submit_sent no_digest demo_settings intent filling_broker alone 100 empty_db sent_request
      (get (Submit.submit no_digest demo_settings intent filling_broker alone 100 empty_db).0.sent
        sent_is_some).1

-- The same intent twice, in a deployment where the broker fills at once.
abbrev twice : List Attempt
twice =
    record { intent = intent; replies = filling_broker; rivals = alone; now = 100 }
    ∷ record { intent = intent; replies = filling_broker; rivals = alone; now = 101 }
    ∷ []

-- Another process submits the same intent between the checks and the reservation of the first.
abbrev race : Run
race =
    submits record { intent = intent; replies = filling_broker; now = 100 }
      (submits record { intent = intent; replies = filling_broker; now = 99 } ended ended) ended

abbrev key : Text
key = Request.idempotency_key no_digest intent

keys_sent-Trace_example :
    Trace
      (taken empty_db)
      (keys_sent no_digest demo_settings race empty_db)
      (taken (exec no_digest demo_settings race empty_db))
keys_sent-Trace_example = keys_sent-Trace no_digest demo_settings race empty_db

one_order_example :
    count_if (text_eq key) (keys_sent no_digest demo_settings race empty_db)
    ≤ (if reserved key empty_db then 0 else 1)
one_order_example = one_order no_digest demo_settings key race empty_db

permitted_live : live_orders_permitted live_settings ≡ true
unfolding live_orders_permitted
permitted_live = refl

sends-le-allowance_example : sends no_digest live_settings twice empty_db ≤ allowance empty_db
sends-le-allowance_example =
    sends-le-allowance no_digest live_settings twice empty_db permitted_live
      ((λ d. omega arith), ((λ d. omega arith), tt))
