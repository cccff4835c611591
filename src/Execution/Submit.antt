-- ===== src/Execution/Submit.antt =====
-- One submission (app/execution/service.py, `ExecutionService.submit`): the duplicate checks, the
-- gates, the reservations, the send and what is recorded of it. Other processes may commit between
-- the checks and the reservations; `rivals` is what they do there.
pub mod Gates
pub mod Once
pub mod Attempts
pub mod Register
pub mod Sent
use mt5_trading_bot.Base.{
  ℕ, Bool, true, false, not, ◌&&◌, ◌||◌, ◌==◌, if◌then◌else◌, Option, none, some, List, [], ◌∷◌,
  ◌++◌, any, unwrap_or,
}
use mt5_trading_bot.Num.{ℚ, int, leb_ℚ}
use mt5_trading_bot.Core.Text.{Text, text_eq}
use mt5_trading_bot.Core.Settings.{
  Settings, TradingMode, backtest, paper, is_live, live_orders_permitted,
}
use mt5_trading_bot.Core.Signal.{TradeIntent, action_name}
use mt5_trading_bot.Core.Account.{
  AccountProfile, RawAccount, account_profile, account_mismatch, classified, is_real,
}
use mt5_trading_bot.Database.{Db, TradeStatus}
use mt5_trading_bot.Risk.Sizing.{
  SymbolSpec, spec_from_symbol_info, normalize_volume, required_margin, margin_within_free_margin,
}
use mt5_trading_bot.Risk.State.{consume_one_trade_authorization}
use mt5_trading_bot.Execution.Validation.{validate_stops}
use mt5_trading_bot.Execution.Broker.{
  Replies, SendOutcome, send_raised, no_result, answered, SendResult,
}
use mt5_trading_bot.Execution.Request.{Request, build_request, idempotency_key}
use mt5_trading_bot.Execution.Records.{
  find_trade, find_guard, persist_rejection, finish, reserve, Fill, no_fill,
}
use mt5_trading_bot.Execution.Protection.{Protection, verify_protection}

-- The reasons of a rejection before the send.
pub data Refusal : Type 0 where
  non_mt5_mode dual_guard unknown_symbol no_volume mt5_unavailable no_symbol no_account : Refusal
  unverified_account wrong_account real_account bad_spec bad_volume bad_stops no_margin : Refusal
  authorization_unreadable authorization_spent : Refusal

-- `ExecutionResult` with the request that reached the broker.
pub record Outcome : Type 0 where
  pub status : TradeStatus
  pub refusal : Option Refusal
  pub ticket : Option Text
  pub sent : Option Request
  pub protection : Option Protection

abbrev without_send : TradeStatus → Option Refusal → Option Text → Outcome
without_send status refusal ticket = record {
  status = status;
  refusal = refusal;
  ticket = ticket;
  sent = none;
  protection = none;
}

unfoldable pub never_ordered : TradingMode → Bool
never_ordered backtest = true
never_ordered paper = true
never_ordered _ = false

unfoldable pub in_universe : List Text → Text → Bool
in_universe [] symbol = true
in_universe (s ∷ ss) symbol = any (text_eq symbol) (s ∷ ss)

account_refusal : Settings → Option AccountProfile → Option Refusal
account_refusal settings none = some unverified_account
account_refusal settings (some p) =
    if not (classified p)
    then some unverified_account
    else elim (account_mismatch (some p) settings.mt5_login settings.mt5_server) [
      | some _ ↦ some wrong_account
      | none ↦ if is_real p && not (live_orders_permitted settings) then some real_account else none
    ]

-- `_preflight`: mode gates, symbol universe and MT5 availability; `none` lets the order proceed.
unfoldable pub preflight : Settings → TradeIntent → Replies → Option Refusal
unfolding never_ordered in_universe account_refusal
preflight settings intent replies =
    if never_ordered settings.trading_mode
    then some non_mt5_mode
    else if is_live settings.trading_mode && not (live_orders_permitted settings)
    then some dual_guard
    else if not (in_universe settings.symbols intent.signal.symbol)
    then some unknown_symbol
    else if leb_ℚ intent.volume (int 0)
    then some no_volume
    else if not replies.connected
    then some mt5_unavailable
    else if not replies.symbol_known
    then some no_symbol
    else elim replies.preflight_account [
      | none ↦ some no_account
      | some raw ↦ account_refusal settings (account_profile (some raw))
    ]

unfoldable pub leverage_of : Option RawAccount → ℚ
leverage_of none = int 0
leverage_of (some a) = unwrap_or a.leverage (int 0)

unfoldable pub free_of : Option RawAccount → Option ℚ
free_of none = none
free_of (some a) = elim a.margin_free [ none ↦ none | some v ↦ v ]

-- What the gates between the preflight and the reservations hand on.
pub record Order : Type 0 where
  pub spec : SymbolSpec
  pub volume : ℚ
  pub stop : ℚ

pub data Gated : Type 0 where
  refused : Refusal → Gated
  cleared : Order → Gated

stops_and_margin : Settings → TradeIntent → Replies → SymbolSpec → ℚ → Gated
unfolding leverage_of free_of
stops_and_margin settings intent replies spec volume =
    let signal = intent.signal in
    let margin = required_margin volume spec intent.requested_price (leverage_of replies.account) in
    elim (validate_stops signal.action (some intent.requested_price) signal.stop_loss
      signal.take_profit spec (some settings.min_risk_reward_ratio)) [
        | _ ∷ _ ↦ refused bad_stops
        | [] ↦
            if margin_within_free_margin margin (free_of replies.account) (int 0)
            then cleared
                record { spec = spec; volume = volume; stop = unwrap_or signal.stop_loss (int 0) }
            else refused no_margin
      ]

unfoldable pub gates : Settings → TradeIntent → Replies → Gated
unfolding stops_and_margin
gates settings intent replies = elim (preflight settings intent replies) [
  | some r ↦ refused r
  | none ↦ elim (spec_from_symbol_info replies.symbol_info) [
    | none ↦ refused bad_spec
    | some spec ↦ elim (normalize_volume (some intent.volume) spec) [
      | none ↦ refused bad_volume
      | some volume ↦ stops_and_margin settings intent replies spec volume
    ]
  ]
]

-- The status of an answer: 10009 and 10010 are a fill, 10008 a pending order, no code is ambiguous.
unfoldable pub status_of : SendOutcome → TradeStatus
status_of send_raised = TradeStatus.failed
status_of no_result = TradeStatus.failed
status_of (answered r) = elim r.retcode [
  | none ↦ TradeStatus.failed
  | some code ↦
      if code == 10009 || code == 10010
      then TradeStatus.executed
      else if code == 10008
      then TradeStatus.submitted
      else TradeStatus.rejected
]

opened_at : TradeStatus → ℕ → Option ℕ
opened_at TradeStatus.executed now = some now
opened_at TradeStatus.submitted now = some now
opened_at _ now = none

fill_of : SendOutcome → ℕ → Fill
unfolding opened_at
fill_of (answered r) now = record {
  ticket = r.order;
  deal = r.deal;
  price = r.price;
  open_time = opened_at (status_of (answered r)) now;
}
fill_of _ now = no_fill

-- Only a fill is verified.
protection_of :
    TradeStatus → Settings → TradeIntent → Order → Option Text → Replies → Option Protection
protection_of TradeStatus.executed settings intent order ticket replies = some (
    verify_protection settings order.spec intent.signal.symbol intent.signal.stop_loss
      intent.signal.take_profit ticket replies.filled replies.refreshed replies.close)
protection_of _ settings intent order ticket replies = none

reject : TradeIntent → Refusal → ℕ → Db → Outcome × Db
reject intent refusal now db = (
  without_send TradeStatus.rejected (some refusal) none,
  (persist_rejection intent TradeStatus.rejected now db).1,
)

-- The reservation of the key and the send.
unfoldable pub send_order : Settings → TradeIntent → Replies → Text → Order → ℕ → Db → Outcome × Db
unfolding fill_of protection_of status_of
send_order settings intent replies key order now db =
    let (won, db') = reserve key intent order.volume now db in
    let status = status_of replies.send in
    let fill = fill_of replies.send now in
    if won
    then (
      record {
        status = status;
        refusal = none;
        ticket = fill.ticket;
        sent = some (build_request settings intent order.spec order.volume order.stop);
        protection = protection_of status settings intent order fill.ticket replies;
      },
      (finish key intent order.volume status fill now db').1,
    )
    else (without_send TradeStatus.duplicate none none, db')

-- What is kept of the order that spends the authorization: its symbol and its side.
abbrev pub spending : TradeIntent → Text
spending intent = intent.signal.symbol ++ b' ' ∷ action_name intent.signal.action

-- `_reserve_authorization`: in live mode the single authorization is spent before the order exists.
unfoldable pub authorize_and_send :
    Settings → TradeIntent → Replies → Text → Order → ℕ → Db → Outcome × Db
unfolding reject send_order
authorize_and_send settings intent replies key order now db =
    let (won, db') = consume_one_trade_authorization intent.trade_id (spending intent) now db in
    if not (live_orders_permitted settings)
    then send_order settings intent replies key order now db
    else if replies.reservation_raises
    then reject intent authorization_unreadable now db
    else if won
    then send_order settings intent replies key order now db'
    else reject intent authorization_spent now db'

unfoldable pub submit :
    (TradeIntent → Text) → Settings → TradeIntent → Replies → (Db → Db) → ℕ → Db → Outcome × Db
unfolding reject
submit digest settings intent replies rivals now db =
    let key = idempotency_key digest intent in
    elim (find_trade intent.trade_id db.trades) [
      | some t ↦ (without_send TradeStatus.duplicate none t.mt5_order_ticket, db)
      | none ↦ elim (find_guard key db.guards) [
        | some g ↦ (without_send TradeStatus.duplicate none g.order_ticket, db)
        | none ↦ elim (gates settings intent replies) [
          | refused r ↦ reject intent r now (rivals db)
          | cleared order ↦ authorize_and_send settings intent replies key order now (rivals db)
        ]
      ]
    ]
