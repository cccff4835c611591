-- ===== src/Market/Candidate.antt =====
-- app/services/scheduler.py, `_submit_candidate`: one candidate of a scan, from its identity to its
-- order. The digest, the printed moment and the answers of the environment are given.
pub mod Sent
use mt5_trading_bot.Base.{
  ℕ, ◌-◌, Bool, true, false, not, ◌&&◌, ◌||◌, ltb, if◌then◌else◌, Option, none, some, List, [], ◌∷◌,
  ◌++◌, is_some, or_else, unwrap_or,
}
use mt5_trading_bot.Num.{ℚ, int, ◌-ℚ◌, ◌/ℚ◌, is_pos}
use mt5_trading_bot.Core.Text.{Text, text_eq, upper}
use mt5_trading_bot.Core.Settings.{Settings}
use mt5_trading_bot.Core.Signal.{Action, action_name, Signal, SignalStatus, TradeIntent}
use mt5_trading_bot.Core.Account.{AccountProfile}
use mt5_trading_bot.Database.{Db, SignalRow, TradeStatus}
use mt5_trading_bot.Risk.Sizing.{SymbolSpec}
use mt5_trading_bot.Risk.State.{register_trade_opened}
use mt5_trading_bot.Risk.Engine.Facts.{EntryFacts, truthy}
use mt5_trading_bot.Risk.Engine.Session.{Faults}
use mt5_trading_bot.Risk.Engine.Assess.{Assessment, assess}
use mt5_trading_bot.Execution.Broker.{Replies}
use mt5_trading_bot.Execution.Records.{
  find_trade, find_guard, find_signal, signal_status, is_accepted,
}
use mt5_trading_bot.Execution.Request.{first_chars}
use mt5_trading_bot.Execution.Submit.{Outcome, submit}
use mt5_trading_bot.Strategies.Common.{Levels}
use mt5_trading_bot.Market.SignalRows.{
  signal_identity, is_new, retryable, change_signal, with_signals, persisted_row, persist_signal,
  with_status, with_levels, reject_signal,
}
use mt5_trading_bot.Market.Levels.{TickSnapshot, levels}

-- `SymbolContext`, without the frames.
pub record SymbolContext : Type 0 where
  pub now : ℕ
  pub spec : SymbolSpec
  pub tick : TickSnapshot
  pub equity : ℚ
  pub free_margin : Option ℚ
  pub leverage : ℚ
  pub margin_level : Option ℚ
  pub exposure : ℚ
  pub open_positions : ℕ
  pub symbol_positions : ℕ
  pub profile : Option AccountProfile
  pub algo_trading_enabled : Option Bool
  pub data_age_seconds : Option ℚ
  pub momentum_action : Option Action

-- What the environment does in one call: the wall clock, the store's faults, the broker's answers,
-- the other processes, and what an assessment that raises leaves in the tables.
pub record Surroundings : Type 0 where
  pub clock : ℕ
  pub faults : Faults
  pub replies : Replies
  pub rivals : Db → Db
  pub left_by_failure : Db → Db

pub data Candidate : Type 0 where
  already_recorded bad_bracket risk_rejected raised : Candidate
  submitted : TradeIntent → Outcome → Candidate

-- The signal once its levels stand at the market's price.
abbrev pub final_signal : Signal → Levels → Signal
final_signal signal l = record signal {
  entry = some l.entry;
  stop_loss = some l.stop_loss;
  take_profit = some l.take_profit;
}

-- `_duplicate_order_exists`
unfoldable pub duplicate_order_exists : Text → Db → Bool
duplicate_order_exists id db =
    is_some (find_trade id db.trades) || is_some (find_guard id db.guards)

-- `TickSnapshot.spread_points`
unfoldable pub spread_points : TickSnapshot → ℚ → ℚ
spread_points tick point = if is_pos point then (tick.ask -ℚ tick.bid) /ℚ point else int 0

unfoldable pub facts_of : SymbolContext → Bool → EntryFacts
unfolding spread_points
facts_of c duplicate = record {
  spec = some c.spec;
  connected = true;
  account = c.profile;
  algo_trading_enabled = c.algo_trading_enabled;
  data_age_seconds = c.data_age_seconds;
  momentum_action = c.momentum_action;
  spread_points = some (spread_points c.tick c.spec.point);
  open_positions = some c.open_positions;
  symbol_positions = some c.symbol_positions;
  exposure = some c.exposure;
  margin_level = c.margin_level;
  duplicate_exists = duplicate;
  emergency_locked = false;
  trading_enabled = true;
  free_margin = c.free_margin;
  equity = some c.equity;
  leverage = c.leverage;
}

abbrev pub intent_of : Text → Signal → ℚ → ℚ → TradeIntent
intent_of id signal volume entry = record {
  trade_id = id;
  signal = signal;
  volume = volume;
  requested_price = entry;
  idempotency_key = id;
  signal_id = some id;
}

-- The status that a duplicate leaves the signal without.
abbrev pub completed : Outcome → SignalRow → SignalRow
completed outcome row =
    if is_new row.status
    then record row {
      status = signal_status outcome.status;
      order_ticket = or_else outcome.ticket row.order_ticket;
    }
    else row

abbrev pub counted : Outcome → ℕ → Db → Db
counted outcome clock db =
    if is_accepted outcome.status then (register_trade_opened clock none db).1 else db

-- The order of an approved candidate, and what is recorded of it.
unfoldable pub execute_candidate :
    (TradeIntent → Text) → Settings → Surroundings → Text → TradeIntent → Db → Candidate × Db
unfolding change_signal
execute_candidate digest settings around id intent db =
    let (outcome, db') =
      submit digest settings intent around.replies around.rivals around.clock db in
    (
      submitted intent outcome,
      counted outcome around.clock (with_signals (change_signal id (completed outcome)) db'),
    )

unfoldable approved_volume : Assessment → Option ℚ
unfolding truthy
approved_volume a = if a.approved then truthy a.derived.volume else none

-- The candidate once its levels are recorded.
unfoldable pub assess_candidate :
    (TradeIntent → Text)
    → Settings
    → Surroundings
    → SymbolContext
    → Text
    → Signal
    → Levels
    → Db
    → Candidate × Db
unfolding reject_signal duplicate_order_exists facts_of execute_candidate approved_volume
assess_candidate digest settings around c id signal l db =
    let final = final_signal signal l in
    elim (assess settings final (facts_of c (duplicate_order_exists id db)) around.faults
      around.clock none (some db)) [
        | none ↦ (raised, around.left_by_failure db)
        | some (decision, store) ↦ elim (approved_volume decision) [
          | none ↦ (risk_rejected, reject_signal id SignalStatus.risk_rejected (unwrap_or store db))
          | some volume ↦
              execute_candidate digest settings around id (intent_of id final volume l.entry)
                (unwrap_or store db)
        ]
      ]

unfoldable pub price_candidate :
    (TradeIntent → Text)
    → Settings
    → Surroundings
    → SymbolContext
    → Text
    → Signal
    → Db
    → Candidate × Db
unfolding reject_signal change_signal assess_candidate
price_candidate digest settings around c id signal db =
    elim (levels settings signal c.spec c.tick) [
      | none ↦ (bad_bracket, reject_signal id SignalStatus.rejected db)
      | some l ↦
          assess_candidate digest settings around c id signal l
            (with_signals (change_signal id (with_levels l)) db)
    ]

-- The signal is recorded already, and not to be retried.
unfoldable pub is_duplicate : ℕ → Option SignalRow → ℕ → Bool
unfolding retryable
is_duplicate stale_guard_seconds none now = false
is_duplicate stale_guard_seconds (some row) now = not (retryable stale_guard_seconds row now)

-- `_submit_candidate`
unfoldable pub submit_candidate :
    (Text → Text)
    → (ℕ → Text)
    → (TradeIntent → Text)
    → Settings
    → Surroundings
    → SymbolContext
    → Signal
    → ℕ
    → Db
    → Candidate × Db
unfolding is_duplicate persist_signal price_candidate signal_identity
submit_candidate sha256 print digest settings around c signal candle_time db =
    let id = signal_identity sha256 print signal candle_time in
    if is_duplicate settings.stale_guard_seconds (find_signal id db.signals) c.now
    then (already_recorded, db)
    else price_candidate digest settings around c id signal
        (persist_signal id signal candle_time db)
