-- ===== src/Market/Scan.antt =====
-- app/services/scheduler.py, `_scan_symbol` and its helpers: the gates of one symbol, its votes and
-- its candidates. The terminal's answers, the news decision and the strategies' signals are given;
-- the candles of a timeframe are the moment their last bar closed, where they are usable.
pub mod Open
use mt5_trading_bot.Base.{
  ℕ, ◌+◌, ◌-◌, Bool, true, false, not, ◌&&◌, ◌||◌, ◌==◌, if◌then◌else◌, Option, none, some, List,
  [], ◌∷◌, ◌++◌, keep, length, is_some, unwrap_or,
}
use mt5_trading_bot.Num.{ℚ, int, ◌+ℚ◌, ◌*ℚ◌, abs, leb_ℚ, is_pos}
use mt5_trading_bot.Core.Text.{Text, text_eq, upper, is_empty}
use mt5_trading_bot.Core.Settings.{Settings}
use mt5_trading_bot.Core.Message.{Message}
use mt5_trading_bot.Core.Signal.{Action, Signal, TradeIntent}
use mt5_trading_bot.Core.Account.{RawAccount, account_profile, account_mismatch}
use mt5_trading_bot.Database.{Db}
use mt5_trading_bot.Risk.State.{today}
use mt5_trading_bot.Risk.Sizing.{SymbolInfo, SymbolSpec, spec_from_symbol_info}
use mt5_trading_bot.Risk.Engine.Session.{Fault, write_lock}
use mt5_trading_bot.Execution.Submit.{free_of, leverage_of}
use mt5_trading_bot.Strategies.Ensemble.{is_vote, combine}
use mt5_trading_bot.Market.Levels.{RawTick, TickSnapshot, tick_snapshot}
use mt5_trading_bot.Market.Votes.{
  HeldPosition, Voter, is_managed, managed_positions, margin_level_of, notional_of, exposure_of,
  spec_in, h4, h1, all_closed, frames_ready, votes_of, unless_hold, candidates_of, positions_in,
  no_voter, same_symbol,
}
use mt5_trading_bot.Market.Candidate.{
  SymbolContext, Surroundings, Candidate, raised, submit_candidate,
}

-- What the environment answers while one symbol is scanned.
pub record ScanReplies : Type 0 where
  pub connected : Bool
  pub account : Option RawAccount
  pub margin_level : Option ℚ
  pub lock_write : Fault
  pub infos : Text → Option SymbolInfo
  pub tick : Option RawTick
  pub news_allowed : Bool
  pub positions : Option (List HeldPosition)
  pub closes : Text → Option ℕ
  pub voters : List Voter
  pub by_ensemble : Bool
  pub momentum_action : Option Action
  pub trade_allowed : Option Bool
  pub clock : ℕ
  pub around : Signal → Surroundings

pub data Block : Type 0 where
  not_connected no_account no_equity wrong_account no_spec no_tick news_window : Block
  positions_unread exposure_unverified no_strategy no_candles strategy_raised : Block

pub data Scan : Type 0 where
  blocked : Block → Scan
  scanned : List (Signal × Candidate) → Scan

-- What the gates hand on.
pub record Opened : Type 0 where
  pub context : SymbolContext
  pub votes : List Signal

pub data Gate : Type 0 where
  shut : Block → Gate
  ready : Opened → Gate

-- The gates after the account: specification, tick, news, positions, exposure, strategies, candles and
-- votes.
unfoldable pub market_gates : Settings → ScanReplies → Text → ℕ → RawAccount → ℚ → Gate
unfolding margin_level_of exposure_of frames_ready votes_of
market_gates settings r symbol now account equity = elim (spec_from_symbol_info (r.infos symbol)) [
  | none ↦ shut no_spec
  | some spec ↦ elim (tick_snapshot r.tick now settings.market_data_max_age_seconds) [
    | none ↦ shut no_tick
    | some tick ↦ if not r.news_allowed then shut news_window else elim r.positions [
      | none ↦ shut positions_unread
      | some positions ↦
          let managed = managed_positions settings.magic_number positions in
          elim (exposure_of (spec_in symbol spec r.infos) managed) [
            | none ↦ shut exposure_unverified
            | some exposure ↦
                if no_voter r.voters && not r.by_ensemble
                then shut no_strategy
                else if not (frames_ready r.closes r.voters)
                then shut no_candles
                else elim (votes_of r.voters) [
                  | none ↦ shut strategy_raised
                  | some votes ↦ ready record {
                    context = record {
                      now = now;
                      spec = spec;
                      tick = tick;
                      equity = equity;
                      free_margin = free_of (some account);
                      leverage = leverage_of (some account);
                      margin_level = margin_level_of r.margin_level;
                      exposure = exposure;
                      open_positions = length managed;
                      symbol_positions = length (keep (same_symbol symbol) managed);
                      profile = account_profile (some account);
                      algo_trading_enabled = r.trade_allowed;
                      data_age_seconds = some (int (now - tick.time));
                      momentum_action = r.momentum_action;
                    };
                    votes = votes;
                  }
                ]
          ]
    ]
  ]
]

-- The account is not the pinned one: the lock is written, as far as the store takes it.
abbrev pub lock_out : ScanReplies → Message → ℕ → Db → Db
lock_out r reason now db = (write_lock r.lock_write reason r.clock (some (today now)) db).1

-- Connection, account, equity and identity, and then the market's gates; a wrong account is locked
-- out before anything else is read.
unfoldable pub gates_of : Settings → ScanReplies → Text → ℕ → Db → Gate × Db
unfolding market_gates
gates_of settings r symbol now db =
    if not r.connected then (shut not_connected, db) else elim r.account [
      | none ↦ (shut no_account, db)
      | some account ↦ elim account.equity [
        | none ↦ (shut no_equity, db)
        | some equity ↦
            if leb_ℚ equity (int 0)
            then (shut no_equity, db)
            else elim (account_mismatch (account_profile (some account)) settings.mt5_login
                settings.mt5_server) [
                  | some reason ↦ (shut wrong_account, lock_out r reason now db)
                  | none ↦ (market_gates settings r symbol now account equity, db)
                ]
      ]
    ]

abbrev pub is_raised : Candidate → Bool
is_raised raised = true
is_raised _ = false

module _ (sha256 : Text → Text) (print : ℕ → Text) (digest : TradeIntent → Text)
    (settings : Settings) where
  abbrev pub submitted_at : ScanReplies → SymbolContext → Signal → ℕ → Db → Candidate × Db
  submitted_at r c s close db =
      submit_candidate sha256 print digest settings (r.around s) c s close db

  -- The candidates one after the other; one whose candle time is unknown is passed over, and one
  -- that raises ends the scan.
  unfoldable pub run_candidates :
      ScanReplies → SymbolContext → List Signal → Db → List (Signal × Candidate) × Db
  run_candidates r c [] db = ([], db)
  run_candidates r c (s ∷ rest) db = elim (r.closes s.timeframe) [
    | none ↦ run_candidates r c rest db
    | some close ↦
        let (made, db') = submitted_at r c s close db in
        let (others, db'') = run_candidates r c rest db' in
        if is_raised made then ((s, made) ∷ [], db') else ((s, made) ∷ others, db'')
  ]

  abbrev pub scan_gated : ScanReplies → Gate × Db → Scan × Db
  scan_gated r (shut why, db) = (blocked why, db)
  scan_gated r (ready o, db) =
      let (made, db') =
        run_candidates r o.context (candidates_of settings r.clock r.by_ensemble o.votes) db in
      (scanned made, db')

  -- `_scan_symbol`
  unfoldable pub scan_symbol : ScanReplies → Text → ℕ → Db → Scan × Db
  unfolding gates_of run_candidates candidates_of
  scan_symbol r symbol now db = scan_gated r (gates_of settings r symbol now db)
