-- ===== src/Market/Cycle.antt =====
-- app/services/scheduler.py, `_cycle` and `_run_cycle`: one cycle of the loop over its symbols. What
-- is reported of a cycle, the monitoring of positions and the reconciliation at its end are left out.
pub mod Leading
use mt5_trading_bot.Base.{ℕ, Bool, true, false, ◌||◌, if◌then◌else◌, Option, List, [], ◌∷◌, any}
use mt5_trading_bot.Core.Text.{Text}
use mt5_trading_bot.Core.Settings.{Settings}
use mt5_trading_bot.Core.Signal.{Signal, TradeIntent}
use mt5_trading_bot.Database.{Db, RiskRow}
use mt5_trading_bot.Risk.State.{load}
use mt5_trading_bot.Market.Lease.{acquire}
use mt5_trading_bot.Market.Candidate.{Candidate}
use mt5_trading_bot.Market.Scan.{ScanReplies, Scan, blocked, scanned, is_raised, scan_symbol}

pub data Cycle : Type 0 where
  standby locked : Cycle
  ran : List (Text × Scan) → Cycle

abbrev pub raised_in : Scan → Bool
raised_in (blocked why) = false
raised_in (scanned made) = any (λ (x : Signal × Candidate). is_raised x.1) made

module _ (sha256 : Text → Text) (print : ℕ → Text) (digest : TradeIntent → Text)
    (settings : Settings) where
  -- The symbols one after the other; an exception ends the cycle.
  unfoldable pub scan_all : (Text → ScanReplies) → ℕ → List Text → Db → List (Text × Scan) × Db
  scan_all replies now [] db = ([], db)
  scan_all replies now (symbol ∷ rest) db =
      let (scan, db') = scan_symbol sha256 print digest settings (replies symbol) symbol now db in
      let (others, db'') = scan_all replies now rest db' in
      if raised_in scan then ((symbol, scan) ∷ [], db') else ((symbol, scan) ∷ others, db'')

  -- `_run_cycle`: a persisted lock stops it before anything is read from the terminal.
  unfoldable pub run_cycle : (Text → ScanReplies) → ℕ → ℕ → Db → Cycle × Db
  unfolding scan_all
  run_cycle replies clock now db =
      let (row, db') = load clock (Option.none) db in
      let (scans, db'') = scan_all replies now settings.symbols db' in
      if row.emergency_locked then (locked, db') else (ran scans, db'')

  -- `_cycle`: only the process that gets or keeps the lease scans.
  unfoldable pub cycle : Text → (Text → ScanReplies) → ℕ → ℕ → Db → Cycle × Db
  unfolding run_cycle
  cycle me replies clock now db =
      let (won, row) = acquire me settings.scheduler_lock_ttl_seconds now db.lease in
      let leading = record db { lease = row } in
      if won then run_cycle replies clock now leading else (standby, leading)
