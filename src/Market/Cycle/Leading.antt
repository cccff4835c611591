-- ===== src/Market/Cycle/Leading.antt =====
-- Who scans, and what a cycle that scans has sent (app/services/scheduler.py).
use mt5_trading_bot.Base.{
  ℕ, ◌≡◌, refl, sym, ap, ◌∙◌, inl, inr, true, false, Option, none, List, [], ◌∷◌, All, arith,
  Bool-cases, Option-cases,
}
use mt5_trading_bot.Core.Text.{Text}
use mt5_trading_bot.Core.Settings.{Settings}
use mt5_trading_bot.Core.Signal.{TradeIntent}
use mt5_trading_bot.Database.{Db, LockRow, RiskRow}
use mt5_trading_bot.Risk.State.{load, find_row, target_day}
use mt5_trading_bot.Market.Lease.{acquire}
use mt5_trading_bot.Market.Scan.{ScanReplies, Scan, scan_symbol}
use mt5_trading_bot.Market.Scan.Open.{Accounted, scan_symbol-Accounted}
use mt5_trading_bot.Market.Cycle.{
  Cycle, standby, locked, ran, raised_in, scan_all, run_cycle, cycle,
}

-- The tables of the orders are the same.
abbrev pub SameOrders : Db → Db → Type 0
SameOrders a b =
    (a.trades ≡ b.trades)
    × (a.guards ≡ b.guards)
    × (a.signals ≡ b.signals)
    × (a.authorization ≡ b.authorization)

load-SameOrders : (now : ℕ) (day : Option ℕ) (db : Db) → SameOrders (load now day db).1 db
unfolding load
load-SameOrders now day db = (ground arith, ground arith, ground arith, ground arith)

module _ (sha256 : Text → Text) (print : ℕ → Text) (digest : TradeIntent → Text)
    (settings : Settings) where
  abbrev pub AllAccounted : (Text → ScanReplies) → ℕ → List (Text × Scan) → Type 0
  AllAccounted replies now scans =
      All (λ (x : Text × Scan). Accounted sha256 print digest settings (replies x.0) x.0 now x.1)
        scans

  scan_all-Accounted :
      (replies : Text → ScanReplies) (now : ℕ) (symbols : List Text) (db : Db)
      → AllAccounted replies now (scan_all sha256 print digest settings replies now symbols db).0
  unfolding scan_all
  scan_all-Accounted replies now [] db = tt
  scan_all-Accounted replies now (symbol ∷ rest) db =
      let (scan, db') = scan_symbol sha256 print digest settings (replies symbol) symbol now db in
      let one = scan_symbol-Accounted sha256 print digest settings (replies symbol) symbol now db in
      elim (Bool-cases (raised_in scan)) [
        | inl e ↦ rw (e, scan_all) (one, tt)
        | inr e ↦ rw (e, scan_all) (one, scan_all-Accounted replies now rest db')
      ]

  -- What a cycle did, by its result: a standby and a locked cycle leave trades, guards, signals and
  -- the authorization alone, and the first of them did not get the lease; one that scanned has it, saw
  -- no lock, and all its scans are accounted for.
  abbrev pub Led : Text → (Text → ScanReplies) → ℕ → ℕ → Db → Cycle → Db → Type 0
  Led me replies clock now db standby after =
      ((acquire me settings.scheduler_lock_ttl_seconds now db.lease).0 ≡ false)
      × SameOrders after db
  Led me replies clock now db locked after =
      ((load clock none db).0.emergency_locked ≡ true) × SameOrders after db
  Led me replies clock now db (ran scans) after =
      ((acquire me settings.scheduler_lock_ttl_seconds now db.lease).0 ≡ true)
      × ((load clock none db).0.emergency_locked ≡ false)
      × AllAccounted replies now scans

  load-lease :
      (clock : ℕ) (day : Option ℕ) (db : Db) (row : Option LockRow)
      → (load clock day (record db { lease = row })).0 ≡ (load clock day db).0
  unfolding load
  load-lease clock day db row = elim (Option-cases (find_row (target_day clock day) db.risk_rows)) [
    | inl e ↦ rw (e, load) refl
    | inr (r, e) ↦ rw (e, load) refl
  ]

  -- Only the process that gets or keeps the lease scans, and only where no lock is persisted: in the
  -- other cycles trades, guards, signals and the authorization stay as they were. Of a cycle that
  -- scanned, each symbol was blocked, or its gates were open and each of its requests is that of a
  -- candidate which the risk chain and the submission let pass.
  pub cycle-Led :
      (me : Text) (replies : Text → ScanReplies) (clock now : ℕ) (db : Db)
      → (let (result, after) = cycle sha256 print digest settings me replies clock now db in
          Led me replies clock now db result after)
  unfolding cycle run_cycle
  cycle-Led me replies clock now db =
      let (won, row) = acquire me settings.scheduler_lock_ttl_seconds now db.lease in
      let leading = record db { lease = row } in
      elim (Bool-cases won) [
        | inr e ↦ rw (e, cycle) (e, (refl, refl, refl, refl))
        | inl e ↦ elim (Bool-cases (load clock none leading).0.emergency_locked) [
          | inl f ↦
              rw (e, f, cycle, run_cycle)
                (
                  ap (λ (x : RiskRow). x.emergency_locked) (sym (load-lease clock none db row)) ∙ f,
                  load-SameOrders clock none leading,
                )
          | inr f ↦
              rw (e, f, cycle, run_cycle)
                (
                  e,
                  ap (λ (x : RiskRow). x.emergency_locked) (sym (load-lease clock none db row)) ∙ f,
                  scan_all-Accounted replies now settings.symbols (load clock none leading).1,
                )
        ]
      ]
