-- ===== src/Market/Scan/Open.antt =====
-- What a scan that reached the broker rests on (app/services/scheduler.py, `_scan_symbol`).
use mt5_trading_bot.Base.{
  ℕ, ◌-◌, ◌≡◌, ◌⊎◌, refl, ap, inl, inr, keep, length, Bool, true, false, not, ◌&&◌, Option, none,
  some, List, [], ◌∷◌, All, Option-cases, Bool-cases,
}
use mt5_trading_bot.Num.{ℚ, int, leb_ℚ}
use mt5_trading_bot.Core.Text.{Text}
use mt5_trading_bot.Core.Settings.{Settings}
use mt5_trading_bot.Core.Signal.{Signal, TradeIntent}
use mt5_trading_bot.Core.Account.{RawAccount, account_profile, account_mismatch}
use mt5_trading_bot.Database.{Db}
use mt5_trading_bot.Risk.Sizing.{spec_from_symbol_info}
use mt5_trading_bot.Execution.Request.{Request}
use mt5_trading_bot.Execution.Submit.{free_of, leverage_of}
use mt5_trading_bot.Market.Levels.{tick_snapshot}
use mt5_trading_bot.Market.Candidate.{SymbolContext, Candidate, submitted}
use mt5_trading_bot.Market.SignalRows.{signal_identity}
use mt5_trading_bot.Market.Candidate.Sent.{Traded, submit_candidate-Traded}
use mt5_trading_bot.Market.Scan.{
  ScanReplies, Scan, blocked, scanned, Gate, shut, ready, Opened, market_gates, gates_of, is_raised,
  submitted_at, run_candidates, scan_symbol, scan_gated,
}
use mt5_trading_bot.Market.Votes.{
  candidates_of, managed_positions, exposure_of, spec_in, frames_ready, votes_of, no_voter,
  HeldPosition, margin_level_of, same_symbol,
}

-- Every gate of the symbol let the scan pass, and its context is what the terminal answered.
pub record Open (settings : Settings) (r : ScanReplies) (symbol : Text) (now : ℕ) (o : Opened)
    : Type 0 where
  pub is_connected : r.connected ≡ true
  pub account : RawAccount
  pub account_is : r.account ≡ some account
  pub pinned :
      account_mismatch (account_profile (some account)) settings.mt5_login settings.mt5_server
      ≡ none
  pub has_equity : account.equity ≡ some o.context.equity
  pub positive_equity : leb_ℚ o.context.equity (int 0) ≡ false
  pub spec_read : spec_from_symbol_info (r.infos symbol) ≡ some o.context.spec
  pub tick_fresh :
      tick_snapshot r.tick now settings.market_data_max_age_seconds ≡ some o.context.tick
  pub news_clear : r.news_allowed ≡ true
  pub positions : List HeldPosition
  pub positions_read : r.positions ≡ some positions
  pub exposure_known :
      exposure_of
        (spec_in symbol o.context.spec r.infos)
        (managed_positions settings.magic_number positions)
      ≡ some o.context.exposure
  pub all_counted :
      o.context.open_positions ≡ length (managed_positions settings.magic_number positions)
  pub symbol_counted :
      o.context.symbol_positions
      ≡ length (keep (same_symbol symbol) (managed_positions settings.magic_number positions))
  pub strategies : (no_voter r.voters ≡ false) ⊎ (r.by_ensemble ≡ true)
  pub algo_passed_on : o.context.algo_trading_enabled ≡ r.trade_allowed
  pub momentum_passed_on : o.context.momentum_action ≡ r.momentum_action
  pub level_passed_on : o.context.margin_level ≡ margin_level_of r.margin_level
  pub age_passed_on : o.context.data_age_seconds ≡ some (int (now - o.context.tick.time))
  pub moment_passed_on : o.context.now ≡ now
  pub profile_passed_on : o.context.profile ≡ account_profile (some account)
  pub margin_passed_on : o.context.free_margin ≡ free_of (some account)
  pub leverage_passed_on : o.context.leverage ≡ leverage_of (some account)
  pub candles_usable : frames_ready r.closes r.voters ≡ true
  pub all_voted : votes_of r.voters ≡ some o.votes

ready_inj : {a b : Opened} → Path Gate (ready a) (ready b) → a ≡ b
ready_inj h = cc

passes : (b : Bool) → not b ≡ false → b ≡ true
passes true h = refl
passes false h = absurd (cc h)

offered :
    (none_there ensemble : Bool)
    → (none_there && not ensemble) ≡ false
    → (none_there ≡ false) ⊎ (ensemble ≡ true)
offered true true h = inr refl
offered true false h = absurd (cc h)
offered false e h = inl refl

-- What the gates after the account establish, of an account and its equity.
record Priced (settings : Settings) (r : ScanReplies) (symbol : Text) (now : ℕ)
    (account : RawAccount) (equity : ℚ) (o : Opened) : Type 0 where
  pub same_equity : o.context.equity ≡ equity
  pub spec_read : spec_from_symbol_info (r.infos symbol) ≡ some o.context.spec
  pub tick_fresh :
      tick_snapshot r.tick now settings.market_data_max_age_seconds ≡ some o.context.tick
  pub news_clear : r.news_allowed ≡ true
  pub positions : List HeldPosition
  pub positions_read : r.positions ≡ some positions
  pub exposure_known :
      exposure_of
        (spec_in symbol o.context.spec r.infos)
        (managed_positions settings.magic_number positions)
      ≡ some o.context.exposure
  pub all_counted :
      o.context.open_positions ≡ length (managed_positions settings.magic_number positions)
  pub symbol_counted :
      o.context.symbol_positions
      ≡ length (keep (same_symbol symbol) (managed_positions settings.magic_number positions))
  pub strategies : (no_voter r.voters ≡ false) ⊎ (r.by_ensemble ≡ true)
  pub algo_passed_on : o.context.algo_trading_enabled ≡ r.trade_allowed
  pub momentum_passed_on : o.context.momentum_action ≡ r.momentum_action
  pub level_passed_on : o.context.margin_level ≡ margin_level_of r.margin_level
  pub age_passed_on : o.context.data_age_seconds ≡ some (int (now - o.context.tick.time))
  pub moment_passed_on : o.context.now ≡ now
  pub profile_passed_on : o.context.profile ≡ account_profile (some account)
  pub margin_passed_on : o.context.free_margin ≡ free_of (some account)
  pub leverage_passed_on : o.context.leverage ≡ leverage_of (some account)
  pub candles_usable : frames_ready r.closes r.voters ≡ true
  pub all_voted : votes_of r.voters ≡ some o.votes

market_gates-Priced :
    (settings : Settings) (r : ScanReplies) (symbol : Text) (now : ℕ) (account : RawAccount)
    (equity : ℚ) (o : Opened)
    → market_gates settings r symbol now account equity ≡ ready o
    → Priced settings r symbol now account equity o
unfolding market_gates
market_gates-Priced settings r symbol now account equity o h =
    elim (Option-cases (spec_from_symbol_info (r.infos symbol))) [
      | inl a ↦ absurd (cc (rw (a, market_gates) at h))
      | inr (spec, a) ↦
          elim (Option-cases (tick_snapshot r.tick now settings.market_data_max_age_seconds)) [
            | inl b ↦ absurd (cc (rw (a, b, market_gates) at h))
            | inr (tick, b) ↦ elim (Bool-cases r.news_allowed) [
              | inr c ↦ absurd (cc (rw (a, b, c, market_gates) at h))
              | inl c ↦ elim (Option-cases r.positions) [
                | inl d ↦ absurd (cc (rw (a, b, c, d, market_gates) at h))
                | inr (positions, d) ↦
                    elim (Option-cases (
                      exposure_of (spec_in symbol spec r.infos)
                        (managed_positions settings.magic_number positions))) [
                          | inl e ↦ absurd (cc (rw (a, b, c, d, e, market_gates) at h))
                          | inr (exposure, e) ↦
                              elim (Bool-cases (no_voter r.voters && not r.by_ensemble)) [
                                | inl f ↦ absurd (cc (rw (a, b, c, d, e, f, market_gates) at h))
                                | inr f ↦ elim (Bool-cases (frames_ready r.closes r.voters)) [
                                  | inr g ↦
                                      absurd (cc (rw (a, b, c, d, e, f, g, market_gates) at h))
                                  | inl g ↦ elim (Option-cases (votes_of r.voters)) [
                                    | inl k ↦
                                        absurd (cc (rw (a, b, c, d, e, f, g, k, market_gates) at h))
                                    | inr (votes, k) ↦
                                        rw
                                          (← ready_inj
                                            (rw (a, b, c, d, e, f, g, k, market_gates) at h))
                                          record {
                                            same_equity = refl;
                                            spec_read = a;
                                            tick_fresh = b;
                                            news_clear = c;
                                            positions = positions;
                                            positions_read = d;
                                            exposure_known = e;
                                            all_counted = refl;
                                            symbol_counted = refl;
                                            strategies =
                                                offered (no_voter r.voters) r.by_ensemble f;
                                            algo_passed_on = refl;
                                            momentum_passed_on = refl;
                                            level_passed_on = refl;
                                            age_passed_on = refl;
                                            moment_passed_on = refl;
                                            profile_passed_on = refl;
                                            margin_passed_on = refl;
                                            leverage_passed_on = refl;
                                            candles_usable = g;
                                            all_voted = k;
                                          }
                                  ]
                                ]
                              ]
                        ]
              ]
            ]
          ]
    ]

pair_inj {ℓ ℓ'} :
    {A : Type ℓ} {B : Type ℓ'} {a c : A} {b d : B} → Path (A × B) (a, b) (c, d) → (a ≡ c) × (b ≡ d)
pair_inj h = (ap (λ p. p.0) h, ap (λ p. p.1) h)

gates_of-Open :
    (settings : Settings) (r : ScanReplies) (symbol : Text) (now : ℕ) (db : Db) (o : Opened)
    → (gates_of settings r symbol now db).0 ≡ ready o
    → Open settings r symbol now o
unfolding gates_of
gates_of-Open settings r symbol now db o h = elim (Bool-cases r.connected) [
  | inr a ↦ absurd (cc (rw (a, gates_of) at h))
  | inl a ↦ elim (Option-cases r.account) [
    | inl b ↦ absurd (cc (rw (a, b, gates_of) at h))
    | inr (account, b) ↦ elim (Option-cases account.equity) [
      | inl c ↦ absurd (cc (rw (a, b, c, gates_of) at h))
      | inr (equity, c) ↦ elim (Bool-cases (leb_ℚ equity (int 0))) [
        | inl d ↦ absurd (cc (rw (a, b, c, d, gates_of) at h))
        | inr d ↦
            elim (Option-cases (
              account_mismatch (account_profile (some account)) settings.mt5_login
                settings.mt5_server)) [
                  | inr (m, e) ↦ absurd (cc (rw (a, b, c, d, e, gates_of) at h))
                  | inl e ↦
                      let p =
                        market_gates-Priced settings r symbol now account equity o
                          (rw (a, b, c, d, e, gates_of) at h) in
                      record {
                        is_connected = a;
                        account = account;
                        account_is = b;
                        pinned = e;
                        has_equity = rw p.same_equity c;
                        positive_equity = rw p.same_equity d;
                        spec_read = p.spec_read;
                        tick_fresh = p.tick_fresh;
                        news_clear = p.news_clear;
                        positions = p.positions;
                        positions_read = p.positions_read;
                        exposure_known = p.exposure_known;
                        all_counted = p.all_counted;
                        symbol_counted = p.symbol_counted;
                        strategies = p.strategies;
                        algo_passed_on = p.algo_passed_on;
                        momentum_passed_on = p.momentum_passed_on;
                        level_passed_on = p.level_passed_on;
                        age_passed_on = p.age_passed_on;
                        moment_passed_on = p.moment_passed_on;
                        profile_passed_on = p.profile_passed_on;
                        margin_passed_on = p.margin_passed_on;
                        leverage_passed_on = p.leverage_passed_on;
                        candles_usable = p.candles_usable;
                        all_voted = p.all_voted;
                      }
                ]
      ]
    ]
  ]
]

module _ (sha256 : Text → Text) (print : ℕ → Text) (digest : TradeIntent → Text)
    (settings : Settings) where
  -- What stands behind the request of a candidate, where there is one.
  abbrev TradedOr : ScanReplies → SymbolContext → Signal → TradeIntent → Option Request → Type 0
  TradedOr r c s i none = Unit
  TradedOr r c s i (some q) =
      (seen : Db) × (close : ℕ) × (r.closes s.timeframe ≡ some close)
      × Traded digest settings (r.around s) c s (signal_identity sha256 print s close) seen i q

  abbrev pub Explained : ScanReplies → SymbolContext → Signal × Candidate → Type 0
  Explained r c (s, submitted i o) = TradedOr r c s i o.sent
  Explained r c (s, _) = Unit

  traded_or :
      (r : ScanReplies) (c : SymbolContext) (s : Signal) (i : TradeIntent) (q : Option Request)
      → ((x : Request)
          → q ≡ some x
          → (seen : Db) × (close : ℕ) × (r.closes s.timeframe ≡ some close)
            × Traded digest settings
                (r.around s)
                c
                s
                (signal_identity sha256 print s close)
                seen
                i
                x)
      → TradedOr r c s i q
  traded_or r c s i none f = tt
  traded_or r c s i (some q) f = f q refl

  made-Explained :
      (r : ScanReplies) (c : SymbolContext) (s : Signal) (close : ℕ) (db : Db) (made : Candidate)
      → r.closes s.timeframe ≡ some close
      → (submitted_at sha256 print digest settings r c s close db).0 ≡ made
      → Explained r c (s, made)
  made-Explained r c s close db Candidate.already_recorded e h = tt
  made-Explained r c s close db Candidate.bad_bracket e h = tt
  made-Explained r c s close db Candidate.risk_rejected e h = tt
  made-Explained r c s close db Candidate.raised e h = tt
  made-Explained r c s close db (submitted i o) e h = traded_or r c s i o.sent (λ q k.
      let (_, x) =
        submit_candidate-Traded digest settings (r.around s) c s sha256 print close db i o q h k in
      let (seen, _, _, _, _, t) = x in (seen, close, e, t))

  run_candidates-Explained :
      (r : ScanReplies) (c : SymbolContext) (signals : List Signal) (db : Db)
      → All (Explained r c) (run_candidates sha256 print digest settings r c signals db).0
  unfolding run_candidates
  run_candidates-Explained r c [] db = tt
  run_candidates-Explained r c (s ∷ rest) db = elim (Option-cases (r.closes s.timeframe)) [
    | inl e ↦ rw (e, run_candidates) (run_candidates-Explained r c rest db)
    | inr (close, e) ↦
        let (made, db') = submitted_at sha256 print digest settings r c s close db in
        let one = made-Explained r c s close db made e refl in
        elim (Bool-cases (is_raised made)) [
          | inl f ↦ rw (e, f, run_candidates) (one, tt)
          | inr f ↦ rw (e, f, run_candidates) (one, run_candidates-Explained r c rest db')
        ]
  ]

  -- A scan that was not blocked found its gates open, and its orders are all explained.
  abbrev pub Accounted : ScanReplies → Text → ℕ → Scan → Type 0
  Accounted r symbol now (blocked why) = Unit
  Accounted r symbol now (scanned made) =
      (o : Opened) × Open settings r symbol now o × All (Explained r o.context) made

  gated-Accounted :
      (r : ScanReplies) (symbol : Text) (now : ℕ) (g : Gate) (db : Db)
      → ((o : Opened) → g ≡ ready o → Open settings r symbol now o)
      → Accounted r symbol now (scan_gated sha256 print digest settings r (g, db)).0
  gated-Accounted r symbol now (shut why) db f = tt
  gated-Accounted r symbol now (ready o) db f = (
    o,
    f o refl,
    run_candidates-Explained r o.context (candidates_of settings r.clock r.by_ensemble o.votes) db,
  )

  pub scan_symbol-Accounted :
      (r : ScanReplies) (symbol : Text) (now : ℕ) (db : Db)
      → Accounted r symbol now (scan_symbol sha256 print digest settings r symbol now db).0
  unfolding scan_symbol
  scan_symbol-Accounted r symbol now db =
      let (g, db') = gates_of settings r symbol now db in
      gated-Accounted r symbol now g db' (gates_of-Open settings r symbol now db)
