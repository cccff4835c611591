-- ===== src/Market/Candidate/Sent.antt =====
-- What stands behind an order of the market loop: the assessment and the submission together
-- (app/services/scheduler.py, `_submit_candidate`).
use mt5_trading_bot.Base.{
  ℕ, ◌≡◌, refl, sym, ap, ◌∙◌, inl, inr, true, false, Option, none, some, Option-cases, Bool-cases,
  some_inj, unwrap_or, is_some,
}
use mathlib.Core.Path.{subst}
use mt5_trading_bot.Guards.{refused, passed, neither}
use mt5_trading_bot.Num.{ℚ, int, eqb_ℚ}
use mt5_trading_bot.Core.Text.{Text}
use mt5_trading_bot.Core.Settings.{Settings}
use mt5_trading_bot.Core.Signal.{Signal, TradeIntent}
use mt5_trading_bot.Database.{Db}
use mt5_trading_bot.Risk.State.{load}
use mt5_trading_bot.Risk.Engine.Facts.{EntryFacts, Derived, derive, truthy}
use mt5_trading_bot.Risk.Engine.Assess.{Assessment, assess, conclude, before_limits}
use mt5_trading_bot.Risk.Engine.Session.{read_authorization, lock_on_drawdown, draws_down_now}
use mt5_trading_bot.Risk.Engine.Approval.{Cleared, approved-Cleared}
use mt5_trading_bot.Execution.Records.{find_trade, find_guard, find_signal}
use mt5_trading_bot.Execution.Request.{Request}
use mt5_trading_bot.Execution.Submit.{Outcome}
use mt5_trading_bot.Execution.Submit.Sent.{Justified, submit_sent}
use mt5_trading_bot.Strategies.Common.{Levels}
use mt5_trading_bot.Market.Levels.{levels}
use mt5_trading_bot.Market.Candidate.{
  SymbolContext, Surroundings, submitted, is_duplicate, final_signal, facts_of,
  duplicate_order_exists, intent_of, execute_candidate, approved_volume, assess_candidate,
  price_candidate, submit_candidate,
}
use mt5_trading_bot.Market.SignalRows.{
  signal_identity, persist_signal, with_signals, change_signal, with_levels,
}

unseen {ℓ} : {A : Type ℓ} (o : Option A) → is_some o ≡ false → o ≡ none
unseen none h = refl
unseen (some x) h = absurd (cc h)

truthy-same : (o : Option ℚ) (v : ℚ) → truthy o ≡ some v → o ≡ some v
unfolding truthy
truthy-same none v h = absurd (cc h)
truthy-same (some w) v h = (refused (eqb_ℚ w (int 0)) h).1

module _ (digest : TradeIntent → Text) (settings : Settings) (around : Surroundings)
    (c : SymbolContext) (signal : Signal) where
  -- What holds of a candidate that reached the broker as a request, on these tables at its assessment.
  pub record Traded (id : Text) (db : Db) (intent : TradeIntent) (request : Request) : Type 0 where
    pub bracket : Levels
    pub bracket_is : levels settings signal c.spec c.tick ≡ some bracket
    pub volume : ℚ
    pub intent_is : intent ≡ intent_of id (final_signal signal bracket) volume bracket.entry
    pub cleared :
        Cleared settings
          (final_signal signal bracket)
          (facts_of c false)
          (derive settings (final_signal signal bracket) (facts_of c false))
          (load around.clock none db).0
          db
    pub volume_is :
        (derive settings (final_signal signal bracket) (facts_of c false)).volume ≡ some volume
    pub no_trade : find_trade id db.trades ≡ none
    pub no_guard : find_guard id db.guards ≡ none
    pub justified : Justified settings intent around.replies request

  submitted_inj :
      {i j : TradeIntent} {o p : Outcome} → submitted i o ≡ submitted j p → (i ≡ j) × (o ≡ p)
  submitted_inj h = (cc, cc)

  execute_candidate_sent :
      (id : Text) (made intent : TradeIntent) (db : Db) (outcome : Outcome) (request : Request)
      → (execute_candidate digest settings around id made db).0 ≡ submitted intent outcome
      → outcome.sent ≡ some request
      → (intent ≡ made) × Justified settings made around.replies request
  unfolding execute_candidate
  execute_candidate_sent id made intent db outcome request h k =
      let (i, o) = submitted_inj h in
      (
        sym i,
        (submit_sent digest settings made around.replies around.rivals around.clock db request
            (rw (← o) at k)).0,
      )

  assessed-derived :
      (final : Signal) (facts : EntryFacts) (db : Db) (a : Assessment) (store : Option Db)
      → assess settings final facts around.faults around.clock none (some db) ≡ some (a, store)
      → a.derived ≡ derive settings final facts
  unfolding assess conclude
  assessed-derived final facts db a store h =
      let (s, store1) = before_limits settings facts around.faults around.clock none (some db) in
      let (seen, store2) = read_authorization around.faults.authorization store1 in
      elim (Option-cases (
        lock_on_drawdown around.faults.drawdown (draws_down_now settings facts.equity s)
          around.clock none s store2)) [
            | inl e ↦ absurd (cc (rw (e, assess) at h))
            | inr (o, e) ↦
                sym (
                  ap (λ (x : Assessment × Option Db). x.0.derived) (some_inj (rw (e, assess) at h)))
          ]

  approved-volume :
      (a : Assessment) (volume : ℚ)
      → approved_volume a ≡ some volume
      → (a.approved ≡ true) × (a.derived.volume ≡ some volume)
  unfolding approved_volume
  approved-volume a volume h =
      let (ok, h) = passed a.approved h in (ok, truthy-same a.derived.volume volume h)

  -- The tables show no order of the identity.
  not_ordered :
      (id : Text) (db : Db)
      → duplicate_order_exists id db ≡ false
      → (find_trade id db.trades ≡ none) × (find_guard id db.guards ≡ none)
  unfolding duplicate_order_exists
  not_ordered id db h =
      let (t, g) =
        neither (is_some (find_trade id db.trades)) (is_some (find_guard id db.guards)) h in
      (unseen (find_trade id db.trades) t, unseen (find_guard id db.guards) g)

  approved_facts :
      (final : Signal) (facts : EntryFacts) (db : Db) (a : Assessment) (store : Option Db)
      → assess settings final facts around.faults around.clock none (some db) ≡ some (a, store)
      → a.approved ≡ true
      → Cleared settings final facts (derive settings final facts) (load around.clock none db).0 db
  approved_facts final facts db a store h ok =
      let (db', e, k) =
        approved-Cleared settings final facts around.faults around.clock none (some db) a store h
          ok in
      subst
        (λ d.
          Cleared settings final facts (derive settings final facts) (load around.clock none d).0 d)
        (sym (some_inj e)) k

  assess_candidate-Traded :
      (id : Text) (l : Levels) (db : Db) (intent : TradeIntent) (outcome : Outcome)
      (request : Request)
      → levels settings signal c.spec c.tick ≡ some l
      → (assess_candidate digest settings around c id signal l db).0 ≡ submitted intent outcome
      → outcome.sent ≡ some request
      → Traded id db intent request
  unfolding assess_candidate facts_of
  assess_candidate-Traded id l db intent outcome request is_bracket h sent =
      let final = final_signal signal l in
      let dup = duplicate_order_exists id db in
      elim (Option-cases
        (assess settings final (facts_of c dup) around.faults around.clock none (some db))) [
          | inl e ↦ absurd (cc (rw (e, assess_candidate) at h))
          | inr ((a, store), e) ↦ elim (Option-cases (approved_volume a)) [
            | inl f ↦ absurd (cc (rw (e, f, assess_candidate) at h))
            | inr (volume, f) ↦
                let (ok, v) = approved-volume a volume f in
                let cleared = approved_facts final (facts_of c dup) db a store e ok in
                let none_yet : dup ≡ false = cleared.no_duplicate in
                let (same, justified) =
                  execute_candidate_sent id (intent_of id final volume l.entry) intent
                    (unwrap_or store db) outcome request (rw (e, f, assess_candidate) at h) sent in
                record {
                  bracket = l;
                  bracket_is = is_bracket;
                  volume = volume;
                  intent_is = same;
                  cleared =
                      subst
                        (λ b.
                          Cleared settings final (facts_of c b)
                            (derive settings final (facts_of c b)) (load around.clock none db).0 db)
                        none_yet cleared;
                  volume_is =
                      subst (λ b. (derive settings final (facts_of c b)).volume ≡ some volume)
                        none_yet
                        (ap (λ (d : Derived). d.volume)
                            (sym (assessed-derived final (facts_of c dup) db a store e))
                          ∙ v);
                  no_trade = (not_ordered id db none_yet).0;
                  no_guard = (not_ordered id db none_yet).1;
                  justified =
                      subst (λ i. Justified settings i around.replies request) (sym same) justified;
                }
          ]
        ]

  pub persist_signal-same :
      (id : Text) (candle_time : ℕ) (db : Db)
      → ((persist_signal id signal candle_time db).trades ≡ db.trades)
        × ((persist_signal id signal candle_time db).guards ≡ db.guards)
        × ((persist_signal id signal candle_time db).risk_rows ≡ db.risk_rows)
        × ((persist_signal id signal candle_time db).authorization ≡ db.authorization)
  unfolding persist_signal
  persist_signal-same id candle_time db = elim (Option-cases (find_signal id db.signals)) [
    | inl e ↦ rw (e, persist_signal) (refl, refl, refl, refl)
    | inr (row, e) ↦ rw (e, persist_signal) (refl, refl, refl, refl)
  ]

  -- A candidate whose submission reached the broker as a request was not on record, or was to be
  -- retried; its bracket is the strategy's at the market's price; the assessment that approved it
  -- found every limit of the chain kept on the tables of the call, where no trade and no guard of its
  -- identity was; the volume is the one the assessment derived; trade, key and signal carry the
  -- identity; and the request is built of an order that passed every gate of the submission.
  pub submit_candidate-Traded :
      (sha256 : Text → Text) (print : ℕ → Text) (candle_time : ℕ) (db : Db) (intent : TradeIntent)
      (outcome : Outcome) (request : Request)
      → (submit_candidate sha256 print digest settings around c signal candle_time db).0
        ≡ submitted intent outcome
      → outcome.sent ≡ some request
      → (is_duplicate settings.stale_guard_seconds
            (find_signal (signal_identity sha256 print signal candle_time) db.signals)
            c.now
          ≡ false)
        × ((seen : Db) × (seen.trades ≡ db.trades)
            × (seen.guards ≡ db.guards)
            × (seen.risk_rows ≡ db.risk_rows)
            × (seen.authorization ≡ db.authorization)
            × Traded (signal_identity sha256 print signal candle_time) seen intent request)
  unfolding submit_candidate price_candidate
  submit_candidate-Traded sha256 print candle_time db intent outcome request h sent =
      let id = signal_identity sha256 print signal candle_time in
      let (t, g, r, a) = persist_signal-same id candle_time db in
      elim (Bool-cases
        (is_duplicate settings.stale_guard_seconds (find_signal id db.signals) c.now)) [
          | inl e ↦ absurd (cc (rw (e, submit_candidate) at h))
          | inr e ↦ elim (Option-cases (levels settings signal c.spec c.tick)) [
            | inl f ↦ absurd (cc (rw (e, f, submit_candidate, price_candidate) at h))
            | inr (l, f) ↦ (
              e,
              (
                with_signals (change_signal id (with_levels l))
                    (persist_signal id signal candle_time db),
                t,
                g,
                r,
                a,
                assess_candidate-Traded id l _ intent outcome request f
                    (rw (e, f, submit_candidate, price_candidate) at h) sent,
              ),
            )
          ]
        ]
