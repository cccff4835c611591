-- ===== src/Execution/Submit/Gates.antt =====
-- What stands before every order that reaches the broker.
use mt5_trading_bot.Base.{
  ◌≡◌, refl, sym, ap, inl, inr, true, false, none, some, [], arith, Option-cases, Bool-cases,
  List-cases,
}
use mt5_trading_bot.Num.{ℚ, int, leb_ℚ}
use mt5_trading_bot.Core.Settings.{Settings, is_live, live_orders_permitted}
use mt5_trading_bot.Core.Signal.{TradeIntent}
use mt5_trading_bot.Core.Account.{
  AccountProfile, RawAccount, account_profile, account_mismatch, classified, is_real,
}
use mt5_trading_bot.Risk.Sizing.{
  SymbolSpec, spec_from_symbol_info, normalize_volume, required_margin, margin_within_free_margin,
}
use mt5_trading_bot.Execution.Validation.{validate_stops}
use mt5_trading_bot.Execution.Broker.{Replies}
use mt5_trading_bot.Execution.Submit.{
  Refusal, Order, refused, cleared, never_ordered, in_universe, account_refusal, preflight,
  leverage_of, free_of, stops_and_margin, gates,
}

-- The account that the preflight lets pass.
pub record Trusted (settings : Settings) (p : AccountProfile) : Type 0 where
  pub understood : classified p ≡ true
  pub expected : account_mismatch (some p) settings.mt5_login settings.mt5_server ≡ none
  pub permitted : is_real p ≡ true → live_orders_permitted settings ≡ true

pub record Ready (settings : Settings) (intent : TradeIntent) (replies : Replies) : Type 0 where
  pub mode : never_ordered settings.trading_mode ≡ false
  pub dual : is_live settings.trading_mode ≡ true → live_orders_permitted settings ≡ true
  pub universe : in_universe settings.symbols intent.signal.symbol ≡ true
  pub volume : leb_ℚ intent.volume (int 0) ≡ false
  pub connected : replies.connected ≡ true
  pub account :
      (p : AccountProfile) × (account_profile replies.preflight_account ≡ some p)
      × Trusted settings p

account_refusal-Trusted :
    (settings : Settings) (p : AccountProfile)
    → account_refusal settings (some p) ≡ none
    → Trusted settings p
unfolding account_refusal
account_refusal-Trusted settings p h = ground arith

account_profile-some :
    (raw : RawAccount) → (p : AccountProfile) × (account_profile (some raw) ≡ some p)
unfolding account_profile
account_profile-some raw = (_, refl)

preflight-Ready :
    (settings : Settings) (intent : TradeIntent) (replies : Replies)
    → preflight settings intent replies ≡ none
    → Ready settings intent replies
unfolding preflight
preflight-Ready settings intent replies h = elim (Option-cases replies.preflight_account) [
  | inl e ↦ absurd (ground arith)
  | inr (raw, e) ↦
      let (p, is) = account_profile-some raw in
      record {
        mode = ground arith;
        dual = λ l. ground arith;
        universe = ground arith;
        volume = ground arith;
        connected = ground arith;
        account = (p, rw e is, account_refusal-Trusted settings p (ground arith));
      }
]

-- An order that passed every gate: the preflight, a usable specification, a volume on the broker's
-- grid, valid stops and a margin that fits.
pub record Fit (settings : Settings) (intent : TradeIntent) (replies : Replies) (order : Order)
    : Type 0 where
  pub ready : Ready settings intent replies
  pub spec : spec_from_symbol_info replies.symbol_info ≡ some order.spec
  pub volume : normalize_volume (some intent.volume) order.spec ≡ some order.volume
  pub stops :
      validate_stops intent.signal.action
        (some intent.requested_price)
        intent.signal.stop_loss
        intent.signal.take_profit
        order.spec
        (some settings.min_risk_reward_ratio)
      ≡ []
  pub margin :
      margin_within_free_margin
        (required_margin order.volume order.spec intent.requested_price
          (leverage_of replies.account))
        (free_of replies.account)
        (int 0)
      ≡ true

refused_cleared : {r : Refusal} {o : Order} → refused r ≡ cleared o → ⊥
refused_cleared h = cc h

cleared_inj : {o p : Order} → cleared o ≡ cleared p → o ≡ p
cleared_inj {o} h = ap (λ g. elim g [ cleared x ↦ x | refused _ ↦ o ]) h

stops_and_margin_cleared :
    (settings : Settings) (intent : TradeIntent) (replies : Replies) (spec : SymbolSpec)
    (volume : ℚ) (order : Order)
    → stops_and_margin settings intent replies spec volume ≡ cleared order
    → (order.spec ≡ spec)
      × (order.volume ≡ volume)
      × (validate_stops intent.signal.action
            (some intent.requested_price)
            intent.signal.stop_loss
            intent.signal.take_profit
            spec
            (some settings.min_risk_reward_ratio)
          ≡ [])
      × (margin_within_free_margin
            (required_margin volume spec intent.requested_price (leverage_of replies.account))
            (free_of replies.account)
            (int 0)
          ≡ true)
unfolding stops_and_margin
stops_and_margin_cleared settings intent replies spec volume order h =
    elim (List-cases (
      validate_stops intent.signal.action (some intent.requested_price) intent.signal.stop_loss
        intent.signal.take_profit spec (some settings.min_risk_reward_ratio))) [
          | inr (x, xs, e) ↦ absurd (refused_cleared (rw (e, stops_and_margin) at h))
          | inl e ↦
              elim (Bool-cases (
                margin_within_free_margin
                  (required_margin volume spec intent.requested_price (leverage_of replies.account))
                  (free_of replies.account) (int 0))) [
                    | inr f ↦ absurd (refused_cleared (rw (e, f, stops_and_margin) at h))
                    | inl f ↦
                        let same = cleared_inj (rw (e, f, stops_and_margin) at h) in
                        (sym (ap (λ o. o.spec) same), sym (ap (λ o. o.volume) same), e, f)
                  ]
        ]

pub gates-Fit :
    (settings : Settings) (intent : TradeIntent) (replies : Replies) (order : Order)
    → gates settings intent replies ≡ cleared order
    → Fit settings intent replies order
unfolding gates
gates-Fit settings intent replies order h =
    elim (Option-cases (preflight settings intent replies)) [
      | inr (r, e) ↦ absurd (cc (rw (e, gates) at h))
      | inl e ↦ elim (Option-cases (spec_from_symbol_info replies.symbol_info)) [
        | inl f ↦ absurd (cc (rw (e, f, gates) at h))
        | inr (spec, f) ↦ elim (Option-cases (normalize_volume (some intent.volume) spec)) [
          | inl g ↦ absurd (cc (rw (e, f, g, gates) at h))
          | inr (volume, g) ↦
              let (s, v, stops, margin) =
                stops_and_margin_cleared settings intent replies spec volume order
                  (rw (e, f, g, gates) at h) in
              record {
                ready = preflight-Ready settings intent replies e;
                spec = rw s f;
                volume = rw (s, v) g;
                stops = rw s stops;
                margin = rw (s, v) margin;
              }
        ]
      ]
    ]
