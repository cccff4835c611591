-- ===== src/Risk/Engine/Approval/Parts.antt =====
-- What each verdict of the chain that passes says of the inputs (app/risk/engine.py).
use mt5_trading_bot.Base.{
  not, ◌&&◌, some_inj, ap, ℕ, ◌<◌, ◌≤◌, ◌≡◌, ◌⊎◌, Bool-cases, inl, inr, refl, Bool, true, false,
  Option, none, some, arith, Option-cases,
}
use mt5_trading_bot.Num.{ℚ, int, billionth, ◌+ℚ◌, ◌-ℚ◌, ◌*ℚ◌, ◌/ℚ◌, leb_ℚ, ltb_ℚ}
use mt5_trading_bot.Core.Settings.{Settings, live_orders_permitted}
use mt5_trading_bot.Core.Signal.{Signal, Action, buy, sell, hold, same_action}
use mt5_trading_bot.Core.Account.{AccountProfile, classified, is_real}
use mt5_trading_bot.Risk.Sizing.{SymbolSpec, min_stop_distance}
use mt5_trading_bot.Risk.Engine.Checks.{
  stop_side_ok, target_side_ok, stop_distance_ok, valid_stop_loss, valid_take_profit, sized_ok,
  within_risk,
}
use mt5_trading_bot.Execution.Validation.{tradable, price_epsilon}
use mt5_trading_bot.Risk.Engine.Facts.{Derived, exposure_pct}
use mt5_trading_bot.Risk.Engine.Checks.{
  stop_side_ok, target_side_ok, stop_distance_ok, valid_stop_loss, valid_take_profit,
  account_authorized, algo_enabled, known_at_most, trend_signal, momentum_confirmed, risk_reward_ok,
  position_sizing, margin_within_capital, margin_level_ok, total_exposure, known_below,
}

-- A measured value that is at most its limit.
abbrev pub Measured : Option ℚ → ℚ → Type 0
Measured o limit = (v : ℚ) × (o ≡ some v) × (leb_ℚ v limit ≡ true)

-- A count that is known and below its limit.
abbrev pub Below : Option ℕ → ℕ → Type 0
Below o limit = (n : ℕ) × (o ≡ some n) × (n < limit)

-- Of an exposure that is given: the equity is known and positive, and the exposure is at most the
-- limit's share of it.
abbrev pub ExposureFits : Settings → Option ℚ → Option ℚ → Type 0
ExposureFits settings none equity = Unit
ExposureFits settings (some notional) equity =
    (e : ℚ) × (equity ≡ some e)
    × (leb_ℚ e (int 0) ≡ false)
    × (ltb_ℚ notional (int 0) ≡ false)
    × (leb_ℚ (notional /ℚ e *ℚ int 100) settings.max_total_exposure_pct ≡ true)

-- Below the entry for a buy, above it for a sell, by more than the tolerance.
abbrev pub StopSide : Action → ℚ → ℚ → Type 0
StopSide buy entry stop = leb_ℚ (entry -ℚ price_epsilon) stop ≡ false
StopSide sell entry stop = leb_ℚ stop (entry +ℚ price_epsilon) ≡ false
StopSide hold entry stop = ⊥

-- The other way round.
abbrev pub TargetSide : Action → ℚ → ℚ → Type 0
TargetSide buy entry target = leb_ℚ target (entry +ℚ price_epsilon) ≡ false
TargetSide sell entry target = leb_ℚ (entry -ℚ price_epsilon) target ≡ false
TargetSide hold entry target = ⊥

-- A stop that is there, on its side, and as far away as the broker asks, where it asks.
pub record StopFits (spec : Option SymbolSpec) (action : Action) (d : Derived) : Type 0 where
  pub known : SymbolSpec
  pub known_is : spec ≡ some known
  pub stop : ℚ
  pub stop_is : d.stop_loss ≡ some stop
  pub entry : ℚ
  pub entry_is : d.entry ≡ some entry
  pub positive : leb_ℚ stop (int 0) ≡ false
  pub side : StopSide action entry stop
  pub far :
      (w : ℚ)
      → d.risk_distance ≡ some w
      → ltb_ℚ (int 0) (min_stop_distance known) ≡ true
      → ltb_ℚ w (min_stop_distance known) ≡ false

-- A target that is there and on its side.
abbrev pub TargetFits : Action → Option ℚ → Option ℚ → Type 0
TargetFits action entry take =
    (t : ℚ) × (e : ℚ) × (take ≡ some t)
    × (entry ≡ some e)
    × (leb_ℚ t (int 0) ≡ false)
    × TargetSide action e t

refuted : (b : Bool) → not b ≡ true → b ≡ false
refuted b h = ground arith

both_true : (a b : Bool) → (a && b) ≡ true → (a ≡ true) × (b ≡ true)
both_true a b h = (ground arith, ground arith)

stop_side :
    (action : Action) (o : Option ℚ) (stop : ℚ)
    → stop_side_ok action o stop ≡ true
    → (e : ℚ) × (o ≡ some e) × StopSide action e stop
unfolding stop_side_ok
stop_side action none stop h = absurd (cc h)
stop_side buy (some e) stop h = (e, refl, refuted _ h)
stop_side sell (some e) stop h = (e, refl, refuted _ h)
stop_side hold (some e) stop h = absurd (cc h)

far_enough :
    (spec : SymbolSpec) (o : Option ℚ)
    → stop_distance_ok spec o ≡ true
    → (w : ℚ) → o ≡ some w
    → ltb_ℚ (int 0) (min_stop_distance spec) ≡ true
    → ltb_ℚ w (min_stop_distance spec) ≡ false
unfolding stop_distance_ok
far_enough spec none h w e m = absurd (cc e)
far_enough spec (some v) h w e m = rw (← some_inj e) (ground arith)

pub stop_part :
    (spec : Option SymbolSpec) (action : Action) (d : Derived)
    → valid_stop_loss spec action d ≡ true
    → StopFits spec action d
unfolding valid_stop_loss
stop_part none action d h = absurd (cc h)
stop_part (some spec) action d h = elim (Option-cases d.stop_loss) [
  | inl e ↦ absurd (cc (rw e at h))
  | inr (stop, e) ↦
      let (p, h) =
        both_true (not (leb_ℚ stop (int 0)))
          (stop_side_ok action d.entry stop && stop_distance_ok spec d.risk_distance) (rw e at h) in
      let (q, f) =
        both_true (stop_side_ok action d.entry stop) (stop_distance_ok spec d.risk_distance) h in
      let (entry, is, side) = stop_side action d.entry stop q in
      record {
        known = spec;
        known_is = refl;
        stop = stop;
        stop_is = e;
        entry = entry;
        entry_is = is;
        positive = refuted _ p;
        side = side;
        far = far_enough spec d.risk_distance f;
      }
]

target_side :
    (action : Action) (o : Option ℚ) (t : ℚ)
    → tradable action ≡ true
    → target_side_ok action o t ≡ true
    → (e : ℚ) × (o ≡ some e) × TargetSide action e t
unfolding target_side_ok
target_side buy none t s h = absurd (cc h)
target_side sell none t s h = absurd (cc h)
target_side hold o t s h = absurd (cc s)
target_side buy (some e) t s h = (e, refl, refuted _ h)
target_side sell (some e) t s h = (e, refl, refuted _ h)

pub target_part :
    (action : Action) (entry take : Option ℚ)
    → tradable action ≡ true
    → valid_take_profit action entry take ≡ true
    → TargetFits action entry take
unfolding valid_take_profit
target_part action entry none s h = absurd (cc h)
target_part action entry (some t) s h =
    let (p, q) = both_true (not (leb_ℚ t (int 0))) (target_side_ok action entry t) h in
    let (e, is, side) = target_side action entry t s q in (t, e, refl, is, refuted _ p, side)

pub account_part :
    (settings : Settings) (account : Option AccountProfile)
    → account_authorized settings account ≡ true
    → (p : AccountProfile) × (account ≡ some p)
      × (classified p ≡ true)
      × (is_real p ≡ true → live_orders_permitted settings ≡ true)
unfolding account_authorized
account_part settings none h = absurd (cc h)
account_part settings (some p) h = (p, refl, ground arith, λ r. ground arith)

pub volume_part :
    (settings : Settings) (spec : Option SymbolSpec) (d : Derived)
    → position_sizing settings spec d ≡ true
    → (v : ℚ) × (d.volume ≡ some v) × (leb_ℚ v (settings.max_lots_per_position +ℚ billionth) ≡ true)
unfolding position_sizing sized_ok
volume_part settings spec d h = elim (Option-cases d.volume) [
  | inl e ↦ absurd (ground arith)
  | inr (v, e) ↦ (v, e, ground arith)
]

pub margin_part :
    (settings : Settings) (volume margin free : Option ℚ)
    → margin_within_capital settings volume margin free ≡ true
    → (m : ℚ) × (f : ℚ) × (margin ≡ some m)
      × (free ≡ some f)
      × (leb_ℚ m (settings.max_bot_capital_usd +ℚ billionth) ≡ true)
      × (leb_ℚ m (f +ℚ billionth) ≡ true)
unfolding margin_within_capital
margin_part settings none margin free h = absurd (cc h)
margin_part settings (some v) none free h = absurd (cc h)
margin_part settings (some v) (some m) none h = absurd (cc h)
margin_part settings (some v) (some m) (some f) h = (m, f, refl, refl, ground arith, ground arith)

pub positions_part :
    (count : Option ℕ) (limit : ℕ)
    → known_below count limit ≡ true
    → (n : ℕ) × (count ≡ some n) × (n < limit)
unfolding known_below
positions_part none limit h = absurd (cc h)
positions_part (some n) limit h = (n, refl, ground arith)

pub trend_part :
    (settings : Settings) (signal : Signal)
    → trend_signal settings signal ≡ true
    → (tradable signal.action ≡ true)
      × (settings.min_signal_score ≤ signal.score)
      × (leb_ℚ settings.risk_per_trade_pct settings.max_risk_per_trade_pct ≡ true)
unfolding trend_signal ltb_ℚ
trend_part settings signal h = (ground arith, ground arith, ground arith)

pub known_part : (o : Option ℚ) (limit : ℚ) → known_at_most o limit ≡ true → Measured o limit
unfolding known_at_most
known_part none limit h = absurd (cc h)
known_part (some v) limit h = (v, refl, h)

pub algo_part : (o : Option Bool) → algo_enabled o ≡ true → o ≡ some true
unfolding algo_enabled
algo_part none h = absurd (cc h)
algo_part (some b) h = ap some h

same_action_eq : (a b : Action) → same_action a b ≡ true → a ≡ b
same_action_eq buy buy h = refl
same_action_eq buy sell h = absurd (cc h)
same_action_eq buy hold h = absurd (cc h)
same_action_eq sell buy h = absurd (cc h)
same_action_eq sell sell h = refl
same_action_eq sell hold h = absurd (cc h)
same_action_eq hold buy h = absurd (cc h)
same_action_eq hold sell h = absurd (cc h)
same_action_eq hold hold h = refl

pub momentum_part :
    (action : Action) (o : Option Action)
    → tradable action ≡ true
    → momentum_confirmed action o ≡ true
    → (m : Action) × (o ≡ some m) × ((m ≡ hold) ⊎ (m ≡ action))
unfolding momentum_confirmed
momentum_part action none t h = absurd (cc h)
momentum_part action (some m) t h = (
  m,
  refl,
  elim (Bool-cases (same_action m hold)) [
    | inl e ↦ inl (same_action_eq m hold e)
    | inr e ↦ inr (same_action_eq m action (rw (t, e) at h))
  ],
)

pub reward_part :
    (settings : Settings) (o : Option ℚ)
    → risk_reward_ok settings o ≡ true
    → (w : ℚ) × (o ≡ some w) × (leb_ℚ (settings.min_risk_reward_ratio -ℚ billionth) w ≡ true)
unfolding risk_reward_ok
reward_part settings none h = absurd (cc h)
reward_part settings (some w) h = (w, refl, h)

pub trade_loss_part :
    (settings : Settings) (spec : Option SymbolSpec) (d : Derived)
    → position_sizing settings spec d ≡ true
    → (w : ℚ) → d.risk_usd ≡ some w
    → leb_ℚ w (settings.max_loss_per_trade_usd +ℚ billionth) ≡ true
unfolding position_sizing sized_ok within_risk
trade_loss_part settings spec d h w e = elim (Option-cases d.volume) [
  | inl f ↦ absurd (ground arith)
  | inr (v, f) ↦ ground arith
]

pub level_part :
    (settings : Settings) (o : Option ℚ)
    → margin_level_ok settings o ≡ true
    → (l : ℚ) → o ≡ some l
    → leb_ℚ settings.min_margin_level_pct l ≡ true
unfolding margin_level_ok
level_part settings none h l e = absurd (cc e)
level_part settings (some v) h l e = rw (← some_inj e) h

pub exposure_part :
    (settings : Settings) (exposure equity : Option ℚ)
    → total_exposure settings exposure equity ≡ true
    → ExposureFits settings exposure equity
unfolding total_exposure exposure_pct known_at_most
exposure_part settings none equity h = tt
exposure_part settings (some n) none h = absurd (cc h)
exposure_part settings (some n) (some e) h = elim (Bool-cases (leb_ℚ e (int 0))) [
  | inl a ↦ absurd (cc (rw a at h))
  | inr a ↦ elim (Bool-cases (ltb_ℚ n (int 0))) [
    | inl b ↦ absurd (cc (rw (a, b) at h))
    | inr b ↦ (e, refl, a, b, rw (a, b) at h)
  ]
]
