-- ===== src/Strategies/Trailing/Ratchet.antt =====
-- The stop of a managed position over a run of observations (app/portfolio/manager.py).
use mt5_trading_bot.Base.{
  ◌≡◌, refl, sym, ◌⊎◌, inl, inr, Bool, Bool-cases, if◌then◌else◌, true, false, ◌||◌, none, some,
  List, [], ◌∷◌, Option-cases, some_inj, arith,
}
use mt5_trading_bot.Guards.{refused, passed, neither}
use mt5_trading_bot.Num.Sign.{is_pos-above, is_pos-dividend, is_pos-sub, sub-below, add-above}
use mt5_trading_bot.Num.Field.{is_pos-mul, is_pos_of_not_le}
use mt5_trading_bot.Num.{ℚ, int, is_pos, ◌+ℚ◌, ◌-ℚ◌, ◌*ℚ◌, ◌/ℚ◌, neg, abs, eqb_ℚ, leb_ℚ, ltb_ℚ}
use mt5_trading_bot.Num.Order.{leb_ℚ_refl, leb_ℚ_trans, ltb_ℚ→leb_ℚ}
use mt5_trading_bot.Strategies.Trailing.{
  TrailingPolicy, Holding, Observation, risk_of, progress_of, proposed_of, improves, too_small,
  proposal,
}

-- a is below b.
abbrev pub Below : ℚ → ℚ → Type 0
Below a b = ltb_ℚ a b ≡ true

-- From the old stop to the new one and on to the price: upwards for a buy, downwards for a sell.
abbrev pub Between : Bool → ℚ → ℚ → ℚ → Type 0
Between true stop proposed price = Below stop proposed × Below proposed price
Between false stop proposed price = Below price proposed × Below proposed stop

-- What the price has gained, in multiples of the distance from the open price to the stop.
abbrev pub multiple_of : Holding → ℚ → ℚ
multiple_of h price =
    if h.is_buy
    then (price -ℚ h.price_open) /ℚ abs (h.price_open -ℚ h.stop)
    else (h.price_open -ℚ price) /ℚ abs (h.price_open -ℚ h.stop)

-- What holds of a stop that is asked for.
pub record Protects (policy : TrailingPolicy) (h : Holding) (o : Observation) (proposed : ℚ)
    : Type 0 where
  pub had_stop : eqb_ℚ h.stop (int 0) ≡ false
  pub between : Between h.is_buy h.stop proposed o.price
  pub earned : ltb_ℚ (multiple_of h o.price) policy.break_even_r ≡ false
  pub level :
      (ltb_ℚ (multiple_of h o.price) policy.activate_r ≡ true) × (proposed ≡ h.price_open)
      ⊎ (ltb_ℚ (multiple_of h o.price) policy.activate_r ≡ false)
        × (proposed ≡ (
            if h.is_buy
            then o.price -ℚ o.atr *ℚ policy.atr_multiple
            else o.price +ℚ o.atr *ℚ policy.atr_multiple))
  pub material :
      ltb_ℚ (abs (proposed -ℚ h.stop) /ℚ o.point) (int policy.minimum_change_points) ≡ false

-- What came through the tests of `manage`.
record Asked (policy : TrailingPolicy) (h : Holding) (o : Observation) (proposed : ℚ) : Type 0 where
  pub had_stop : eqb_ℚ h.stop (int 0) ≡ false
  pub has_atr : leb_ℚ o.atr (int 0) ≡ false
  pub at_risk : leb_ℚ (risk_of h) (int 0) ≡ false
  pub earned : ltb_ℚ (progress_of h o.price) policy.break_even_r ≡ false
  pub is_proposed : proposed ≡ proposed_of policy h o
  pub better : improves h.is_buy proposed h.stop ≡ true
  pub material : too_small policy proposed h.stop o.point ≡ false

proposal-Asked :
    (policy : TrailingPolicy) (h : Holding) (o : Observation) (proposed : ℚ)
    → proposal policy h o ≡ some proposed
    → Asked policy h o proposed
unfolding proposal
proposal-Asked policy h o proposed e =
    let (a, e) = refused (eqb_ℚ h.stop (int 0) || leb_ℚ o.atr (int 0) || leb_ℚ o.point (int 0)) e in
    let (a, _) = neither (eqb_ℚ h.stop (int 0) || leb_ℚ o.atr (int 0)) (leb_ℚ o.point (int 0)) a in
    let (s, v) = neither (eqb_ℚ h.stop (int 0)) (leb_ℚ o.atr (int 0)) a in
    let (d, e) = refused (leb_ℚ (risk_of h) (int 0)) e in
    let (f, e) = refused (ltb_ℚ (progress_of h o.price) policy.break_even_r) e in
    let (g, e) = passed (improves h.is_buy (proposed_of policy h o) h.stop) e in
    let (m, e) = refused (too_small policy (proposed_of policy h o) h.stop o.point) e in
    let p = some_inj e in
    record {
      had_stop = s;
      has_atr = v;
      at_risk = d;
      earned = f;
      is_proposed = sym p;
      better = rw (← p) g;
      material = rw (← p) m;
    }

-- The price has moved in favour of the position.
abbrev Gained : Bool → ℚ → ℚ → Type 0
Gained true entry price = Below entry price
Gained false entry price = Below price entry

gained :
    (is_buy : Bool) (entry price risk least : ℚ)
    → is_pos risk ≡ true
    → is_pos least ≡ true
    → ltb_ℚ (if is_buy then (price -ℚ entry) /ℚ risk else (entry -ℚ price) /ℚ risk) least ≡ false
    → Gained is_buy entry price
gained true entry price risk least r l e =
    is_pos-sub price entry
      (is_pos-dividend (price -ℚ entry) risk r (is_pos-above least ((price -ℚ entry) /ℚ risk) l e))
gained false entry price risk least r l e =
    is_pos-sub entry price
      (is_pos-dividend (entry -ℚ price) risk r (is_pos-above least ((entry -ℚ price) /ℚ risk) l e))

-- Early the open price, and later the price less the distance on the position's side.
abbrev Candidates : Bool → Bool → ℚ → ℚ → ℚ → ℚ → Type 0
Candidates early is_buy entry price distance proposed =
    (early ≡ true) × (proposed ≡ entry)
    ⊎ (early ≡ false) × (proposed ≡ (if is_buy then price -ℚ distance else price +ℚ distance))

candidates :
    (policy : TrailingPolicy) (h : Holding) (o : Observation)
    → Candidates
        (ltb_ℚ (progress_of h o.price) policy.activate_r)
        h.is_buy
        h.price_open
        o.price
        (o.atr *ℚ policy.atr_multiple)
        (proposed_of policy h o)
candidates policy h o = elim (Bool-cases (ltb_ℚ (progress_of h o.price) policy.activate_r)) [
  | inl e ↦ rw e (inl (refl, refl))
  | inr e ↦ rw e (inr (refl, refl))
]

placed :
    (early is_buy : Bool) (entry stop price distance proposed : ℚ)
    → is_pos distance ≡ true
    → Gained is_buy entry price
    → improves is_buy proposed stop ≡ true
    → Candidates early is_buy entry price distance proposed
    → Between is_buy stop proposed price
placed early true entry stop price distance proposed d g b (inl (_, e)) = (b, rw e g)
placed early true entry stop price distance proposed d g b (inr (_, e)) =
    (b, rw e (sub-below price distance d))
placed early false entry stop price distance proposed d g b (inl (_, e)) = (rw e g, b)
placed early false entry stop price distance proposed d g b (inr (_, e)) =
    (rw e (add-above price distance d), b)

-- Where the break-even multiple and the distance multiple are positive: a stop that the manager
-- asks for replaces one that is there, lies strictly between it and the price, on the losing side of
-- the price, and differs from the old one by the minimum change at least; the price has gained the
-- break-even multiple of the distance from the open price to the old stop, and the new one is the
-- open price below the activation multiple and stands at the trailing distance behind the price from
-- there on.
pub proposal-Protects :
    (policy : TrailingPolicy) (h : Holding) (o : Observation) (proposed : ℚ)
    → is_pos policy.break_even_r ≡ true
    → is_pos policy.atr_multiple ≡ true
    → proposal policy h o ≡ some proposed
    → Protects policy h o proposed
proposal-Protects policy h o proposed earns trails e =
    let a = proposal-Asked policy h o proposed e in
    let distance : ℚ = o.atr *ℚ policy.atr_multiple in
    let far = is_pos-mul o.atr policy.atr_multiple (is_pos_of_not_le o.atr a.has_atr) trails in
    let moved =
      gained h.is_buy h.price_open o.price (risk_of h) policy.break_even_r
        (is_pos_of_not_le (risk_of h) a.at_risk) earns a.earned in
    let early = ltb_ℚ (progress_of h o.price) policy.activate_r in
    let either : Candidates early h.is_buy h.price_open o.price distance proposed =
      rw a.is_proposed (candidates policy h o) in
    record {
      had_stop = a.had_stop;
      between =
          placed early h.is_buy h.price_open h.stop o.price distance proposed far moved a.better
            either;
      earned = a.earned;
      level = either;
      material = a.material;
    }

-- The position after its stop was moved.
abbrev pub with_stop : Holding → ℚ → Holding
with_stop h stop = record {
  ticket = h.ticket;
  symbol = h.symbol;
  is_buy = h.is_buy;
  price_open = h.price_open;
  stop = stop;
  target = h.target;
}

-- Observations one after the other, the gateway carrying out each modification that is asked for.
unfoldable pub managed : TrailingPolicy → Holding → List Observation → Holding
managed policy h [] = h
managed policy h (o ∷ os) = elim (proposal policy h o) [
  | none ↦ managed policy h os
  | some proposed ↦ managed policy (with_stop h proposed) os
]

abbrev pub NoWorse : Bool → ℚ → ℚ → Type 0
NoWorse true new old = leb_ℚ old new ≡ true
NoWorse false new old = leb_ℚ new old ≡ true

never_worse_refl : (b : Bool) (q : ℚ) → NoWorse b q q
never_worse_refl true q = leb_ℚ_refl q
never_worse_refl false q = leb_ℚ_refl q

never_worse_trans : (b : Bool) (x y z : ℚ) → NoWorse b x y → NoWorse b y z → NoWorse b x z
never_worse_trans true x y z h k = leb_ℚ_trans z y x k h
never_worse_trans false x y z h k = leb_ℚ_trans x y z h k

improves-NoWorse : (b : Bool) (x y : ℚ) → improves b x y ≡ true → NoWorse b x y
improves-NoWorse true x y h = ltb_ℚ→leb_ℚ y x h
improves-NoWorse false x y h = ltb_ℚ→leb_ℚ x y h

-- Whatever the market does over any number of observations, the stop of a managed position never
-- moves against it: up only for a buy, down only for a sell.
pub managed-NoWorse :
    (policy : TrailingPolicy) (h : Holding) (os : List Observation)
    → NoWorse h.is_buy (managed policy h os).stop h.stop
unfolding managed
managed-NoWorse policy h [] = never_worse_refl h.is_buy h.stop
managed-NoWorse policy h (o ∷ os) = elim (Option-cases (proposal policy h o)) [
  | inl e ↦ rw (e, managed) (managed-NoWorse policy h os)
  | inr (q, e) ↦
      rw (e, managed)
        (never_worse_trans h.is_buy (managed policy (with_stop h q) os).stop q h.stop
          (managed-NoWorse policy (with_stop h q) os)
          (improves-NoWorse h.is_buy q h.stop (proposal-Asked policy h o q e).better))
]

no_risk : (q : ℚ) → leb_ℚ (abs (q -ℚ q)) (int 0) ≡ true
unfolding ◌-ℚ◌ ◌+ℚ◌ neg abs leb_ℚ
no_risk q = ground arith

-- Once the stop stands at the open price, as break-even sets it, the risk is read as 0 and the
-- manager never moves the stop again, however far the price runs and whatever the policy: the
-- trailing stage is not reached from there.
pub break_even_freezes :
    (policy : TrailingPolicy) (h : Holding) (os : List Observation)
    → managed policy (with_stop h h.price_open) os ≡ with_stop h h.price_open
unfolding managed
break_even_freezes policy h [] = refl
break_even_freezes policy h (o ∷ os) =
    elim (Option-cases (proposal policy (with_stop h h.price_open) o)) [
      | inl e ↦ rw (e, managed) (break_even_freezes policy h os)
      | inr (q, e) ↦ absurd (
          cc (
            no_risk h.price_open,
            (proposal-Asked policy (with_stop h h.price_open) o q e).at_risk,
          ))
    ]
