-- ===== src/Analytics/Drawdown.antt =====
-- The drawdowns of a curve are its deepest falls (app/services/analytics.py, `drawdown`).
use mt5_trading_bot.Base.{◌≡◌, refl, ap, inl, inr, List, [], ◌∷◌, Bool-cases}
use mt5_trading_bot.Num.{ℚ, int, ◌+ℚ◌, ◌-ℚ◌, ◌≤ℚ◌, neg, max_ℚ, leb_ℚ}
use mt5_trading_bot.Num.Order.{leb_ℚ→le, le_ℚ_trans, leb_ℚ_refl, leb_ℚ_total}
use mt5_trading_bot.Num.Field.{add_mono_ℚ}
use mt5_trading_bot.Analytics.{Curve, flat, add_result, curve_of, drawdown}

-- The results up to a moment, the latest first.
unfoldable pub history : List ℚ → List ℚ → List ℚ
history past [] = past
history past (value ∷ values) = history (value ∷ past) values

-- What these results come to, from zero.
unfoldable pub equity_of : List ℚ → ℚ
equity_of [] = int 0
equity_of (value ∷ past) = equity_of past +ℚ value

-- A moment that is not after another one.
pub data Earlier (g : List ℚ) : List ℚ → Type 0 where
  same : Earlier g g
  before : {value : ℚ} {h : List ℚ} → Earlier g h → Earlier g (value ∷ h)

-- What the account lost between two moments.
unfoldable pub fall : List ℚ → List ℚ → ℚ
fall g h = equity_of g -ℚ equity_of h

-- The deepest fall from a moment up to the last one, and the deepest one between two moments.
pub record Deepest (h : List ℚ) (d : ℚ × ℚ) : Type 0 where
  pub current_reached : (g : List ℚ) × Earlier g h × (d.0 ≡ fall g h)
  pub current_above : (g : List ℚ) → Earlier g h → fall g h ≤ℚ d.0
  pub maximum_reached : (f g : List ℚ) × Earlier f h × Earlier g f × (d.1 ≡ fall g f)
  pub maximum_above : (f g : List ℚ) → Earlier f h → Earlier g f → fall g f ≤ℚ d.1

pub record Follows (h : List ℚ) (c : Curve) : Type 0 where
  pub at_end : c.equity ≡ equity_of h
  pub is_current : c.current ≡ c.peak -ℚ c.equity
  pub peak_reached : (g : List ℚ) × Earlier g h × (c.peak ≡ equity_of g)
  pub peak_above : (g : List ℚ) → Earlier g h → equity_of g ≤ℚ c.peak
  pub reached : (f g : List ℚ) × Earlier f h × Earlier g f × (c.maximum ≡ fall g f)
  pub above : (f g : List ℚ) → Earlier f h → Earlier g f → fall g f ≤ℚ c.maximum

le_max_left : (a b : ℚ) → a ≤ℚ max_ℚ a b
unfolding max_ℚ
le_max_left a b = elim (Bool-cases (leb_ℚ b a)) [
  | inl e ↦ rw e (leb_ℚ→le a a (leb_ℚ_refl a))
  | inr e ↦ rw e (leb_ℚ→le a b (leb_ℚ_total b a e))
]

le_max_right : (a b : ℚ) → b ≤ℚ max_ℚ a b
unfolding max_ℚ
le_max_right a b = elim (Bool-cases (leb_ℚ b a)) [
  | inl e ↦ rw e (leb_ℚ→le b a e)
  | inr e ↦ rw e (leb_ℚ→le b b (leb_ℚ_refl b))
]

sub_mono : (a b c : ℚ) → a ≤ℚ b → a -ℚ c ≤ℚ b -ℚ c
unfolding ◌-ℚ◌
sub_mono a b c h = add_mono_ℚ a b (neg c) h

le_refl : (a : ℚ) → a ≤ℚ a
le_refl a = leb_ℚ→le a a (leb_ℚ_refl a)

flat-Follows : Follows [] flat
unfolding equity_of fall ◌-ℚ◌
flat-Follows = record {
  at_end = refl;
  is_current = refl;
  peak_reached = ([], same, refl);
  peak_above = start_above;
  reached = ([], [], same, same, refl);
  above = start_fall;
}
  where
    start_above : (g : List ℚ) → Earlier g [] → equity_of g ≤ℚ int 0
    start_above _ same = le_refl (int 0)

    start_fall : (f g : List ℚ) → Earlier f [] → Earlier g f → fall g f ≤ℚ int 0
    start_fall _ _ same same = le_refl (int 0)

module _ (h : List ℚ) (c : Curve) (value : ℚ) (i : Follows h c) where
  abbrev equity : ℚ
  equity = c.equity +ℚ value

  abbrev peak : ℚ
  peak = max_ℚ c.peak equity

  equity_after : equity ≡ equity_of (value ∷ h)
  unfolding equity_of
  equity_after = ap (λ e. e +ℚ value) i.at_end

  peak_after : (g : List ℚ) × Earlier g (value ∷ h) × (peak ≡ equity_of g)
  unfolding max_ℚ
  peak_after = elim (Bool-cases (leb_ℚ equity c.peak)) [
    | inl e ↦ let (g, k, p) = i.peak_reached in (g, before k, rw e p)
    | inr e ↦ (value ∷ h, same, rw e equity_after)
  ]

  peak_over : (g : List ℚ) → Earlier g (value ∷ h) → equity_of g ≤ℚ peak
  peak_over _ same = rw (← equity_after) (le_max_right c.peak equity)
  peak_over g (before k) =
      le_ℚ_trans (equity_of g) c.peak peak (i.peak_above g k) (le_max_left c.peak equity)

  current_after : peak -ℚ equity ≤ℚ max_ℚ c.maximum (peak -ℚ equity)
  current_after = le_max_right c.maximum (peak -ℚ equity)

  maximum_after :
      (f g : List ℚ) × Earlier f (value ∷ h)
      × Earlier g f
      × (max_ℚ c.maximum (peak -ℚ equity) ≡ fall g f)
  unfolding max_ℚ fall
  maximum_after = elim (Bool-cases (leb_ℚ (peak -ℚ equity) c.maximum)) [
    | inl e ↦ let (f, g, k, l, p) = i.reached in (f, g, before k, l, rw e p)
    | inr e ↦ let (g, k, p) = peak_after in (value ∷ h, g, same, k, rw (e, p, equity_after) refl)
  ]

  fall_to_end : (g : List ℚ) → Earlier g (value ∷ h) → fall g (value ∷ h) ≤ℚ peak -ℚ equity
  unfolding fall
  fall_to_end g k = rw (← equity_after) (sub_mono (equity_of g) peak equity (peak_over g k))

  maximum_over :
      (f g : List ℚ)
      → Earlier f (value ∷ h)
      → Earlier g f
      → fall g f ≤ℚ max_ℚ c.maximum (peak -ℚ equity)
  maximum_over _ g same k =
      le_ℚ_trans (fall g (value ∷ h)) (peak -ℚ equity) (max_ℚ c.maximum (peak -ℚ equity))
        (fall_to_end g k) current_after
  maximum_over f g (before k) l =
      le_ℚ_trans (fall g f) c.maximum (max_ℚ c.maximum (peak -ℚ equity)) (i.above f g k l)
        (le_max_left c.maximum (peak -ℚ equity))

  add_result-Follows : Follows (value ∷ h) (add_result c value)
  unfolding add_result
  add_result-Follows = record {
    at_end = equity_after;
    is_current = refl;
    peak_reached = peak_after;
    peak_above = peak_over;
    reached = maximum_after;
    above = maximum_over;
  }

curve_of-Follows :
    (values h : List ℚ) (c : Curve) → Follows h c → Follows (history h values) (curve_of c values)
unfolding history curve_of
curve_of-Follows [] h c i = i
curve_of-Follows (value ∷ values) h c i =
    curve_of-Follows values (value ∷ h) (add_result c value) (add_result-Follows h c value i)

module _ (h : List ℚ) (c : Curve) (i : Follows h c) where
  current_fall : (g : List ℚ) → c.peak ≡ equity_of g → c.current ≡ fall g h
  unfolding fall
  current_fall g p = rw (i.is_current, p, i.at_end) refl

  current_over : (g : List ℚ) → Earlier g h → fall g h ≤ℚ c.current
  unfolding fall
  current_over g k =
      rw (i.is_current, i.at_end) (sub_mono (equity_of g) c.peak (equity_of h) (i.peak_above g k))

  followed-Deepest : Deepest h (c.current, c.maximum)
  followed-Deepest =
      let (g, k, p) = i.peak_reached in
      record {
        current_reached = (g, k, current_fall g p);
        current_above = current_over;
        maximum_reached = i.reached;
        maximum_above = i.above;
      }

-- The current drawdown is the deepest fall of the account from a moment to the last close, and the
-- maximum drawdown the deepest fall between any two moments: each is reached and none is deeper.
pub drawdown-Deepest : (values : List ℚ) → Deepest (history [] values) (drawdown values)
unfolding drawdown
drawdown-Deepest values =
    followed-Deepest (history [] values) (curve_of flat values)
      (curve_of-Follows values [] flat flat-Follows)
