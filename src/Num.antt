-- ===== src/Num.antt =====
-- Python's numbers as exact rationals. A value is (plus - minus) / (pred_den + 1); the
-- representation is not reduced, and the code only compares values. Rounding of binary floats is
-- not modelled: every operation is exact.
pub mod Order
pub mod Field
pub mod Sign
use mt5_trading_bot.Base.{
  ℕ, suc, ◌+◌, ◌-◌, ◌*◌, ◌/◌, ◌%◌, ◌≤◌, Bool, true, not, ◌&&◌, leb, ltb, ◌==◌, if◌then◌else◌, List,
  [], ◌∷◌,
}

pub record ℚ : Type 0 where
  pub plus : ℕ
  pub minus : ℕ
  pub pred_den : ℕ

abbrev pub den : ℚ → ℕ
den q = suc q.pred_den

-- n / (d + 1)
abbrev pub ratio : ℕ → ℕ → ℚ
ratio n d = record { plus = n; minus = 0; pred_den = d }

abbrev pub int : ℕ → ℚ
int n = ratio n 0

infixl 65 ◌+ℚ◌ ◌-ℚ◌
infixl 70 ◌*ℚ◌ ◌/ℚ◌
infix 50 ◌≤ℚ◌
unfoldable pub ◌+ℚ◌ : ℚ → ℚ → ℚ
a +ℚ b = record {
  plus = a.plus * den b + b.plus * den a;
  minus = a.minus * den b + b.minus * den a;
  pred_den = a.pred_den * den b + b.pred_den;
}

unfoldable pub neg : ℚ → ℚ
neg a = record { plus = a.minus; minus = a.plus; pred_den = a.pred_den }

unfoldable pub ◌-ℚ◌ : ℚ → ℚ → ℚ
unfolding ◌+ℚ◌ neg
a -ℚ b = a +ℚ neg b

unfoldable pub ◌*ℚ◌ : ℚ → ℚ → ℚ
a *ℚ b = record {
  plus = a.plus * b.plus + a.minus * b.minus;
  minus = a.plus * b.minus + a.minus * b.plus;
  pred_den = a.pred_den * den b + b.pred_den;
}

-- a ≤ b
abbrev pub ◌≤ℚ◌ : ℚ → ℚ → Type 0
a ≤ℚ b = a.plus * den b + b.minus * den a ≤ b.plus * den a + a.minus * den b

unfoldable pub leb_ℚ : ℚ → ℚ → Bool
leb_ℚ a b = leb (a.plus * den b + b.minus * den a) (b.plus * den a + a.minus * den b)

unfoldable pub ltb_ℚ : ℚ → ℚ → Bool
unfolding leb_ℚ
ltb_ℚ a b = not (leb_ℚ b a)

unfoldable pub eqb_ℚ : ℚ → ℚ → Bool
unfolding leb_ℚ
eqb_ℚ a b = leb_ℚ a b && leb_ℚ b a

-- `value > 0`
unfoldable pub is_pos : ℚ → Bool
is_pos a = ltb a.minus a.plus

-- 1 / b; the program divides only by values it has tested, so what 1 / 0 is does not matter.
unfoldable pub inverse : ℚ → ℚ
unfolding is_pos
inverse b =
    if is_pos b
    then record { plus = den b; minus = 0; pred_den = b.plus - b.minus - 1 }
    else record { plus = 0; minus = den b; pred_den = b.minus - b.plus - 1 }

unfoldable pub ◌/ℚ◌ : ℚ → ℚ → ℚ
unfolding ◌*ℚ◌ inverse
a /ℚ b = a *ℚ inverse b

unfoldable pub abs : ℚ → ℚ
unfolding neg
abs a = if leb a.minus a.plus then a else neg a

unfoldable pub max_ℚ : ℚ → ℚ → ℚ
unfolding leb_ℚ
max_ℚ a b = if leb_ℚ b a then a else b

unfoldable pub min_ℚ : ℚ → ℚ → ℚ
unfolding leb_ℚ
min_ℚ a b = if leb_ℚ a b then a else b

-- Python's `sum`.
unfoldable pub sum_ℚ : List ℚ → ℚ
unfolding ◌+ℚ◌
sum_ℚ [] = int 0
sum_ℚ (x ∷ xs) = x +ℚ sum_ℚ xs

-- Whole part of a value that is not negative.
unfoldable pub floor : ℚ → ℕ
floor q = (q.plus - q.minus) / den q

-- f or f + 1 by twice the remainder over d; a tie goes to the even one.
unfoldable pub choose_even : ℕ → ℕ → ℕ → ℕ
choose_even f twice d =
    if ltb twice d then f else if ltb d twice then f + 1 else if f % 2 == 0 then f else f + 1

-- Python's `round` to the nearest whole number, of a value that is not negative.
unfoldable pub round_half_even : ℚ → ℕ
round_half_even q = let n = q.plus - q.minus in choose_even (n / den q) (2 * (n % den q)) (den q)

abbrev pub billionth : ℚ
billionth = ratio 1 999999999
