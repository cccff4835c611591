-- ===== src/Num/Field.antt =====
-- Arithmetic laws of the rationals, stated by their order.
use mt5_trading_bot.Base.{
  ℕ, suc, ◌+◌, ◌-◌, ◌*◌, ◌/◌, ◌%◌, ◌≤◌, ◌<◌, ◌≡◌, refl, Bool, true, false, if◌then◌else◌, leb,
  leb→le, ◌⊎◌, inl, inr, arith,
}
use mt5_trading_bot.Num.Order.{leb_ℚ→le, le_ℚ_trans, is_pos_iff}
use mt5_trading_bot.Num.{
  ℚ, den, int, choose_even, ◌≤ℚ◌, leb_ℚ, is_pos, ◌+ℚ◌, ◌-ℚ◌, ◌*ℚ◌, ◌/ℚ◌, inverse, neg, abs, floor,
  round_half_even, ratio,
}

pub den_mul : (p q : ℕ) → suc (p * suc q + q) ≡ suc p * suc q
den_mul p q = omega arith

scale : (x y k : ℕ) → x ≤ y → x * k ≤ y * k
scale x y k h = grind arith

add_mono_ℕ :
    (ap am a bp bm b cp cm c : ℕ)
    → ap * b + bm * a ≤ bp * a + am * b
    → (ap * c + cp * a) * (b * c) + (bm * c + cm * b) * (a * c)
      ≤ (bp * c + cp * b) * (a * c) + (am * c + cm * a) * (b * c)
add_mono_ℕ ap am a bp bm b cp cm c h =
    omega (arith, scale (ap * b + bm * a) (bp * a + am * b) (c * c) h)

pub add_mono_ℚ : (a b c : ℚ) → a ≤ℚ b → a +ℚ c ≤ℚ b +ℚ c
unfolding ◌+ℚ◌
add_mono_ℚ a b c h = rw (den_mul a.pred_den c.pred_den) (
    rw (den_mul b.pred_den c.pred_den)
      (add_mono_ℕ a.plus a.minus (den a) b.plus b.minus (den b) c.plus c.minus (den c) h))

mul_mono_ℕ :
    (ap am a bp bm b k cm c : ℕ)
    → ap * b + bm * a ≤ bp * a + am * b
    → (ap * (cm + k) + am * cm) * (b * c) + (bp * cm + bm * (cm + k)) * (a * c)
      ≤ (bp * (cm + k) + bm * cm) * (a * c) + (ap * cm + am * (cm + k)) * (b * c)
mul_mono_ℕ ap am a bp bm b k cm c h =
    omega (arith, scale (ap * b + bm * a) (bp * a + am * b) (k * c) h)

pub mul_mono_ℚ : (a b c : ℚ) → a ≤ℚ b → c.minus ≤ c.plus → a *ℚ c ≤ℚ b *ℚ c
unfolding ◌*ℚ◌
mul_mono_ℚ a b c h p =
    rw (den_mul a.pred_den c.pred_den)
      (rw (den_mul b.pred_den c.pred_den) (core c.plus (c.plus - c.minus) (omega arith)))
  where
    core :
        (cp k : ℕ)
        → cp ≡ c.minus + k
        → (a.plus * cp + a.minus * c.minus) * (den b * den c)
            + (b.plus * c.minus + b.minus * cp) * (den a * den c)
          ≤ (b.plus * cp + b.minus * c.minus) * (den a * den c)
            + (a.plus * c.minus + a.minus * cp) * (den b * den c)
    core cp k e =
        rw e (mul_mono_ℕ a.plus a.minus (den a) b.plus b.minus (den b) k c.minus (den c) h)

-- x and y over d against the same, both scaled by k.
scaled_le :
    (p m d p' m' d' k : ℕ)
    → p' ≡ p * k
    → m' ≡ m * k
    → d' ≡ d * k
    → p * d' + m' * d ≤ p' * d + m * d'
scaled_le p m d p' m' d' k hp hm hd = rw (hp, hm, hd) (omega arith)

add_mul_plus :
    (ap am a bp bm b cp cm c : ℕ)
    → (ap * cp + am * cm) * (b * c) + (bp * cp + bm * cm) * (a * c)
      ≡ ((ap * b + bp * a) * cp + (am * b + bm * a) * cm) * c
add_mul_plus ap am a bp bm b cp cm c = omega arith

pub add_mul_ℚ : (a b c : ℚ) → (a +ℚ b) *ℚ c ≤ℚ a *ℚ c +ℚ b *ℚ c
unfolding ◌*ℚ◌ ◌+ℚ◌
add_mul_ℚ a b c =
    scaled_le
      ((a.plus * den b + b.plus * den a) * c.plus + (a.minus * den b + b.minus * den a) * c.minus)
      ((a.plus * den b + b.plus * den a) * c.minus + (a.minus * den b + b.minus * den a) * c.plus) _
      _ _ _ (den c)
      (simp den_mul
        (add_mul_plus a.plus a.minus (den a) b.plus b.minus (den b) c.plus c.minus (den c)))
      (simp den_mul
        (add_mul_plus a.plus a.minus (den a) b.plus b.minus (den b) c.minus c.plus (den c)))
      (omega arith)

-- Where y > 0, x / y * y is at most x.
pub div_mul_ℚ : (x y : ℚ) → is_pos y ≡ true → x /ℚ y *ℚ y ≤ℚ x
unfolding ◌*ℚ◌ ◌/ℚ◌
div_mul_ℚ x y h = rw h (core y.plus (y.plus - y.minus - 1) (ground arith))
  where
    core :
        (yp j : ℕ)
        → yp ≡ y.minus + suc j
        → ((x.plus * den y + x.minus * 0) * yp + (x.plus * 0 + x.minus * den y) * y.minus) * den x
            + x.minus * suc ((x.pred_den * suc j + j) * den y + y.pred_den)
          ≤ x.plus * suc ((x.pred_den * suc j + j) * den y + y.pred_den)
            + ((x.plus * den y + x.minus * 0) * y.minus + (x.plus * 0 + x.minus * den y) * yp)
              * den x
    core yp j e = rw e (omega arith)

pub is_pos_minus : (a : ℚ) → is_pos a ≡ true → a.minus ≤ a.plus
unfolding is_pos
is_pos_minus a h = ground arith

pub int-mono : (m n : ℕ) → m ≤ n → int m ≤ℚ int n
int-mono m n h = omega arith

twice : (m p d : ℕ) → m ≤ p → m * d + m * d ≤ p * d + p * d
twice m p d h = omega (arith, scale m p d h)

pub neg-le-abs : (x : ℚ) → neg x ≤ℚ abs x
unfolding abs neg
neg-le-abs x = go (leb x.minus x.plus) refl
  where
    go : (b : Bool) → leb x.minus x.plus ≡ b → neg x ≤ℚ (if b then x else neg x)
    go true e = twice x.minus x.plus (den x) (leb→le x.minus x.plus e)
    go false e = omega arith

pub le-abs : (x : ℚ) → x ≤ℚ abs x
unfolding abs neg
le-abs x = go (leb x.minus x.plus) refl
  where
    go : (b : Bool) → leb x.minus x.plus ≡ b → x ≤ℚ (if b then x else neg x)
    go true e = omega arith
    go false e = twice x.plus x.minus (den x) (ground arith)

add_of_neg_sub : (a b e : ℚ) → neg (a -ℚ b) ≤ℚ e → b ≤ℚ a +ℚ e
unfolding ◌-ℚ◌
add_of_neg_sub a b e h = omega arith

-- A number within e of a is at most a + e.
pub abs_sub_le : (a b e : ℚ) → leb_ℚ (abs (a -ℚ b)) e ≡ true → b ≤ℚ a +ℚ e
abs_sub_le a b e h =
    add_of_neg_sub a b e
      (le_ℚ_trans (neg (a -ℚ b)) (abs (a -ℚ b)) e (neg-le-abs (a -ℚ b)) (leb_ℚ→le _ _ h))

pub floor-le : (q : ℚ) → q.minus ≤ q.plus → int (floor q) ≤ℚ q
unfolding floor
floor-le q h = ground arith

choose_even_lem :
    (f twice d : ℕ) → (choose_even f twice d ≡ f) ⊎ ((choose_even f twice d ≡ f + 1) × (d ≤ twice))
unfolding choose_even
choose_even_lem f twice d = ground arith

pub round_half_even-le : (q : ℚ) → q.minus ≤ q.plus → int (round_half_even q) ≤ℚ q +ℚ ratio 1 1
unfolding round_half_even ◌+ℚ◌
round_half_even-le q h =
    elim (choose_even_lem ((q.plus - q.minus) / den q) (2 * ((q.plus - q.minus) % den q)) (den q)) [
      | inl e ↦ rw e (omega arith)
      | inr (e, up) ↦ rw e (omega arith)
    ]

pub add_nonneg_ℚ : (a e : ℚ) → e.minus ≤ e.plus → a ≤ℚ a +ℚ e
unfolding ◌+ℚ◌
add_nonneg_ℚ a e h = rw (den_mul a.pred_den e.pred_den) (omega (arith, scale _ _ (den a * den a) h))

pos_mul_ℕ :
    (am j bm k : ℕ) → (am + suc j) * bm + am * (bm + suc k) < (am + suc j) * (bm + suc k) + am * bm
pos_mul_ℕ am j bm k = omega arith

pub is_pos-mul : (a b : ℚ) → is_pos a ≡ true → is_pos b ≡ true → is_pos (a *ℚ b) ≡ true
unfolding ◌*ℚ◌
is_pos-mul a b h k = (is_pos_iff (a *ℚ b)).1 (
    core a.plus (a.plus - a.minus - 1) b.plus (b.plus - b.minus - 1)
      (omega (arith, (is_pos_iff a).0 h)) (omega (arith, (is_pos_iff b).0 k)))
  where
    core :
        (ap j bp k : ℕ)
        → ap ≡ a.minus + suc j
        → bp ≡ b.minus + suc k
        → ap * b.minus + a.minus * bp < ap * bp + a.minus * b.minus
    core ap j bp k e f = rw (e, f) (pos_mul_ℕ a.minus j b.minus k)

is_pos-inverse : (b : ℚ) → is_pos b ≡ true → is_pos (inverse b) ≡ true
unfolding inverse
is_pos-inverse b h = rw h (unfold is_pos in ground arith)

pub is_pos-div : (a b : ℚ) → is_pos a ≡ true → is_pos b ≡ true → is_pos (a /ℚ b) ≡ true
unfolding ◌/ℚ◌
is_pos-div a b h k = is_pos-mul a (inverse b) h (is_pos-inverse b k)

-- What is not at most 0 is positive.
pub is_pos_of_not_le : (a : ℚ) → leb_ℚ a (int 0) ≡ false → is_pos a ≡ true
unfolding leb_ℚ is_pos
is_pos_of_not_le a h = ground arith
