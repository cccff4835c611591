-- ===== src/Num/Sign.antt =====
-- Positive rationals and the strict order.
use mt5_trading_bot.Base.{ℕ, suc, ◌*◌, ◌≤◌, ◌<◌, ◌≡◌, inl, inr, true, false, arith, Bool-cases}
use mt5_trading_bot.Num.{ℚ, den, ◌+ℚ◌, ◌-ℚ◌, ◌*ℚ◌, ◌/ℚ◌, neg, inverse, leb_ℚ, ltb_ℚ, is_pos}
use mt5_trading_bot.Num.Order.{is_pos_iff}
use mt5_trading_bot.Num.Field.{den_mul}

scale_le : (x y k : ℕ) → x ≤ y → x * suc k ≤ y * suc k
scale_le x y k h = grind arith

pub scale_lt : (x y k : ℕ) → x < y → x * suc k < y * suc k
scale_lt x y k h = grind arith

-- What is not below a positive number is positive.
pub is_pos-above : (a b : ℚ) → is_pos a ≡ true → ltb_ℚ b a ≡ false → is_pos b ≡ true
unfolding ltb_ℚ leb_ℚ
is_pos-above a b h k = elim (Bool-cases (is_pos b)) [
  | inl e ↦ e
  | inr e ↦
      let low : b.plus ≤ b.minus = unfold is_pos in ground arith in
      absurd (
        ground (
          arith,
          scale_le b.plus b.minus a.pred_den low,
          scale_lt a.minus a.plus b.pred_den ((is_pos_iff a).0 h),
        ))
]

pub is_pos-dividend : (x y : ℚ) → is_pos y ≡ true → is_pos (x /ℚ y) ≡ true → is_pos x ≡ true
unfolding ◌/ℚ◌ ◌*ℚ◌ inverse
is_pos-dividend x y h k = elim (Bool-cases (is_pos x)) [
  | inl e ↦ e
  | inr e ↦
      let low : x.plus ≤ x.minus = unfold is_pos in ground arith in
      let up = (is_pos_iff (x /ℚ y)).0 k in
      absurd (omega (arith, scale_le x.plus x.minus y.pred_den low, rw h at up))
]

pub is_pos-sub : (a b : ℚ) → is_pos (a -ℚ b) ≡ true → ltb_ℚ b a ≡ true
unfolding ◌-ℚ◌ ◌+ℚ◌ neg ltb_ℚ leb_ℚ
is_pos-sub a b h = let up = (is_pos_iff (a -ℚ b)).0 h in ground arith

pub sub-below : (p d : ℚ) → is_pos d ≡ true → ltb_ℚ (p -ℚ d) p ≡ true
unfolding ◌-ℚ◌ ◌+ℚ◌ neg ltb_ℚ leb_ℚ
sub-below p d h =
    let up = scale_lt d.minus d.plus p.pred_den ((is_pos_iff d).0 h) in
    let more = scale_lt (d.minus * den p) (d.plus * den p) p.pred_den up in
    rw (den_mul p.pred_den d.pred_den) (ground (arith, more))

pub add-above : (p d : ℚ) → is_pos d ≡ true → ltb_ℚ p (p +ℚ d) ≡ true
unfolding ◌+ℚ◌ ltb_ℚ leb_ℚ
add-above p d h =
    let up = scale_lt d.minus d.plus p.pred_den ((is_pos_iff d).0 h) in
    let more = scale_lt (d.minus * den p) (d.plus * den p) p.pred_den up in
    rw (den_mul p.pred_den d.pred_den) (ground (arith, more))
