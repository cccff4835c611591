-- ===== src/Num/Order.antt =====
-- Laws of the order on rationals.
use mt5_trading_bot.Base.{ℕ, ◌+◌, ◌*◌, ◌≤◌, ◌<◌, ◌≡◌, ◌↔◌, true, false, arith}
use mt5_trading_bot.Num.{ℚ, den, ◌≤ℚ◌, leb_ℚ, ltb_ℚ, is_pos}

pub leb_ℚ→le : (a b : ℚ) → leb_ℚ a b ≡ true → a ≤ℚ b
unfolding leb_ℚ
leb_ℚ→le a b h = ground arith

pub le→leb_ℚ : (a b : ℚ) → a ≤ℚ b → leb_ℚ a b ≡ true
unfolding leb_ℚ
le→leb_ℚ a b h = ground arith

pub ltb_ℚ-not_leb : (a b : ℚ) → ltb_ℚ a b ≡ true → leb_ℚ b a ≡ false
unfolding ltb_ℚ
ltb_ℚ-not_leb a b h = ground arith

pub ltb_ℚ→leb_ℚ : (a b : ℚ) → ltb_ℚ a b ≡ true → leb_ℚ a b ≡ true
unfolding ltb_ℚ
ltb_ℚ→leb_ℚ a b h = ground arith

pub leb_ℚ_total : (a b : ℚ) → leb_ℚ a b ≡ false → leb_ℚ b a ≡ true
unfolding leb_ℚ
leb_ℚ_total a b h = ground arith

pub leb_ℚ_refl : (a : ℚ) → leb_ℚ a a ≡ true
unfolding leb_ℚ
leb_ℚ_refl a = ground arith

cancel : (x y k : ℕ) → 0 < k → x * k ≤ y * k → x ≤ y
cancel x y k p h = grind arith

trans_ℕ :
    (ap am a bp bm b cp cm c : ℕ)
    → 0 < b
    → ap * b + bm * a ≤ bp * a + am * b
    → bp * c + cm * b ≤ cp * b + bm * c
    → ap * c + cm * a ≤ cp * a + am * c
trans_ℕ ap am a bp bm b cp cm c p h k = cancel (ap * c + cm * a) (cp * a + am * c) b p (
    omega (
      arith,
      scale (ap * b + bm * a) (bp * a + am * b) c h,
      scale (bp * c + cm * b) (cp * b + bm * c) a k,
    ))
  where
    scale : (x y k : ℕ) → x ≤ y → x * k ≤ y * k
    scale x y k h = grind arith

pub le_ℚ_trans : (a b c : ℚ) → a ≤ℚ b → b ≤ℚ c → a ≤ℚ c
le_ℚ_trans a b c h k =
    trans_ℕ a.plus a.minus (den a) b.plus b.minus (den b) c.plus c.minus (den c) (omega arith) h k

pub leb_ℚ_trans : (a b c : ℚ) → leb_ℚ a b ≡ true → leb_ℚ b c ≡ true → leb_ℚ a c ≡ true
leb_ℚ_trans a b c h k = le→leb_ℚ a c (le_ℚ_trans a b c (leb_ℚ→le a b h) (leb_ℚ→le b c k))

pub is_pos_iff : (a : ℚ) → (is_pos a ≡ true) ↔ (a.minus < a.plus)
unfolding is_pos
is_pos_iff a = ground arith
