-- ===== src/Analytics/Balance.antt =====
-- The summary of the closed trades agrees with itself (app/services/analytics.py, `_summary`).
use mt5_trading_bot.Base.{
  ℕ, ◌+◌, ◌<◌, suc, ◌↔◌, ◌≤◌, ◌*◌, ◌≡◌, refl, inl, inr, Bool, true, false, List, [], ◌∷◌,
  Bool-cases, none, some, keep, length, arith, map,
}
use mt5_trading_bot.Num.{ℚ, int, ◌+ℚ◌, ◌/ℚ◌, neg, is_pos, sum_ℚ}
use mt5_trading_bot.Num.Order.{is_pos_iff}
use mt5_trading_bot.Database.{TradeRow}
use mt5_trading_bot.Reconciliation.Booking.{net_pnl}
use mt5_trading_bot.Analytics.{is_win, is_loss, summary, profit_factor}

one_sign : (x : ℚ) → is_win x ≡ true → is_loss x ≡ false
unfolding is_pos neg
one_sign x h = ground arith

counted : (xs : List ℚ) → length (keep is_win xs) + length (keep is_loss xs) ≤ length xs
counted [] = omega arith
counted (x ∷ xs) = elim (Bool-cases (is_win x)) [
  | inl e ↦ rw (e, one_sign x e) (omega (arith, counted xs))
  | inr e ↦ elim (Bool-cases (is_loss x)) [
    | inl f ↦ rw (e, f) (omega (arith, counted xs))
    | inr f ↦ rw (e, f) (omega (arith, counted xs))
  ]
]

scale_lt : (x y k : ℕ) → x < y → x * suc k < y * suc k
scale_lt x y k h = grind arith

add_losses : (a b : ℚ) → is_loss a ≡ true → is_loss b ≡ true → is_loss (a +ℚ b) ≡ true
unfolding neg ◌+ℚ◌
add_losses a b h k = (is_pos_iff (neg (a +ℚ b))).1 (
    omega (
      arith,
      scale_lt a.plus a.minus b.pred_den ((is_pos_iff (neg a)).0 h),
      scale_lt b.plus b.minus a.pred_den ((is_pos_iff (neg b)).0 k),
    ))

add_zero_loss : (a : ℚ) → is_loss a ≡ true → is_loss (a +ℚ int 0) ≡ true
unfolding neg ◌+ℚ◌
add_zero_loss a h = (is_pos_iff (neg (a +ℚ int 0))).1 (omega (arith, (is_pos_iff (neg a)).0 h))

abbrev some_trade : List ℚ → Bool
some_trade [] = false
some_trade (_ ∷ _) = true

-- Losses come to a loss, and no losses to none.
lost : (xs : List ℚ) → is_loss (sum_ℚ (keep is_loss xs)) ≡ some_trade (keep is_loss xs)
unfolding sum_ℚ
lost [] = unfold is_pos neg in refl
lost (x ∷ xs) = elim (Bool-cases (is_loss x)) [
  | inl e ↦ rw e (more (keep is_loss xs) e (lost xs))
  | inr e ↦ rw e (lost xs)
]
  where
    more :
        (ys : List ℚ)
        → is_loss x ≡ true
        → is_loss (sum_ℚ ys) ≡ some_trade ys
        → is_loss (x +ℚ sum_ℚ ys) ≡ true
    more [] e h = add_zero_loss x e
    more (y ∷ ys) e h = add_losses x (sum_ℚ (y ∷ ys)) e h

defined : (gain loss : ℚ) → is_pos loss ≡ true → profit_factor gain loss ≡ some (gain /ℚ loss)
unfolding profit_factor
defined gain loss h = rw h refl

undefined_iff :
    (gain : ℚ) (ys : List ℚ)
    → is_loss (sum_ℚ ys) ≡ some_trade ys
    → (profit_factor gain (neg (sum_ℚ ys)) ≡ none) ↔ (length ys ≡ 0)
unfolding profit_factor
undefined_iff gain [] h = (λ _. refl, λ _. rw h refl)
undefined_iff gain (y ∷ ys) h =
    (λ e. absurd (cc (defined gain (neg (sum_ℚ (y ∷ ys))) h, e)), λ e. absurd (omega (arith, e)))

-- Every closed trade is counted once, as won, lost or neither; and the profit factor is undefined
-- exactly where no trade was lost, whatever was gained.
pub summary-Counted :
    (trades : List TradeRow)
    → let s = summary trades in
      (s.winning_trades + s.losing_trades + s.breakeven_trades ≡ s.trades)
      × ((s.factor ≡ none) ↔ (s.losing_trades ≡ 0))
unfolding summary
summary-Counted trades =
    let results = map net_pnl trades in
    (
      omega (arith, counted results),
      undefined_iff (sum_ℚ (keep is_win results)) (keep is_loss results) (lost results),
    )
