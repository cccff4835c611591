-- ===== src/Analytics.antt =====
-- app/services/analytics.py: the numbers over the net results of the closed trades, which are given
-- in the order of their closing. The texts of an undefined profit factor are left out.
pub mod Drawdown
pub mod Balance
use mt5_trading_bot.Base.{
  ℕ, zero, suc, ◌-◌, Bool, Option, none, some, List, [], ◌∷◌, map, keep, length, if◌then◌else◌,
}
use mt5_trading_bot.Num.{ℚ, int, ◌+ℚ◌, ◌-ℚ◌, ◌/ℚ◌, neg, max_ℚ, is_pos, sum_ℚ}
use mt5_trading_bot.Database.{TradeRow}
use mt5_trading_bot.Reconciliation.Booking.{net_pnl}

-- The locals of `drawdown`.
pub record Curve : Type 0 where
  pub equity : ℚ
  pub peak : ℚ
  pub maximum : ℚ
  pub current : ℚ

abbrev pub flat : Curve
flat = record { equity = int 0; peak = int 0; maximum = int 0; current = int 0 }

-- One round of the loop.
unfoldable pub add_result : Curve → ℚ → Curve
unfolding ◌-ℚ◌ max_ℚ
add_result c value =
    let equity = c.equity +ℚ value in
    let peak = max_ℚ c.peak equity in
    record {
      equity = equity;
      peak = peak;
      maximum = max_ℚ c.maximum (peak -ℚ equity);
      current = peak -ℚ equity;
    }

unfoldable pub curve_of : Curve → List ℚ → Curve
curve_of c [] = c
curve_of c (value ∷ values) = curve_of (add_result c value) values

-- `drawdown`: the current one and the maximum.
unfoldable pub drawdown : List ℚ → ℚ × ℚ
unfolding curve_of
drawdown values = let c = curve_of flat values in (c.current, c.maximum)

-- `profit_factor`
unfoldable pub profit_factor : ℚ → ℚ → Option ℚ
profit_factor gross_profit gross_loss =
    if is_pos gross_loss then some (gross_profit /ℚ gross_loss) else none

pub record Summary : Type 0 where
  pub trades : ℕ
  pub winning_trades : ℕ
  pub losing_trades : ℕ
  pub breakeven_trades : ℕ
  pub gross_profit : ℚ
  pub gross_loss : ℚ
  pub net : ℚ
  pub win_rate : Option ℚ
  pub factor : Option ℚ

abbrev pub is_win : ℚ → Bool
is_win value = is_pos value

abbrev pub is_loss : ℚ → Bool
is_loss value = is_pos (neg value)

abbrev rate : ℕ → ℕ → Option ℚ
rate n zero = none
rate n (suc all) = some (int n /ℚ int (suc all))

abbrev pub summary_of : List ℚ → Summary
summary_of results =
    let wins = keep is_win results in
    let losses = keep is_loss results in
    record {
      trades = length results;
      winning_trades = length wins;
      losing_trades = length losses;
      breakeven_trades = length results - length wins - length losses;
      gross_profit = sum_ℚ wins;
      gross_loss = neg (sum_ℚ losses);
      net = sum_ℚ results;
      win_rate = rate (length wins) (length results);
      factor = profit_factor (sum_ℚ wins) (neg (sum_ℚ losses));
    }

-- `_summary`
unfoldable pub summary : List TradeRow → Summary
summary trades = summary_of (map net_pnl trades)
