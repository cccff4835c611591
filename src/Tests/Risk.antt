-- ===== src/Tests/Risk.antt =====
-- Sizing, the session state and the risk engine at concrete inputs.
use mt5_trading_bot.Base.{
  ℕ, ◌≡◌, refl, ◌≤◌, ◌+◌, true, false, none, some, List, [], ◌∷◌, arith, not, ◌↔◌,
}
use mt5_trading_bot.Num.{ℚ, int, ratio, ◌-ℚ◌, ◌*ℚ◌, ◌/ℚ◌, ◌≤ℚ◌, is_pos}
use mt5_trading_bot.Num
use mt5_trading_bot.Database.{Db}
use mt5_trading_bot.Risk.Sizing.{
  normalize_volume, risk_per_lot, size_for_loss_budget, floor_steps, round_eighth, positive,
}
use mt5_trading_bot.Risk.Sizing.Bounds.{
  normalize_volume_bounds, size_for_loss_budget_bounds, risk_per_lot-pos, rounded_up, budget_slack,
}
use mt5_trading_bot.Risk.State
use mt5_trading_bot.Risk.State.{
  load, set_emergency_locked, trades_opened, consume_one_trade_authorization, authorize_one_trade,
  register_trade_opened, commit_count, add_realized_pnl, one_trade_authorization,
}
use mt5_trading_bot.Risk.State.Operations.{StoreOp, apply, opened, consume, rearm, realized, run}
use mt5_trading_bot.Risk.State.Lock.{emergency_lock_survives}
use mt5_trading_bot.Risk.State.OneTrade.{allowance, won, wins, rearms, wins-le-rearms}
use mt5_trading_bot.Risk.State.Counter.{commit_count-raced, opened_on}
use mt5_trading_bot.Risk.Authorization.{
  AuthorizationState, blocked, available, authorization_state, authorization_state-blocked,
  blocked-available,
}
use mt5_trading_bot.Core.Settings.{live_orders_permitted}
use mt5_trading_bot.Tests.Data.{eurusd_spec, live_settings, empty_db, first_id, eurusd}

volume_half : normalize_volume (some (ratio 505 999)) eurusd_spec ≡ some (ratio 50000000 99999999)
unfolding normalize_volume floor_steps round_eighth positive Num.is_pos Num.leb_ℚ Num.◌*ℚ◌ Num.◌/ℚ◌
    Num.inverse Num.abs Num.◌-ℚ◌ Num.◌+ℚ◌ Num.neg Num.floor Num.round_half_even Num.choose_even
volume_half = refl

normalize_volume_bounds_example :
    (eurusd_spec.volume_min ≤ℚ ratio 50000000 99999999)
    × (ratio 50000000 99999999 ≤ℚ rounded_up (ratio 505 999) eurusd_spec)
    × (ratio 50000000 99999999 ≤ℚ rounded_up eurusd_spec.volume_max eurusd_spec)
normalize_volume_bounds_example =
    normalize_volume_bounds (ratio 505 999) eurusd_spec (ratio 50000000 99999999) volume_half

abbrev thousand : ℚ
thousand = Num.abs (ratio 11 9 -ℚ ratio 109 99) /ℚ eurusd_spec.tick_size *ℚ eurusd_spec.tick_value

priced : risk_per_lot (ratio 11 9) (ratio 109 99) eurusd_spec ≡ some thousand
unfolding risk_per_lot positive Num.is_pos Num.leb_ℚ Num.abs Num.◌-ℚ◌ Num.◌+ℚ◌ Num.neg
priced = refl

sized :
    size_for_loss_budget (int 10) (ratio 11 9) (ratio 109 99) eurusd_spec
    ≡ some (ratio 1000000 99999999)
unfolding size_for_loss_budget risk_per_lot normalize_volume floor_steps round_eighth positive
    Num.is_pos Num.leb_ℚ Num.◌*ℚ◌ Num.◌/ℚ◌ Num.inverse Num.abs Num.◌-ℚ◌ Num.◌+ℚ◌ Num.neg Num.floor
    Num.round_half_even Num.choose_even
sized = refl

size_for_loss_budget_bounds_example :
    (ratio 1000000 99999999 *ℚ thousand ≤ℚ budget_slack (int 10) thousand eurusd_spec)
    × (eurusd_spec.volume_min ≤ℚ ratio 1000000 99999999)
    × (ratio 1000000 99999999 ≤ℚ rounded_up eurusd_spec.volume_max eurusd_spec)
size_for_loss_budget_bounds_example =
    size_for_loss_budget_bounds (int 10) (ratio 11 9) (ratio 109 99) eurusd_spec
      (ratio 1000000 99999999) thousand sized priced

risk_per_lot-pos_example : is_pos thousand ≡ true
risk_per_lot-pos_example = risk_per_lot-pos (ratio 11 9) (ratio 109 99) eurusd_spec thousand priced

-- A trade on the second day, and a reservation.
abbrev two_days : List (ℕ × StoreOp)
two_days = (86400, opened none) ∷ (86500, consume first_id []) ∷ (90000, realized (int 5) none) ∷ []

emergency_lock_survives_example :
    (load 200000 none
      (run two_days (set_emergency_locked true 100 none empty_db).1)).0.emergency_locked
    ≡ true
emergency_lock_survives_example =
    emergency_lock_survives 100 none empty_db two_days 200000 none tt (refl, (refl, (refl, tt)))
      (omega arith)

abbrev race : List (ℕ × StoreOp)
race =
    (10, consume first_id [])
    ∷ (11, consume eurusd [])
    ∷ (20, rearm [])
    ∷ (30, consume eurusd [])
    ∷ (31, consume first_id [])
    ∷ []

-- Two of the four reservations succeed.
two_wins : wins race empty_db ≡ 2
unfolding wins won apply consume_one_trade_authorization authorize_one_trade
two_wins = refl

wins-le-rearms_example : wins race empty_db ≤ allowance empty_db + rearms race
wins-le-rearms_example = wins-le-rearms race empty_db

-- Between the read and the commit of one process, another one registers a trade.
commit_count-raced_example :
    (trades_opened 90000 none
        (commit_count (trades_opened 90000 none empty_db) 90000 none (run two_days empty_db)).1
      ≡ trades_opened 90000 none empty_db + 1)
    × ((trades_opened 90000 none
            (commit_count (trades_opened 90000 none empty_db) 90000 none (run two_days empty_db)).1
          ≡ trades_opened 90000 none (run two_days empty_db) + 1)
        ↔ (opened_on 1 two_days ≡ 0))
commit_count-raced_example = commit_count-raced two_days empty_db 90000 none

one_counted : trades_opened 90000 none (run two_days empty_db) ≡ 1
unfolding trades_opened run apply register_trade_opened commit_count consume_one_trade_authorization
    add_realized_pnl State.find_row State.replace_row State.new_row
one_counted = refl

abbrev spent_state : AuthorizationState
spent_state = record {
  permitted = true;
  consumed = some true;
  consumed_at = none;
  trade_id = none;
  reason = none;
}

blocked-available_example :
    (spent_state.permitted ≡ true → blocked spent_state ≡ not (available spent_state))
    × (spent_state.permitted ≡ false
        → (blocked spent_state ≡ false) × (available spent_state ≡ false))
blocked-available_example = blocked-available spent_state

permitted : live_orders_permitted live_settings ≡ true
unfolding live_orders_permitted
permitted = refl

authorization_state-blocked_example :
    (blocked (authorization_state live_settings (some empty_db)) ≡ false)
    ↔ ((db : Db) × (some empty_db ≡ some db) × ((one_trade_authorization db).0.consumed ≡ false))
authorization_state-blocked_example =
    authorization_state-blocked live_settings (some empty_db) permitted
