-- ===== src/Risk/Authorization.antt =====
-- app/risk/authorization.py: whether one live entry may still be authorized.
use mt5_trading_bot.Base.{
  ℕ, ◌≡◌, refl, ◌↔◌, Bool, true, false, not, ◌&&◌, if◌then◌else◌, Option, none, some, arith,
}
use mt5_trading_bot.Core.Text.{Text}
use mt5_trading_bot.Core.Settings.{Settings, live_orders_permitted}
use mt5_trading_bot.Database.{Db}
use mt5_trading_bot.Risk.State.{one_trade_authorization}

-- `consumed` is `none` where the authorization could not be read.
pub record AuthorizationState : Type 0 where
  pub permitted : Bool
  pub consumed : Option Bool
  pub consumed_at : Option ℕ
  pub trade_id : Option Text
  pub reason : Option Text

unfoldable pub available : AuthorizationState → Bool
available s = s.permitted && elim s.consumed [ none ↦ false | some c ↦ not c ]

-- The text of a spent authorization quotes the trade and the moment.
pub data BlockedReason : Type 0 where
  unreadable : BlockedReason
  spent : Option Text → Option ℕ → BlockedReason

-- `none` is the code's empty string.
unfoldable pub blocked_reason : AuthorizationState → Option BlockedReason
blocked_reason s = if not s.permitted then none else elim s.consumed [
  | none ↦ some unreadable
  | some c ↦ if c then some (spent s.trade_id s.consumed_at) else none
]

unfoldable pub blocked : AuthorizationState → Bool
unfolding blocked_reason
blocked s = elim (blocked_reason s) [ none ↦ false | some _ ↦ true ]

-- What a missing or failing store gives.
abbrev unverifiable : Settings → AuthorizationState
unverifiable s = record {
  permitted = live_orders_permitted s;
  consumed = none;
  consumed_at = none;
  trade_id = none;
  reason = none;
}

-- The store is `none` where there is none, or where the read raises.
unfoldable pub authorization_state : Settings → Option Db → AuthorizationState
authorization_state s none = unverifiable s
authorization_state s (some db) =
    let row = (one_trade_authorization db).0 in
    record {
      permitted = live_orders_permitted s;
      consumed = some row.consumed;
      consumed_at = row.consumed_at;
      trade_id = row.consumed_trade_id;
      reason = row.consumed_reason;
    }

-- In live mode an order is blocked exactly where no live entry is available, so an authorization
-- that could not be read blocks; outside live mode nothing is blocked and nothing is available.
pub blocked-available :
    (s : AuthorizationState)
    → (s.permitted ≡ true → blocked s ≡ not (available s))
      × (s.permitted ≡ false → (blocked s ≡ false) × (available s ≡ false))
unfolding blocked available
blocked-available s = (λ p. ground arith, λ p. ground arith)

-- With the live gates set, the gate lets an entry pass exactly where the stored authorization can be
-- read and is not consumed; a table that holds no authorization yet counts as unspent.
pub authorization_state-blocked :
    (s : Settings) (store : Option Db)
    → live_orders_permitted s ≡ true
    → (blocked (authorization_state s store) ≡ false)
      ↔ ((db : Db) × (store ≡ some db) × ((one_trade_authorization db).0.consumed ≡ false))
unfolding blocked authorization_state
authorization_state-blocked s none p = (λ h. absurd (ground arith), λ h. absurd (ground arith))
authorization_state-blocked s (some db) p = (λ h. (db, refl, ground arith), λ h. ground arith)
