-- ===== src/Execution/Submit/Attempts.antt =====
-- Many submissions after each other, with other processes between: how many live orders they send.
use mt5_trading_bot.Base.{
  ℕ, ◌+◌, ◌≤◌, ◌≡◌, inl, inr, true, if◌then◌else◌, List, [], ◌∷◌, arith, is_some, All,
}
use mt5_trading_bot.Core.Text.{Text}
use mt5_trading_bot.Core.Settings.{Settings, live_orders_permitted}
use mt5_trading_bot.Core.Signal.{TradeIntent}
use mt5_trading_bot.Database.{Db}
use mt5_trading_bot.Risk.State.OneTrade.{allowance}
use mt5_trading_bot.Execution.Broker.{Replies}
use mt5_trading_bot.Execution.Submit.{Outcome, submit}
use mt5_trading_bot.Execution.Submit.Once.{submit-Effect}

-- One call of `submit`, with what the other processes commit in its course.
pub record Attempt : Type 0 where
  pub intent : TradeIntent
  pub replies : Replies
  pub rivals : Db → Db
  pub now : ℕ

module _ (digest : TradeIntent → Text) (settings : Settings) where
  unfoldable pub attempt : Attempt → Db → Outcome × Db
  attempt a db = submit digest settings a.intent a.replies a.rivals a.now db

  -- All the orders sent.
  unfoldable pub sends : List Attempt → Db → ℕ
  unfolding attempt
  sends [] db = 0
  sends (a ∷ rest) db =
      (if is_some (attempt a db).0.sent then 1 else 0) + sends rest (attempt a db).1

  sends_step :
      (a : Attempt) (db : Db)
      → live_orders_permitted settings ≡ true
      → allowance (a.rivals db) ≤ allowance db
      → (if is_some (attempt a db).0.sent then 1 else 0) + allowance (attempt a db).1 ≤ allowance db
  unfolding attempt
  sends_step a db live le =
      elim (submit-Effect [] digest settings a.intent a.replies a.rivals a.now db) [
        | inl (_, unsent, same) ↦ rw (unsent, same) (omega arith)
        | inr (_, effect) ↦ omega (arith, effect.spent live)
      ]

  -- In live mode, as long as no operator gives a new authorization: all submissions together send
  -- no more orders than the persisted authorization allows, which is at most one.
  pub sends-le-allowance :
      (attempts : List Attempt) (db : Db)
      → live_orders_permitted settings ≡ true
      → All (λ (a : Attempt). (d : Db) → allowance (a.rivals d) ≤ allowance d) attempts
      → sends attempts db ≤ allowance db
  unfolding sends
  sends-le-allowance [] db live never_more = omega arith
  sends-le-allowance (a ∷ rest) db live (le, le_rest) =
      omega
        (arith, sends_step a db live (le db), sends-le-allowance rest (attempt a db).1 live le_rest)
