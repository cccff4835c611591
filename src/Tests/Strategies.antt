-- ===== src/Tests/Strategies.antt =====
-- The vote and the trailing stop at concrete inputs.
use mt5_trading_bot.Base.{ℕ, ◌≡◌, ◌≢◌, refl, true, some, List, [], ◌∷◌, keep}
use mt5_trading_bot.Num.{is_pos, int, eqb_ℚ, sum_ℚ, ltb_ℚ, ◌/ℚ◌, ◌-ℚ◌, abs}
use mt5_trading_bot.Core.Signal.{Signal, buy, hold}
use mt5_trading_bot.Strategies.Ensemble.{
  is_vote, combine, decide, weight, for_side, aggregate_of, strongest, levels_of, emitted,
}
use mt5_trading_bot.Strategies.Ensemble.Vote.{Voted, combine-Voted}
use mt5_trading_bot.Strategies.Trailing.{Holding, Observation, default_policy, proposal}
use mt5_trading_bot.Strategies.Trailing.Ratchet.{
  Protects, proposal-Protects, managed, NoWorse, managed-NoWorse, with_stop, break_even_freezes,
}
use mt5_trading_bot.Tests.Data.{demo_settings, buy_signal, eurusd, first_id}

abbrev three_votes : List Signal
three_votes = buy_signal ∷ buy_signal ∷ buy_signal ∷ []

agreed : (combine demo_settings 2000 three_votes).action ≡ buy
unfolding combine decide eqb_ℚ weight sum_ℚ ltb_ℚ for_side aggregate_of ◌/ℚ◌ ◌-ℚ◌ strongest
    levels_of emitted
agreed = refl

traded : (combine demo_settings 2000 three_votes).action ≢ hold
traded h = absurd (cc (agreed, h))

combine-Voted_example :
    Voted demo_settings (keep is_vote three_votes) (combine demo_settings 2000 three_votes)
combine-Voted_example = combine-Voted demo_settings 2000 three_votes traded

-- Bought at 100 with the stop at 90; the price gains two risks.
abbrev holding : Holding
holding = record {
  ticket = first_id;
  symbol = eurusd;
  is_buy = true;
  price_open = int 100;
  stop = int 90;
  target = int 150;
}

abbrev seen_at : ℕ → Observation
seen_at price = record { price = int price; atr = int 5; point = int 1 }

trailed :
    proposal default_policy holding (seen_at 120)
    ≡ some record { plus = 120; minus = 5; pred_den = 0 }
unfolding proposal eqb_ℚ abs ◌-ℚ◌ ltb_ℚ ◌/ℚ◌
trailed = refl

proposal-Protects_example :
    Protects default_policy holding (seen_at 120) record { plus = 120; minus = 5; pred_den = 0 }
unfolding is_pos
proposal-Protects_example =
    proposal-Protects default_policy holding (seen_at 120) _ refl refl trailed

abbrev market : List Observation
market = seen_at 104 ∷ seen_at 120 ∷ seen_at 95 ∷ []

managed-NoWorse_example : NoWorse true (managed default_policy holding market).stop (int 90)
managed-NoWorse_example = managed-NoWorse default_policy holding market

break_even_freezes_example :
    managed default_policy (with_stop holding (int 100)) market ≡ with_stop holding (int 100)
break_even_freezes_example = break_even_freezes default_policy holding market
