-- ===== src/Tests/Supervisor.antt =====
-- The runner at concrete inputs.
use mt5_trading_bot.Base.{ℕ, zero, suc, inr, false}
use mt5_trading_bot.Supervisor.{Round, crashed, returned}
use mt5_trading_bot.Supervisor.Restart.{Finished, Returned, run_forever-Returned}

-- The engine crashes twice and then exits.
abbrev rounds : ℕ → Round
rounds zero = record { stop_before = false; serving = crashed; stop_after = false }
rounds (suc zero) = record { stop_before = false; serving = crashed; stop_after = false }
rounds (suc (suc n)) = record { stop_before = false; serving = returned; stop_after = false }

third_ends : Finished (rounds 2)
third_ends = inr (inr (λ h. absurd (cc h)))

run_forever-Returned_example : Returned rounds 0 2
run_forever-Returned_example = run_forever-Returned rounds 0 2 third_ends
