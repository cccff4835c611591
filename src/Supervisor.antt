-- ===== src/Supervisor.antt =====
-- runtime/engine_service.py: the runner that restarts the engine. What each run of the process does is
-- given, one after the other; log lines and the delay between runs are left out.
pub mod Restart
use mt5_trading_bot.Base.{
  ℕ, zero, suc, Bool, true, false, not, ◌&&◌, ◌||◌, ◌==◌, if◌then◌else◌, Option, none, some,
}

-- How `serve` ends.
pub data Serving : Type 0 where
  returned interrupted crashed : Serving

-- One round of the loop: the stop flag before the engine starts, the end of the engine, and the stop
-- flag after it.
pub record Round : Type 0 where
  pub stop_before : Bool
  pub serving : Serving
  pub stop_after : Bool

abbrev code_of : Serving → ℕ
code_of returned = 0
code_of interrupted = 0
code_of crashed = 1

unfoldable pub single_run : Round → ℕ
single_run r = if r.stop_before then 0 else code_of r.serving

-- The loop returns after this round.
unfoldable pub ends : Round → Bool
unfolding single_run
ends r = r.stop_after || single_run r == 0

-- `run_forever` from a round on, as far as the fuel goes: the number of rounds made.
unfoldable pub run_forever : ℕ → (ℕ → Round) → ℕ → Option ℕ
unfolding ends
run_forever zero rounds i = none
run_forever (suc fuel) rounds i =
    let rest = run_forever fuel rounds (suc i) in if ends (rounds i) then some (suc i) else rest

-- What the API answers while trading is resumed.
pub record ResumeReplies : Type 0 where
  pub auto_start_trading : Bool
  pub api_ready : Bool
  pub status : Option ℕ

-- `resume_trading`: `status` is `none` where the request raised.
unfoldable pub resume_trading : ResumeReplies → Bool
resume_trading r =
    if not r.auto_start_trading
    then false
    else if not r.api_ready
    then false
    else elim r.status [ none ↦ false | some code ↦ code == 200 ]
