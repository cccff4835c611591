-- ===== src/Tests/Market.antt =====
-- The lease of the market loop at concrete inputs.
use mt5_trading_bot.Base.{
  ◌+◌, ◌<◌, ◌≡◌, ◌≤◌, ◌↔◌, refl, true, false, none, some, [], ◌∷◌, arith, some_inj,
}
use mt5_trading_bot.Core.Text.{Text, text_eq}
use mt5_trading_bot.Database.{LockRow}
use mt5_trading_bot.Market.Lease.{acquire, commit, fresh_lease}
use mt5_trading_bot.Market.Lease.Processes.{
  System, reads, commits, Reach, start, later, init, after_read, after_commit, Undisturbed, Leads,
}
use mt5_trading_bot.Market.Lease.Leaders.{one_leader}
use mt5_trading_bot.Market.Lease.Race.{both_take_over, acquire-stale}

abbrev first_process : Text
first_process = b'a' ∷ []

abbrev second_process : Text
second_process = b'b' ∷ []

abbrev third_process : Text
third_process = b'c' ∷ []

-- Two processes read that there is no row, and then the first one commits.
abbrev both_looked : System
both_looked = after_read second_process 1000 (after_read first_process 1000 (init none 1000))

looks : both_looked.looked first_process ≡ some (1000, none)
unfolding after_read text_eq
looks = refl

abbrev led : System
led = after_commit 60 first_process 1000 none both_looked

in_order : (after_read first_process 1000 (init none 1000)).clock ≤ 1000
unfolding after_read
in_order = omega arith

abbrev reached : Reach 60 none 1000 led
reached =
    later
      (later (later start (reads first_process 1000 (omega arith)))
        (reads second_process 1000 in_order))
      (commits first_process 1000 none looks)

undisturbed : Undisturbed reached
unfolding after_read
undisturbed = (((tt, tt), tt), refl)

leads : Leads 60 led first_process
unfolding after_read after_commit text_eq commit
leads = (1000, refl, omega arith)

one_leader_example : first_process ≡ first_process
one_leader_example =
    one_leader {s = led} reached undisturbed first_process first_process leads leads

not_first : text_eq third_process first_process ≡ false
unfolding text_eq
not_first = refl

not_second : text_eq third_process second_process ≡ false
unfolding text_eq
not_second = refl

both_take_over_example :
    (let (first, row) =
        commit first_process 60 2000
          (some (fresh_lease third_process 1000))
          (some (fresh_lease third_process 1000)) in
      let (second, row') =
        commit second_process 60 2001 (some (fresh_lease third_process 1000)) row in
      (first ≡ true) × (second ≡ true) × (row' ≡ some (fresh_lease second_process 2001)))
both_take_over_example =
    both_take_over first_process second_process 60 2000 2001 (fresh_lease third_process 1000)
      not_first not_second (omega arith) (omega arith)

foreign :
    (row : LockRow)
    → some (fresh_lease third_process 1000) ≡ some row
    → text_eq row.owner first_process ≡ false
unfolding text_eq
foreign row e = rw (← some_inj e) refl

acquire-stale_example :
    ((acquire first_process 60 2000 (some (fresh_lease third_process 1000))).0 ≡ true) ↔ (
      (row : LockRow)
      → some (fresh_lease third_process 1000) ≡ some row
      → row.heartbeat_at + 60 < 2000)
acquire-stale_example =
    acquire-stale first_process 60 2000 (some (fresh_lease third_process 1000)) foreign
