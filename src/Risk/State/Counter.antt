-- ===== src/Risk/State/Counter.antt =====
-- The trade counter of a day over later operations.
use mt5_trading_bot.Base.{
  ℕ, ◌+◌, ◌≡◌, ◌≢◌, ◌↔◌, ◌∙◌, refl, inl, inr, true, false, ◌==◌, if◌then◌else◌, Option, none, some,
  List, [], ◌∷◌, arith,
}
use mt5_trading_bot.Database.{Db, RiskRow}
use mt5_trading_bot.Risk.State.{
  find_row, new_row, load, update_row, target_day, add_realized_pnl, observe_equity,
  register_trade_opened, commit_count, set_emergency_locked, set_kill_switch, clear_kill_switch,
  one_trade_authorization, consume_one_trade_authorization, authorize_one_trade, trades_opened,
  book, count_from, with_lock, latch, see_equity,
}
use mt5_trading_bot.Risk.State.Rows.{
  load-cases, load_found, load_other, update_row_found, update_row_other,
}
use mt5_trading_bot.Risk.State.Operations.{
  StoreOp, load_row, opened, clear, lock, unlock, realized, observed, kill, read_authorization,
  consume, rearm, apply, run,
}
use native.Mathlib.Decide.{ℕ_discrete}

-- How many trades the row of a day counts; 0 where it has none.
abbrev count_of : Option RiskRow → ℕ
count_of none = 0
count_of (some r) = r.trades_opened

unfoldable pub counted : ℕ → Db → ℕ
counted d db = count_of (find_row d db.risk_rows)

pub load-counted_self :
    (now : ℕ) (day : Option ℕ) (db : Db)
    → (load now day db).0.trades_opened ≡ counted (target_day now day) db
unfolding counted new_row
load-counted_self now day db = elim (load-cases now day db) [
  | inl (r, found, e) ↦ rw (e, found)
  | inr (missing, e) ↦ rw (e, missing)
]

pub load-counted :
    (d now : ℕ) (day : Option ℕ) (db : Db) → counted d (load now day db).1 ≡ counted d db
load-counted d now day db = elim (ℕ_discrete d (target_day now day)) [
  | yes same ↦ unfold counted in ground (arith, load_found now day db, load-counted_self now day db)
  | no other ↦ unfold counted in rw (load_other d now day db other)
]

-- 1 for an operation that counts a trade on day d.
abbrev pub opens : ℕ → ℕ → StoreOp → ℕ
opens d now (opened day) = if target_day now day == d then 1 else 0
opens d now _ = 0

unfoldable pub opened_on : ℕ → List (ℕ × StoreOp) → ℕ
opened_on d [] = 0
opened_on d ((now, op) ∷ ops) = opens d now op + opened_on d ops

update-counted :
    (f : RiskRow → RiskRow) (k d now : ℕ) (day : Option ℕ) (db : Db)
    → ((r : RiskRow) → (f r).day ≡ r.day)
    → ((r : RiskRow) → (f r).trades_opened ≡ r.trades_opened + k)
    → counted d (update_row f now day db).1
      ≡ counted d db + (if target_day now day == d then k else 0)
update-counted f k d now day db same adds = elim (ℕ_discrete d (target_day now day)) [
  | yes e ↦
      unfold counted in
      ground (
        arith,
        update_row_found f now day db same,
        adds (load now day db).0,
        load-counted_self now day db,
      )
  | no other ↦ unfold counted in ground (arith, update_row_other f d now day db same other)
]

unchanged :
    (f : RiskRow → RiskRow) (d now : ℕ) (day : Option ℕ) (db : Db)
    → ((r : RiskRow) → (f r).day ≡ r.day)
    → ((r : RiskRow) → (f r).trades_opened ≡ r.trades_opened)
    → counted d (update_row f now day db).1 ≡ counted d db + 0
unchanged f d now day db same keeps =
    ground (arith, update-counted f 0 d now day db same (λ r. omega (arith, keeps r)))

abbrev OnAuthorization : StoreOp → Type 0
OnAuthorization read_authorization = Unit
OnAuthorization (consume _ _) = Unit
OnAuthorization (rearm _) = Unit
OnAuthorization _ = ⊥

authorization_counted :
    (d now : ℕ) (op : StoreOp) (db : Db)
    → OnAuthorization op
    → counted d (apply now op db) ≡ counted d db + opens d now op
unfolding apply counted one_trade_authorization consume_one_trade_authorization authorize_one_trade
authorization_counted d now read_authorization db h = ground arith
authorization_counted d now (consume t r) db h = ground arith
authorization_counted d now (rearm r) db h = ground arith
authorization_counted d now (load_row day) db h = absurd h
authorization_counted d now (opened day) db h = absurd h
authorization_counted d now (clear day) db h = absurd h
authorization_counted d now (lock day) db h = absurd h
authorization_counted d now (unlock day) db h = absurd h
authorization_counted d now (realized x day) db h = absurd h
authorization_counted d now (observed x day) db h = absurd h
authorization_counted d now (kill m day) db h = absurd h

-- The commit leaves what its process read plus one, whatever the row counts by then.
commit-counted_self :
    (seen now : ℕ) (day : Option ℕ) (db : Db)
    → counted (target_day now day) (commit_count seen now day db).1 ≡ seen + 1
unfolding commit_count
commit-counted_self seen now day db =
    unfold counted in ground (arith, update_row_found (count_from seen) now day db (λ r. refl))

commit-counted_other :
    (seen d now : ℕ) (day : Option ℕ) (db : Db)
    → d ≢ target_day now day
    → counted d (commit_count seen now day db).1 ≡ counted d db
unfolding commit_count
commit-counted_other seen d now day db other =
    unfold counted in
    ground (arith, update_row_other (count_from seen) d now day db (λ r. refl) other)

apply-counted :
    (d now : ℕ) (op : StoreOp) (db : Db)
    → counted d (apply now op db) ≡ counted d db + opens d now op
unfolding apply register_trade_opened commit_count clear_kill_switch set_emergency_locked
    add_realized_pnl observe_equity set_kill_switch
apply-counted d now (load_row day) db = omega (arith, load-counted d now day db)
apply-counted d now (opened day) db =
    let seen = (load now day db).0.trades_opened in
    elim (ℕ_discrete d (target_day now day)) [
      | yes e ↦ ground (arith, commit-counted_self seen now day db, load-counted_self now day db, e)
      | no other ↦ ground (arith, commit-counted_other seen d now day db other)
    ]
apply-counted d now (clear day) db = unchanged (latch none) d now day db (λ r. refl) (λ r. refl)
apply-counted d now (lock day) db = unchanged (with_lock true) d now day db (λ r. refl) (λ r. refl)
apply-counted d now (unlock day) db =
    unchanged (with_lock false) d now day db (λ r. refl) (λ r. refl)
apply-counted d now (realized x day) db = unchanged (book x) d now day db (λ r. refl) (λ r. refl)
apply-counted d now (observed none day) db = omega (arith, load-counted d now day db)
apply-counted d now (observed (some x) day) db =
    unchanged (see_equity x) d now day db (λ r. refl) (λ r. refl)
apply-counted d now (kill m day) db =
    unchanged (latch (some m)) d now day db (λ r. refl) (λ r. refl)
apply-counted d now read_authorization db = authorization_counted d now read_authorization db tt
apply-counted d now (consume t r) db = authorization_counted d now (consume t r) db tt
apply-counted d now (rearm r) db = authorization_counted d now (rearm r) db tt

-- After whole operations, one after the other and on any days, a read of the day finds what it
-- counted before plus the trades registered for that day since.
trades_opened-run :
    (ops : List (ℕ × StoreOp)) (db : Db) (now : ℕ) (day : Option ℕ)
    → trades_opened now day (run ops db)
      ≡ counted (target_day now day) db + opened_on (target_day now day) ops
unfolding trades_opened run opened_on
trades_opened-run [] db now day = omega (arith, load-counted_self now day db)
trades_opened-run ((at, op) ∷ ops) db now day = omega (
  arith,
  apply-counted (target_day now day) at op db,
  trades_opened-run ops (apply at op db) now day,
)

-- The counter is read, increased and written back: of a registration that reads the day's counter,
-- then any operations of other processes, and then its commit, the counter shows what was read plus
-- one. So it is what the others left plus one exactly where none of them registered a trade for that
-- day; otherwise their registrations are lost.
pub commit_count-raced :
    (ops : List (ℕ × StoreOp)) (db : Db) (now : ℕ) (day : Option ℕ)
    → let shown =
        trades_opened now day (commit_count (trades_opened now day db) now day (run ops db)).1 in
      (shown ≡ trades_opened now day db + 1)
      × ((shown ≡ trades_opened now day (run ops db) + 1)
          ↔ (opened_on (target_day now day) ops ≡ 0))
unfolding trades_opened
commit_count-raced ops db now day =
    let d = target_day now day in
    let seen = (load now day db).0.trades_opened in
    let left =
      load-counted_self now day (commit_count seen now day (run ops db)).1
      ∙ commit-counted_self seen now day (run ops db) in
    let before = load-counted_self now day db in
    let others = trades_opened-run ops db now day in
    (
      left,
      (λ h. omega (arith, h, left, before, others), λ h. omega (arith, h, left, before, others)),
    )
