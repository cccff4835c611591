-- ===== src/Risk/State/Lock.antt =====
-- The emergency lock over later operations and days.
use mt5_trading_bot.Base.{
  ℕ, ◌≤◌, ◌≡◌, refl, inl, inr, Bool, true, false, Option, none, some, List, [], ◌∷◌, ◌++◌, arith,
  Option-cases, All,
}
use mt5_trading_bot.Core.Text.{Text}
use mt5_trading_bot.Database.{Db, RiskRow}
use mt5_trading_bot.Risk.State.{
  find_row, latest, new_row, replace_row, load, update_row, target_day, add_realized_pnl,
  observe_equity, register_trade_opened, commit_count, set_emergency_locked, set_kill_switch,
  clear_kill_switch, one_trade_authorization, consume_one_trade_authorization, authorize_one_trade,
}
use mt5_trading_bot.Risk.State.Rows.{
  find_row-day, find_row-append, find_row-replace, latest-find_row, reaches, reaches-append,
  reaches-replace, latest-reaches, update_row_found, update_row_other, find_row-reaches,
}
use native.Mathlib.Decide.{ℕ_discrete}
use mt5_trading_bot.Risk.State.Operations.{
  StoreOp, load_row, opened, clear, lock, unlock, realized, observed, kill, read_authorization,
  consume, rearm, apply, run,
}
use mt5_trading_bot.Risk.State.{book, count_from, with_lock, latch, see_equity}

-- Every row of day D or later that a read can find is locked, and there is such a row.
pub record LockedFrom (D : ℕ) (rs : List RiskRow) : Type 0 where
  pub held : (d : ℕ) (r : RiskRow) → D ≤ d → find_row d rs ≡ some r → r.emergency_locked ≡ true
  pub reached : reaches D rs ≡ true

-- A row of a later day inherits the lock.
new_row_locked :
    (D now d : ℕ) (rs : List RiskRow)
    → LockedFrom D rs
    → (new_row now d (latest rs)).emergency_locked ≡ true
unfolding new_row
new_row_locked D now d rs h =
    let (m, e, far) = latest-reaches D rs h.reached in
    rw e (h.held m.day m far (latest-find_row rs m e))

append-LockedFrom :
    (D : ℕ) (rs : List RiskRow) (r : RiskRow)
    → LockedFrom D rs
    → r.emergency_locked ≡ true
    → LockedFrom D (rs ++ r ∷ [])
append-LockedFrom D rs r h locked = record {
  held = λ d x far e. ground (arith, find_row-append d rs r, h.held d x far);
  reached = reaches-append D rs r h.reached;
}

replace_row-LockedFrom :
    (D : ℕ) (r : RiskRow) (rs : List RiskRow)
    → LockedFrom D rs
    → (D ≤ r.day → r.emergency_locked ≡ true)
    → LockedFrom D (replace_row r rs)
replace_row-LockedFrom D r rs h locked = record {
  held = λ d x far e. ground (arith, find_row-replace d r rs, h.held d x far);
  reached = rw (reaches-replace D r rs) h.reached;
}

-- A read keeps the invariant, and from day D on its row is locked.
abbrev Loaded : ℕ → ℕ → RiskRow × Db → Type 0
Loaded D d (r, db) = LockedFrom D db.risk_rows × (r.day ≡ d) × (D ≤ d → r.emergency_locked ≡ true)

pub load-Loaded :
    (D now : ℕ) (day : Option ℕ) (db : Db)
    → LockedFrom D db.risk_rows
    → Loaded D (target_day now day) (load now day db)
unfolding load
load-Loaded D now day db h =
    let d = target_day now day in
    let row = new_row now d (latest db.risk_rows) in
    let locked = new_row_locked D now d db.risk_rows h in
    elim (Option-cases (find_row d db.risk_rows)) [
      | inl e ↦
          rw (e, load)
            (append-LockedFrom D db.risk_rows row h locked, unfold new_row in refl, λ far. locked)
      | inr (r, e) ↦ rw (e, load) (h, find_row-day d db.risk_rows r e, λ far. h.held d r far e)
    ]

-- A change that leaves the day, and leaves or sets the lock, keeps the invariant.
update_LockedFrom :
    (f : RiskRow → RiskRow) (D now : ℕ) (day : Option ℕ) (db : Db)
    → ((r : RiskRow) → (f r).day ≡ r.day)
    → ((r : RiskRow) → r.emergency_locked ≡ true → (f r).emergency_locked ≡ true)
    → LockedFrom D db.risk_rows
    → LockedFrom D (update_row f now day db).1.risk_rows
unfolding update_row
update_LockedFrom f D now day db same keeps h =
    let (r, db') = load now day db in
    let (held, at, locked) = load-Loaded D now day db h in
    replace_row-LockedFrom D (f r) db'.risk_rows held
      (λ far. keeps r (locked (omega (arith, same r))))

abbrev pub is_unlock : StoreOp → Bool
is_unlock (unlock _) = true
is_unlock _ = false

consume-rows :
    (t r : Text) (now : ℕ) (db : Db)
    → (consume_one_trade_authorization t r now db).1.risk_rows ≡ db.risk_rows
unfolding consume_one_trade_authorization
consume-rows t r now db = ground arith

-- Every operation but the operator's reset keeps the lock.
apply-LockedFrom :
    (D now : ℕ) (op : StoreOp) (db : Db)
    → is_unlock op ≡ false
    → LockedFrom D db.risk_rows
    → LockedFrom D (apply now op db).risk_rows
unfolding apply register_trade_opened commit_count clear_kill_switch set_emergency_locked
    add_realized_pnl observe_equity set_kill_switch one_trade_authorization
    consume_one_trade_authorization authorize_one_trade
apply-LockedFrom D now (load_row d) db u h = (load-Loaded D now d db h).0
apply-LockedFrom D now (opened d) db u h =
    update_LockedFrom (count_from _) D now d db (λ r. refl) (λ r e. e) h
apply-LockedFrom D now (clear d) db u h =
    update_LockedFrom (latch none) D now d db (λ r. refl) (λ r e. e) h
apply-LockedFrom D now (lock d) db u h =
    update_LockedFrom (with_lock true) D now d db (λ r. refl) (λ r e. refl) h
apply-LockedFrom D now (unlock d) db u h = cc
apply-LockedFrom D now (realized x d) db u h =
    update_LockedFrom (book x) D now d db (λ r. refl) (λ r e. e) h
apply-LockedFrom D now (observed none d) db u h = (load-Loaded D now d db h).0
apply-LockedFrom D now (observed (some x) d) db u h =
    update_LockedFrom (see_equity x) D now d db (λ r. refl) (λ r e. e) h
apply-LockedFrom D now (kill m d) db u h =
    update_LockedFrom (latch (some m)) D now d db (λ r. refl) (λ r e. e) h
apply-LockedFrom D now read_authorization db u h = elim (Option-cases db.authorization) [
  | inl e ↦ rw e h
  | inr (a, e) ↦ rw e h
]
apply-LockedFrom D now (consume t r) db u h = rw (consume-rows t r now db) h
apply-LockedFrom D now (rearm r) db u h = elim (Option-cases db.authorization) [
  | inl e ↦ rw e h
  | inr (a, e) ↦ rw e h
]

abbrev pub NoUnlock : List (ℕ × StoreOp) → Type 0
NoUnlock = All (λ step. is_unlock step.1 ≡ false)

pub run-LockedFrom :
    (D : ℕ) (ops : List (ℕ × StoreOp)) (db : Db)
    → NoUnlock ops
    → LockedFrom D db.risk_rows
    → LockedFrom D (run ops db).risk_rows
unfolding run
run-LockedFrom D [] db u h = h
run-LockedFrom D ((now, op) ∷ ops) db u h =
    run-LockedFrom D ops (apply now op db) u.1 (apply-LockedFrom D now op db u.0 h)

-- No row of a later day stands in the table.
abbrev pub IsLast : ℕ → List RiskRow → Type 0
IsLast D = All (λ (r : RiskRow). r.day ≤ D)

find_row_last :
    (D d : ℕ) (rs : List RiskRow) (r : RiskRow) → IsLast D rs → find_row d rs ≡ some r → d ≤ D
unfolding find_row
find_row_last D d [] r h e = cc
find_row_last D d (x ∷ rs) r h e = ground (arith, find_row_last D d rs r h.1)

-- Locking the last day locks all from that day.
pub set_emergency_locked-LockedFrom :
    (now : ℕ) (day : Option ℕ) (db : Db)
    → IsLast (target_day now day) db.risk_rows
    → LockedFrom (target_day now day) (set_emergency_locked true now day db).1.risk_rows
unfolding set_emergency_locked
set_emergency_locked-LockedFrom now day db last = record {
  held = λ d r far e. elim (ℕ_discrete d (target_day now day)) [
    | yes same ↦ ground (arith, update_row_found (with_lock true) now day db (λ x. refl))
    | no other ↦ ground (
      arith,
      update_row_other (with_lock true) d now day db (λ x. refl) other,
      find_row_last (target_day now day) d db.risk_rows r last,
    )
  ];
  reached =
      find_row-reaches (target_day now day) _ _
        (update_row_found (with_lock true) now day db (λ x. refl));
}

-- Once the emergency lock is set on a day that no row is later than, every read of that day or of
-- a later one finds it set, whatever operations any processes made in between, except a reset.
pub emergency_lock_survives :
    (now : ℕ) (day : Option ℕ) (db : Db) (ops : List (ℕ × StoreOp)) (later : ℕ) (at : Option ℕ)
    → IsLast (target_day now day) db.risk_rows
    → NoUnlock ops
    → target_day now day ≤ target_day later at
    → (load later at (run ops (set_emergency_locked true now day db).1)).0.emergency_locked ≡ true
emergency_lock_survives now day db ops later at last u far =
    (load-Loaded (target_day now day) later at (run ops (set_emergency_locked true now day db).1) (
        run-LockedFrom (target_day now day) ops (set_emergency_locked true now day db).1 u
          (set_emergency_locked-LockedFrom now day db last))).2
      far
