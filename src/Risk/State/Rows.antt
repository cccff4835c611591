-- ===== src/Risk/State/Rows.antt =====
-- Laws of the per-day rows: what a read finds after a row was added or replaced.
use mt5_trading_bot.Base.{
  ℕ, ◌≢◌, ◌++◌, ◌≤◌, ◌≡◌, refl, ◌⊎◌, inl, inr, Bool, true, false, ◌||◌, leb, ◌==◌, if◌then◌else◌,
  Option, none, some, List, [], ◌∷◌, ◌++◌, arith, Option-cases, or_else, is_some,
}
use mt5_trading_bot.Database.{Db, RiskRow}
use mt5_trading_bot.Risk.State.{
  find_row, latest, new_row, replace_row, load, update_row, target_day,
}

pub find_row-day : (d : ℕ) (rs : List RiskRow) (r : RiskRow) → find_row d rs ≡ some r → r.day ≡ d
unfolding find_row
find_row-day d [] r h = ground arith
find_row-day d (x ∷ rs) r h = ground (arith, find_row-day d rs r)

abbrev pub row_if : Bool → RiskRow → Option RiskRow
row_if true r = some r
row_if false r = none

pub find_row-append :
    (d : ℕ) (rs : List RiskRow) (r : RiskRow)
    → find_row d (rs ++ r ∷ []) ≡ or_else (find_row d rs) (row_if (r.day == d) r)
unfolding find_row
find_row-append d [] r = ground arith
find_row-append d (x ∷ rs) r = ground (arith, find_row-append d rs r)

pub find_row-replace :
    (d : ℕ) (r : RiskRow) (rs : List RiskRow)
    → find_row d (replace_row r rs)
      ≡ (if r.day == d then row_if (is_some (find_row d rs)) r else find_row d rs)
unfolding find_row replace_row
find_row-replace d r [] = ground arith
find_row-replace d r (x ∷ rs) = ground (arith, find_row-replace d r rs)

-- The row of the latest day is the one a read of that day finds.
pub latest-find_row :
    (rs : List RiskRow) (m : RiskRow) → latest rs ≡ some m → find_row m.day rs ≡ some m
unfolding latest find_row
latest-find_row [] m h = ground arith
latest-find_row (r ∷ rs) m h = elim (Option-cases (latest rs)) [
  | inl e ↦ ground arith
  | inr (n, e) ↦ ground (arith, latest-find_row rs n e)
]

-- Some row stands at day D or later.
unfoldable pub reaches : ℕ → List RiskRow → Bool
reaches D [] = false
reaches D (r ∷ rs) = leb D r.day || reaches D rs

pub find_row-reaches :
    (D : ℕ) (rs : List RiskRow) (r : RiskRow) → find_row D rs ≡ some r → reaches D rs ≡ true
unfolding reaches find_row
find_row-reaches D [] r h = cc
find_row-reaches D (x ∷ rs) r h = ground (arith, find_row-reaches D rs r)

pub reaches-append :
    (D : ℕ) (rs : List RiskRow) (r : RiskRow)
    → reaches D rs ≡ true
    → reaches D (rs ++ r ∷ []) ≡ true
unfolding reaches
reaches-append D [] r h = ground arith
reaches-append D (x ∷ rs) r h = ground (arith, reaches-append D rs r)

pub reaches-replace :
    (D : ℕ) (r : RiskRow) (rs : List RiskRow) → reaches D (replace_row r rs) ≡ reaches D rs
unfolding reaches replace_row
reaches-replace D r [] = refl
reaches-replace D r (x ∷ rs) = ground (arith, reaches-replace D r rs)

latest-ne-none : (D : ℕ) (rs : List RiskRow) → reaches D rs ≡ true → latest rs ≡ none → ⊥
unfolding reaches latest
latest-ne-none D [] h e = ground arith
latest-ne-none D (r ∷ rs) h e = elim (Option-cases (latest rs)) [
  | inl f ↦ ground arith
  | inr (n, f) ↦ ground arith
]

latest-reaches_le :
    (D : ℕ) (rs : List RiskRow) (m : RiskRow) → reaches D rs ≡ true → latest rs ≡ some m → D ≤ m.day
unfolding reaches latest
latest-reaches_le D [] m h e = ground arith
latest-reaches_le D (r ∷ rs) m h e = elim (Option-cases (latest rs)) [
  | inl f ↦ ground (arith, λ (g : reaches D rs ≡ true). latest-ne-none D rs g f)
  | inr (n, f) ↦ ground (arith, latest-reaches_le D rs n)
]

pub latest-reaches :
    (D : ℕ) (rs : List RiskRow)
    → reaches D rs ≡ true
    → (m : RiskRow) × (latest rs ≡ some m) × (D ≤ m.day)
latest-reaches D rs h = elim (Option-cases (latest rs)) [
  | inl e ↦ absurd (latest-ne-none D rs h e)
  | inr (m, e) ↦ (m, e, latest-reaches_le D rs m h e)
]

-- A read finds the day's row, or adds it.
pub load-cases :
    (now : ℕ) (day : Option ℕ) (db : Db)
    → let d = target_day now day in
      let row = new_row now d (latest db.risk_rows) in
      ((r : RiskRow) × (find_row d db.risk_rows ≡ some r) × (load now day db ≡ (r, db)))
      ⊎ (find_row d db.risk_rows ≡ none)
        × (load now day db ≡ (row, record db { risk_rows = db.risk_rows ++ row ∷ [] }))
unfolding load
load-cases now day db = elim (Option-cases (find_row (target_day now day) db.risk_rows)) [
  | inl e ↦ inr (e, rw (e, load))
  | inr (r, e) ↦ inl (r, e, rw (e, load))
]

pub new_row-day : (now d : ℕ) (previous : Option RiskRow) → (new_row now d previous).day ≡ d
unfolding new_row
new_row-day now d previous = refl

-- A read returns the row that its day now has.
pub load_found :
    (now : ℕ) (day : Option ℕ) (db : Db)
    → (find_row (target_day now day) (load now day db).1.risk_rows ≡ some (load now day db).0)
      × ((load now day db).0.day ≡ target_day now day)
load_found now day db = elim (load-cases now day db) [
  | inl (r, found, e) ↦ rw e (found, find_row-day (target_day now day) db.risk_rows r found)
  | inr (missing, e) ↦
      let d = target_day now day in
      let row = new_row now d (latest db.risk_rows) in
      rw e (
        ground (
          arith,
          missing,
          find_row-append d db.risk_rows row,
          new_row-day now d (latest db.risk_rows),
        ),
        new_row-day now d (latest db.risk_rows),
      )
]

-- It leaves the rows of the other days alone.
pub load_other :
    (d now : ℕ) (day : Option ℕ) (db : Db)
    → d ≢ target_day now day
    → find_row d (load now day db).1.risk_rows ≡ find_row d db.risk_rows
load_other d now day db ne = elim (load-cases now day db) [
  | inl (r, found, e) ↦ rw e
  | inr (missing, e) ↦
      let t = target_day now day in
      let row = new_row now t (latest db.risk_rows) in
      rw e (
        ground (arith, find_row-append d db.risk_rows row, new_row-day now t (latest db.risk_rows)))
]

-- A change of the day's row is what a later read finds; the other days keep theirs.
pub update_row_found :
    (f : RiskRow → RiskRow) (now : ℕ) (day : Option ℕ) (db : Db)
    → ((r : RiskRow) → (f r).day ≡ r.day)
    → find_row (target_day now day) (update_row f now day db).1.risk_rows
      ≡ some (f (load now day db).0)
unfolding update_row
update_row_found f now day db same =
    let (r, db') = load now day db in
    let (found, at) = load_found now day db in
    ground (arith, find_row-replace (target_day now day) (f r) db'.risk_rows, same r)

pub update_row_other :
    (f : RiskRow → RiskRow) (d now : ℕ) (day : Option ℕ) (db : Db)
    → ((r : RiskRow) → (f r).day ≡ r.day)
    → d ≢ target_day now day
    → find_row d (update_row f now day db).1.risk_rows ≡ find_row d db.risk_rows
unfolding update_row
update_row_other f d now day db same ne =
    let (r, db') = load now day db in
    let (found, at) = load_found now day db in
    ground (arith, find_row-replace d (f r) db'.risk_rows, same r, load_other d now day db ne)
