-- ===== src/Risk/State.antt =====
-- app/risk/state.py: the durable session risk state and the single live-trade authorization. Each
-- operation is given the time and a day, `none` for today, and returns its result with the new
-- tables. A commit succeeds; the callers that catch a failing store model it on their side.
pub mod Rows
pub mod Operations
pub mod Lock
pub mod Counter
pub mod OneTrade
use mt5_trading_bot.Base.{
  ℕ, suc, ◌+◌, ◌/◌, Bool, true, false, not, ltb, leb, ◌==◌, if◌then◌else◌, Option, none, some, List,
  [], ◌∷◌, ◌++◌, is_none, unwrap_or,
}
use mt5_trading_bot.Num.{ℚ, int, neg, ◌+ℚ◌, ltb_ℚ, max_ℚ}
use mt5_trading_bot.Core.Text.{Text, is_empty}
use mt5_trading_bot.Core.Message.{Message}
use mt5_trading_bot.Database.{Db, RiskRow, AuthorizationRow}

abbrev pub today : ℕ → ℕ
today now = now / 86400

abbrev pub target_day : ℕ → Option ℕ → ℕ
target_day now day = unwrap_or day (today now)

unfoldable pub find_row : ℕ → List RiskRow → Option RiskRow
find_row d [] = none
find_row d (r ∷ rs) = if r.day == d then some r else find_row d rs

-- `order_by(day.desc()).limit(1)`
unfoldable pub latest : List RiskRow → Option RiskRow
latest [] = none
latest (r ∷ rs) = elim (latest rs) [
  | none ↦ some r
  | some m ↦ if ltb r.day m.day then some m else some r
]

starting_of : Option RiskRow → Option ℚ
starting_of none = none
starting_of (some r) = r.starting_equity

peak_of : Option RiskRow → Option ℚ
peak_of none = none
peak_of (some r) = r.peak_equity

locked_of : Option RiskRow → Bool
locked_of none = false
locked_of (some r) = r.emergency_locked

-- The row of a day that has none yet.
unfoldable pub new_row : ℕ → ℕ → Option RiskRow → RiskRow
unfolding starting_of peak_of locked_of
new_row now day previous = record {
  day = day;
  realized_pnl = int 0;
  starting_equity = starting_of previous;
  peak_equity = peak_of previous;
  emergency_locked = locked_of previous;
  trades_opened = 0;
  session_started_at = some now;
  kill_switch_reason = none;
}

unfoldable pub load : ℕ → Option ℕ → Db → RiskRow × Db
load now day db =
    let d = target_day now day in
    let row = new_row now d (latest db.risk_rows) in
    elim (find_row d db.risk_rows) [
      | some r ↦ (r, db)
      | none ↦ (row, record db { risk_rows = db.risk_rows ++ row ∷ [] })
    ]

-- The row of a day takes the place of the one that was there.
unfoldable pub replace_row : RiskRow → List RiskRow → List RiskRow
replace_row r [] = []
replace_row r (x ∷ xs) = if x.day == r.day then r ∷ xs else x ∷ replace_row r xs

-- `row = self.load(day)`, a change of the row, and the commit.
unfoldable pub update_row : (RiskRow → RiskRow) → ℕ → Option ℕ → Db → RiskRow × Db
unfolding load
update_row f now day db =
    let (row, db') = load now day db in
    (f row, record db' { risk_rows = replace_row (f row) db'.risk_rows })

-- What each operation does to its row.
abbrev pub book : ℚ → RiskRow → RiskRow
book amount r = record r { realized_pnl = r.realized_pnl +ℚ amount }

abbrev pub count_from : ℕ → RiskRow → RiskRow
count_from seen r = record r { trades_opened = seen + 1 }

abbrev pub with_lock : Bool → RiskRow → RiskRow
with_lock locked r = record r { emergency_locked = locked }

abbrev pub latch : Option Message → RiskRow → RiskRow
latch reason r = record r { kill_switch_reason = reason }

unfoldable pub add_realized_pnl : ℚ → ℕ → Option ℕ → Db → RiskRow × Db
unfolding update_row
add_realized_pnl amount = update_row (book amount)

-- The first equity of a deployment, and its high-water mark.
abbrev pub higher : ℚ → Option ℚ → Option ℚ
higher e none = some e
higher e (some p) = if ltb_ℚ p e then some e else some p

abbrev pub first_or : ℚ → Option ℚ → Option ℚ
first_or e none = some e
first_or e (some s) = some s

abbrev pub see_equity : ℚ → RiskRow → RiskRow
see_equity e r = record r {
  starting_equity = first_or e r.starting_equity;
  peak_equity = higher e r.peak_equity;
}

unfoldable pub observe_equity : Option ℚ → ℕ → Option ℕ → Db → RiskRow × Db
unfolding update_row load
observe_equity none now day db = load now day db
observe_equity (some e) now day db = update_row (see_equity e) now day db

-- The commit of a process that read the counter at `seen`, on the tables that are there by then.
unfoldable pub commit_count : ℕ → ℕ → Option ℕ → Db → RiskRow × Db
unfolding update_row
commit_count seen = update_row (count_from seen)

-- `register_trade_opened` with nothing between its read and its commit.
unfoldable pub register_trade_opened : ℕ → Option ℕ → Db → RiskRow × Db
unfolding load commit_count
register_trade_opened now day db = commit_count (load now day db).0.trades_opened now day db

unfoldable pub trades_opened : ℕ → Option ℕ → Db → ℕ
unfolding load
trades_opened now day db = (load now day db).0.trades_opened

unfoldable pub set_emergency_locked : Bool → ℕ → Option ℕ → Db → RiskRow × Db
unfolding update_row
set_emergency_locked locked = update_row (with_lock locked)

-- The code skips the write where the reason is the one stored, which leaves the same row.
unfoldable pub set_kill_switch : Message → ℕ → Option ℕ → Db → RiskRow × Db
unfolding update_row
set_kill_switch reason = update_row (latch (some reason))

unfoldable pub clear_kill_switch : ℕ → Option ℕ → Db → RiskRow × Db
unfolding update_row
clear_kill_switch = update_row (latch none)

unfoldable pub session_loss : RiskRow → ℚ
session_loss r = max_ℚ (int 0) (neg r.realized_pnl)

-- `trade_id or None`
abbrev non_empty : Text → Option Text
non_empty t = if is_empty t then none else some t

abbrev unspent : AuthorizationRow
unspent = record {
  consumed = false;
  consumed_at = none;
  consumed_trade_id = none;
  consumed_reason = none;
}

unfoldable pub one_trade_authorization : Db → AuthorizationRow × Db
one_trade_authorization db = elim db.authorization [
  | some row ↦ (row, db)
  | none ↦ (unspent, record db { authorization = some unspent })
]

-- The conditional UPDATE: one statement, so of two callers one reads a row count of one.
unfoldable pub consume_one_trade_authorization : Text → Text → ℕ → Db → Bool × Db
unfolding one_trade_authorization
consume_one_trade_authorization trade_id reason now db =
    let (row, db') = one_trade_authorization db in
    if row.consumed then (false, db') else (
      true,
      record db' {
        authorization = some record {
          consumed = true;
          consumed_at = some now;
          consumed_trade_id = non_empty trade_id;
          consumed_reason = non_empty reason;
        };
      },
    )

unfoldable pub authorize_one_trade : Text → Db → AuthorizationRow × Db
unfolding one_trade_authorization
authorize_one_trade reason db =
    let (row, db') = one_trade_authorization db in
    let row' : AuthorizationRow = record {
      consumed = false;
      consumed_at = none;
      consumed_trade_id = none;
      consumed_reason = non_empty reason;
    } in
    (row', record db' { authorization = some row' })
