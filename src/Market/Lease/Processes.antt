-- ===== src/Market/Lease/Processes.antt =====
-- The processes of a deployment around one lease: the read and the commit of an acquisition are two
-- steps, between which others may take theirs; the reads are in the order of their moments; a release
-- is one step; and a process that crashes just takes no further step.
use mt5_trading_bot.Base.{ℕ, ◌+◌, ◌≤◌, ◌≡◌, Bool, true, false, if◌then◌else◌, Option, none, some}
use mt5_trading_bot.Core.Text.{Text, text_eq}
use mt5_trading_bot.Database.{LockRow}
use mt5_trading_bot.Market.Lease.{commit, release}

-- `granted` is the moment at which a process last became or stayed leader, as long as it takes itself
-- for the leader (`state.leader`); `looked` is when it read the row, and what it read, until it commits.
pub record System : Type 0 where
  pub lease : Option LockRow
  pub clock : ℕ
  pub granted : Text → Option ℕ
  pub looked : Text → Option (ℕ × Option LockRow)

abbrev pub put : {A : Type 0} → Text → A → (Text → A) → Text → A
put me v f o = if text_eq me o then v else f o

abbrev pub grant : Bool → ℕ → Option ℕ
grant true now = some now
grant false now = none

unfoldable pub after_read : Text → ℕ → System → System
after_read me now s = record s { clock = now; looked = put me (some (now, s.lease)) s.looked }

unfoldable pub after_commit : ℕ → Text → ℕ → Option LockRow → System → System
after_commit ttl me now seen s =
    let (won, row) = commit me ttl now seen s.lease in
    record s {
      lease = row;
      granted = put me (grant won now) s.granted;
      looked = put me none s.looked;
    }

unfoldable pub after_release : Text → System → System
after_release me s = record s { lease = release me s.lease; granted = put me none s.granted }

pub data Step (ttl : ℕ) (s : System) : System → Type 0 where
  reads : (me : Text) (now : ℕ) → s.clock ≤ now → Step ttl s (after_read me now s)
  commits :
      (me : Text) (now : ℕ) (seen : Option LockRow)
      → s.looked me ≡ some (now, seen)
      → Step ttl s (after_commit ttl me now seen s)
  releases : (me : Text) → Step ttl s (after_release me s)

-- A deployment starts with no leader, and with whatever row an earlier one left behind.
abbrev pub init : Option LockRow → ℕ → System
init left clock = record { lease = left; clock = clock; granted = λ o. none; looked = λ o. none }

pub data Reach (ttl : ℕ) (left : Option LockRow) (clock : ℕ) : System → Type 0 where
  start : Reach ttl left clock (init left clock)
  later : {s t : System} → Reach ttl left clock s → Step ttl s t → Reach ttl left clock t

-- A commit finds the row that its process read.
abbrev pub Kept : {ttl : ℕ} {s t : System} → Step ttl s t → Type 0
Kept (reads me now far) = Unit
Kept {s = s} (commits me now seen h) = seen ≡ s.lease
Kept (releases me) = Unit

-- Every commit of a run does.
abbrev pub Undisturbed :
    {ttl : ℕ} {left : Option LockRow} {clock : ℕ} {s : System} → Reach ttl left clock s → Type 0
Undisturbed start = Unit
Undisturbed (later r st) = Undisturbed r × Kept st

-- The process took or renewed the lease at most `ttl` ago and has not given it up.
abbrev pub Leads : ℕ → System → Text → Type 0
Leads ttl s o = (t : ℕ) × (s.granted o ≡ some t) × (s.clock ≤ t + ttl)
