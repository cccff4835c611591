-- ===== src/Market/Lease/Leaders.antt =====
-- One leader at a time.
use mt5_trading_bot.Base.{
  ℕ, ◌-◌, ◌+◌, ◌≤◌, ◌<◌, ◌≡◌, refl, sym, ap, ◌∙◌, ◌⊎◌, inl, inr, Bool, true, false, leb, Option,
  none, some, arith, Bool-cases, some_inj,
}
use mt5_trading_bot.Core.Text.{Text, text_eq, text_eq→eq, text_eq_refl}
use mt5_trading_bot.Database.{LockRow}
use mt5_trading_bot.Market.Lease.{acquire, commit, release, is_held, fresh_lease}
use mt5_trading_bot.Market.Lease.Processes.{
  System, put, grant, after_read, after_commit, after_release, Step, reads, commits, releases,
  Reach, start, later, Kept, Undisturbed, Leads,
}

-- A grant is in the row, or is older than the time to live.
abbrev Backed : ℕ → System → Text → ℕ → Type 0
Backed ttl s o t =
    ((row : LockRow) × (s.lease ≡ some row) × (row.owner ≡ o) × (row.heartbeat_at ≡ t))
    ⊎ (t + ttl < s.clock)

record Inv (ttl : ℕ) (s : System) : Type 0 where
  pub past : (o : Text) (t : ℕ) → s.granted o ≡ some t → t ≤ s.clock
  pub backed : (o : Text) (t : ℕ) → s.granted o ≡ some t → Backed ttl s o t
  pub looked_past :
      (o : Text) (t : ℕ) (seen : Option LockRow) → s.looked o ≡ some (t, seen) → t ≤ s.clock

-- What an acquisition does to the row.
abbrev Outcome : ℕ → Text → ℕ → Option LockRow → Type 0
Outcome ttl me now lease =
    let (won, row) = acquire me ttl now lease in
    ((won ≡ true)
      × ((r : LockRow) × (row ≡ some r) × (r.owner ≡ me) × (r.heartbeat_at ≡ now))
      × ((seen : LockRow)
          → lease ≡ some seen
          → (seen.owner ≡ me) ⊎ (seen.heartbeat_at + ttl < now)))
    ⊎ ((won ≡ false) × (row ≡ lease))

acquire_outcome :
    (ttl : ℕ) (me : Text) (now : ℕ) (lease : Option LockRow) → Outcome ttl me now lease
unfolding acquire is_held
acquire_outcome ttl me now none =
    inl (refl, (fresh_lease me now, refl, refl, refl), λ seen e. absurd (cc e))
acquire_outcome ttl me now (some row) = elim (Bool-cases (text_eq row.owner me)) [
  | inl mine ↦
      let same : row.owner ≡ me = text_eq→eq row.owner me mine in
      rw (mine, acquire)
        (inl (
          refl,
          (record row { heartbeat_at = now }, refl, same, refl),
          λ seen e. inl (ap (λ (r : LockRow). r.owner) (sym (some_inj e)) ∙ same),
        ))
  | inr other ↦ elim (Bool-cases (leb (now - row.heartbeat_at) ttl)) [
    | inl held ↦ rw (other, held, acquire) (inr (refl, refl))
    | inr stale ↦
        rw (other, stale, acquire)
          (inl (
            refl,
            (fresh_lease me now, refl, refl, refl),
            λ seen e. inr (rw (← some_inj e) (ground arith)),
          ))
  ]
]

put_cases :
    {A : Type 0} (me : Text) (v : A) (g : Text → A) (o : Text)
    → ((me ≡ o) × (put me v g o ≡ v)) ⊎ ((text_eq me o ≡ false) × (put me v g o ≡ g o))
put_cases me v g o = elim (Bool-cases (text_eq me o)) [
  | inl e ↦ inl (text_eq→eq me o e, rw e refl)
  | inr e ↦ inr (e, rw e refl)
]

-- A commit that finds the row it read is an acquisition.
acquired :
    (me : Text) (ttl now : ℕ) (seen : Option LockRow) (s : System)
    → seen ≡ s.lease
    → commit me ttl now seen s.lease ≡ acquire me ttl now s.lease
unfolding acquire
acquired me ttl now seen s e = rw e refl

-- Another process's grant, after an acquisition that changed the row.
kept_behind :
    (ttl : ℕ) (me : Text) (now : ℕ) (s : System) (o : Text) (t : ℕ)
    → text_eq me o ≡ false
    → now ≤ s.clock
    → Backed ttl s o t
    → ((seen : LockRow) → s.lease ≡ some seen → (seen.owner ≡ me) ⊎ (seen.heartbeat_at + ttl < now))
    → t + ttl < s.clock
kept_behind ttl me now s o t other far (inr old) stale = omega arith
kept_behind ttl me now s o t other far (inl (row, is, owner, beat)) stale = elim (stale row is) [
  | inr old ↦ omega arith
  | inl mine ↦ absurd (cc (rw (sym mine ∙ owner, text_eq_refl o) at other))
]

grant-won : (won : Bool) (now t : ℕ) → grant won now ≡ some t → (won ≡ true) × (now ≡ t)
grant-won true now t e = (refl, some_inj e)
grant-won false now t e = absurd (cc e)

module _ (ttl : ℕ) (me : Text) (now : ℕ) (seen : Option LockRow) (s : System) (past : now ≤ s.clock)
    (kept : seen ≡ s.lease) (h : Inv ttl s) where
  commit-past :
      (o : Text) (t : ℕ) → (after_commit ttl me now seen s).granted o ≡ some t → t ≤ s.clock
  unfolding after_commit
  commit-past o t e =
      let won = (commit me ttl now seen s.lease).0 in
      elim (put_cases me (grant won now) s.granted o) [
        | inl (_, is) ↦ let (_, same) = grant-won won now t (sym is ∙ e) in omega (arith, same)
        | inr (_, is) ↦ h.past o t (sym is ∙ e)
      ]

  looked-past :
      (o : Text) (t : ℕ) (row : Option LockRow)
      → (after_commit ttl me now seen s).looked o ≡ some (t, row)
      → t ≤ s.clock
  unfolding after_commit
  looked-past o t row e = elim (put_cases me none s.looked o) [
    | inl (_, is) ↦ absurd (cc (sym is ∙ e))
    | inr (_, is) ↦ h.looked_past o t row (sym is ∙ e)
  ]

  commit_outcome :
      let (won, row) = commit me ttl now seen s.lease in
      ((won ≡ true)
        × ((r : LockRow) × (row ≡ some r) × (r.owner ≡ me) × (r.heartbeat_at ≡ now))
        × ((old : LockRow)
            → s.lease ≡ some old
            → (old.owner ≡ me) ⊎ (old.heartbeat_at + ttl < now)))
      ⊎ ((won ≡ false) × (row ≡ s.lease))
  commit_outcome = rw (acquired me ttl now seen s kept) (acquire_outcome ttl me now s.lease)

  after_commit-holds :
      (o : Text) (t : ℕ)
      → (after_commit ttl me now seen s).granted o ≡ some t
      → Backed ttl (after_commit ttl me now seen s) o t
  unfolding after_commit
  after_commit-holds o t e =
      let won = (commit me ttl now seen s.lease).0 in
      elim commit_outcome [
        | inl (yes_won, (r, is, owner, beat), stale) ↦
            elim (put_cases me (grant won now) s.granted o) [
              | inl (mine, at) ↦
                  let (_, same) = grant-won won now t (sym at ∙ e) in
                  inl (r, is, owner ∙ mine, beat ∙ same)
              | inr (other, at) ↦
                  inr (kept_behind ttl me now s o t other past (h.backed o t (sym at ∙ e)) stale)
            ]
        | inr (no_won, same_row) ↦ elim (put_cases me (grant won now) s.granted o) [
          | inl (mine, at) ↦
              let (won_it, _) = grant-won won now t (sym at ∙ e) in
              absurd (cc (sym won_it ∙ no_won))
          | inr (other, at) ↦ elim (h.backed o t (sym at ∙ e)) [
            | inl (row, is, owner, beat) ↦ inl (row, same_row ∙ is, owner, beat)
            | inr old ↦ inr old
          ]
        ]
      ]

release_other :
    (me : Text) (row : LockRow) (o : Text)
    → text_eq me o ≡ false
    → row.owner ≡ o
    → release me (some row) ≡ some row
unfolding release
release_other me row o other owner = elim (Bool-cases (text_eq row.owner me)) [
  | inr e ↦ rw e refl
  | inl e ↦ absurd (cc (rw (sym (text_eq→eq row.owner me e) ∙ owner, text_eq_refl o) at other))
]

after_release-holds :
    (ttl : ℕ) (me : Text) (s : System)
    → Inv ttl s
    → (o : Text) (t : ℕ) → (after_release me s).granted o ≡ some t
    → Backed ttl (after_release me s) o t
unfolding after_release
after_release-holds ttl me s h o t e = elim (put_cases me none s.granted o) [
  | inl (_, at) ↦ absurd (cc (sym at ∙ e))
  | inr (other, at) ↦ elim (h.backed o t (sym at ∙ e)) [
    | inl (row, is, owner, beat) ↦
        inl (row, rw is (release_other me row o other owner), owner, beat)
    | inr old ↦ inr old
  ]
]

release-past :
    (ttl : ℕ) (me : Text) (s : System)
    → Inv ttl s
    → (o : Text) (t : ℕ) → (after_release me s).granted o ≡ some t
    → t ≤ s.clock
unfolding after_release
release-past ttl me s h o t e = elim (put_cases me none s.granted o) [
  | inl (_, at) ↦ absurd (cc (sym at ∙ e))
  | inr (_, at) ↦ h.past o t (sym at ∙ e)
]

read-holds :
    (ttl : ℕ) (me : Text) (now : ℕ) (s : System)
    → s.clock ≤ now
    → Inv ttl s
    → Inv ttl (after_read me now s)
unfolding after_read
read-holds ttl me now s far h = record {
  past = λ o t e. omega (arith, far, h.past o t e);
  backed = λ o t e. elim (h.backed o t e) [ inl row ↦ inl row | inr old ↦ inr (omega arith) ];
  looked_past = λ o t row e. elim (put_cases me (some (now, s.lease)) s.looked o) [
    | inl (_, is) ↦
        let same = ap (λ (p : ℕ × Option LockRow). p.0) (some_inj (sym is ∙ e)) in
        omega (arith, same)
    | inr (_, is) ↦ omega (arith, far, h.looked_past o t row (sym is ∙ e))
  ];
}

commit-holds :
    (ttl : ℕ) (me : Text) (now : ℕ) (seen : Option LockRow) (s : System)
    → s.looked me ≡ some (now, seen)
    → seen ≡ s.lease
    → Inv ttl s
    → Inv ttl (after_commit ttl me now seen s)
commit-holds ttl me now seen s at kept h =
    let past = h.looked_past me now seen at in
    record {
      past = λ o t e. unfold after_commit in commit-past ttl me now seen s past kept h o t e;
      backed = after_commit-holds ttl me now seen s past kept h;
      looked_past =
          λ o t row e. unfold after_commit in looked-past ttl me now seen s past kept h o t row e;
    }

Step-Inv : {ttl : ℕ} {s t : System} (st : Step ttl s t) → Kept st → Inv ttl s → Inv ttl t
Step-Inv {ttl} {s} (reads me now far) k h = read-holds ttl me now s far h
Step-Inv {ttl} {s} (commits me now seen at) k h = commit-holds ttl me now seen s at k h
Step-Inv {ttl} {s} (releases me) k h = record {
  past = λ o t e. unfold after_release in release-past ttl me s h o t e;
  backed = after_release-holds ttl me s h;
  looked_past = λ o t row e. unfold after_release in h.looked_past o t row e;
}

Reach-Inv :
    {ttl : ℕ} {left : Option LockRow} {clock : ℕ} {s : System} (r : Reach ttl left clock s)
    → Undisturbed r
    → Inv ttl s
Reach-Inv start u = record {
  past = λ o t e. absurd (cc e);
  backed = λ o t e. absurd (cc e);
  looked_past = λ o t row e. absurd (cc e);
}
Reach-Inv (later r st) (u, k) = Step-Inv st k (Reach-Inv r u)

-- In a run of a deployment, from whatever row an earlier one left behind, in which every commit of an
-- acquisition finds the row that its process read, at most one process took or renewed the lease
-- within the time to live and has not released it: two processes of which this holds are the same
-- one. The reads and the commits of different processes may alternate. The code does not enforce the
-- condition; without it two processes can lead.
pub one_leader :
    {ttl : ℕ} {left : Option LockRow} {clock : ℕ} {s : System} (r : Reach ttl left clock s)
    → Undisturbed r
    → (a b : Text) → Leads ttl s a
    → Leads ttl s b
    → a ≡ b
one_leader r undisturbed a b (t, at, recent) (u, bt, recent') =
    elim ((Reach-Inv r undisturbed).backed a t at) [
      | inr old ↦ absurd (omega arith)
      | inl (row, is, owner, _) ↦ elim ((Reach-Inv r undisturbed).backed b u bt) [
        | inr old ↦ absurd (omega arith)
        | inl (row', is', owner', _) ↦
            sym owner ∙ (ap (λ (x : LockRow). x.owner) (some_inj (sym is ∙ is')) ∙ owner')
      ]
    ]
