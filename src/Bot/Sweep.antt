-- ===== src/Bot/Sweep.antt =====
-- Which positions and orders an emergency stop acts on (app/services/bot.py).
use mt5_trading_bot.Base.{
  ℕ, ◌≡◌, refl, inl, inr, Bool, true, not, ◌&&◌, ◌==◌, none, some, List, [], ◌∷◌, arith, Bool-cases,
  keep, count_if,
}
use mt5_trading_bot.Bot.{Target, SweepReport, managed, accepted, sweep_list, tally}

-- The target carries the bot's magic number, or none.
abbrev pub is_own : ℕ → Target → Bool
is_own magic t = elim t.magic [ none ↦ true | some m ↦ m == magic ]

-- A sweep acts on the bot's own targets only and on each of them, and its counts add up.
pub record Accounted (magic : ℕ) (targets : List Target) (r : SweepReport) : Type 0 where
  pub all_attempted : r.attempted ≡ keep (is_own magic) targets
  pub all_closed : r.closed ≡ count_if (λ t. is_own magic t && accepted t.answer) targets
  pub all_failed : r.failed ≡ count_if (λ t. is_own magic t && not (accepted t.answer)) targets
  pub all_skipped : r.skipped ≡ count_if (λ t. not (is_own magic t)) targets

own_managed : (magic : ℕ) (t : Target) → managed magic t ≡ is_own magic t
unfolding managed
own_managed magic t = ground arith

tally-Accounted :
    (magic : ℕ) (t : Target) (ts : List Target) (r : SweepReport)
    → Accounted magic ts r
    → Accounted magic (t ∷ ts) (tally (managed magic t) t r)
tally-Accounted magic t ts r h = rw (own_managed magic t) (elim (Bool-cases (is_own magic t)) [
  | inr e ↦ rw e record {
    all_attempted = rw (e, h.all_attempted) refl;
    all_closed = rw (e, h.all_closed) refl;
    all_failed = rw (e, h.all_failed) refl;
    all_skipped = rw (e, h.all_skipped) refl;
  }
  | inl e ↦ elim (Bool-cases (accepted t.answer)) [
    | inl f ↦
        rw (e, f)
          record {
            all_attempted = rw (e, h.all_attempted) refl;
            all_closed = rw (e, f, h.all_closed) refl;
            all_failed = rw (e, f, h.all_failed) refl;
            all_skipped = rw (e, h.all_skipped) refl;
          }
    | inr f ↦
        rw (e, f)
          record {
            all_attempted = rw (e, h.all_attempted) refl;
            all_closed = rw (e, f, h.all_closed) refl;
            all_failed = rw (e, f, h.all_failed) refl;
            all_skipped = rw (e, h.all_skipped) refl;
          }
  ]
])

-- For every list of positions or orders, a sweep sends a closing order for each target that carries
-- the bot's magic number or none, in their order, and for no other; and it counts as closed those
-- whose order was accepted, as failed the others of them, and as skipped the rest.
pub sweep_list-Accounted :
    (magic : ℕ) (targets : List Target) → Accounted magic targets (sweep_list magic targets)
unfolding sweep_list
sweep_list-Accounted magic [] = record {
  all_attempted = refl;
  all_closed = refl;
  all_failed = refl;
  all_skipped = refl;
}
sweep_list-Accounted magic (t ∷ ts) =
    tally-Accounted magic t ts (sweep_list magic ts) (sweep_list-Accounted magic ts)
