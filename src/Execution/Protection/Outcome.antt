-- ===== src/Execution/Protection/Outcome.antt =====
-- What the verification of a fill guarantees.
use mt5_trading_bot.Base.{
  ◌≡◌, ◌≢◌, refl, ◌⊎◌, inl, inr, Bool, true, false, not, ◌&&◌, ◌||◌, if◌then◌else◌, arith, Option,
  none, some, List, Option-cases, Bool-cases, unwrap_or,
}
use mt5_trading_bot.Num.{ℚ, int, ◌-ℚ◌, abs, leb_ℚ, is_pos}
use mt5_trading_bot.Core.Text.{Text}
use mt5_trading_bot.Core.Settings.{Settings}
use mt5_trading_bot.Risk.Sizing.{SymbolSpec}
use mt5_trading_bot.Execution.Broker.{
  Position, CloseOutcome, close_raised, no_close_result, close_answered,
}
use mt5_trading_bot.Execution.Protection.{
  Protection, unverified, verified, corrected, closed, close_unanswered, find_live,
  protection_intact, tolerance_of, after_close, repair, verify_protection,
}

held_price :
    (o : Option ℚ)
    → leb_ℚ (unwrap_or o (int 0)) (int 0) ≡ false
    → (v : ℚ) × (o ≡ some v) × (unwrap_or o (int 0) ≡ v)
unfolding leb_ℚ
held_price none h = absurd (cc h)
held_price (some v) h = (v, refl, refl)

not_positive : (q : ℚ) → leb_ℚ q (int 0) ≡ not (is_pos q)
unfolding leb_ℚ is_pos
not_positive q = ground arith

levels_met :
    (gone wanted missed near other : Bool)
    → (if gone || (wanted && missed)
        then false
        else if not near
        then false
        else not wanted || other)
      ≡ true
    → (gone ≡ false) × (near ≡ true) × (wanted ≡ true → (missed ≡ false) × (other ≡ true))
levels_met gone wanted missed near other h = (ground arith, ground arith, λ w. ground arith)

levels_kept :
    (gone wanted missed near other : Bool)
    → gone ≡ false
    → near ≡ true
    → (wanted ≡ true → (missed ≡ false) × (other ≡ true))
    → (if gone || (wanted && missed)
        then false
        else if not near
        then false
        else not wanted || other)
      ≡ true
levels_kept gone true missed near other g n f = let (m, o) = f refl in ground arith
levels_kept gone false missed near other g n f = ground arith

module _ (settings : Settings) (spec : SymbolSpec) (symbol : Text) (sl tp : ℚ) where
  -- A price at a level: apart by the tolerance at most.
  abbrev pub Near : ℚ → ℚ → Type 0
  Near a b = leb_ℚ (abs (a -ℚ b)) (tolerance_of spec) ≡ true

  -- p has a stop, at the approved one; and a target at the approved one, where one was approved.
  pub record Carries (p : Position) : Type 0 where
    pub stop : ℚ
    pub stop_is : p.stop_loss ≡ some stop
    pub stop_positive : leb_ℚ stop (int 0) ≡ false
    pub stop_near : Near stop sl
    pub target :
        is_pos tp ≡ true
        → (t : ℚ) × (p.take_profit ≡ some t) × (leb_ℚ t (int 0) ≡ false) × Near t tp

  intact-Carries : (p : Position) → protection_intact p sl tp (tolerance_of spec) ≡ true → Carries p
  unfolding protection_intact
  intact-Carries p h =
      let stop = unwrap_or p.stop_loss (int 0) in
      let take = unwrap_or p.take_profit (int 0) in
      let (there, near, pays) =
        levels_met (leb_ℚ stop (int 0)) (is_pos tp) (leb_ℚ take (int 0))
          (leb_ℚ (abs (stop -ℚ sl)) (tolerance_of spec))
          (leb_ℚ (abs (take -ℚ tp)) (tolerance_of spec)) (rw (not_positive tp) at h) in
      let (s, is, same) = held_price p.stop_loss there in
      record {
        stop = s;
        stop_is = is;
        stop_positive = rw same at there;
        stop_near = rw same at near;
        target = λ w.
            let (far, at) = pays w in
            let (t, it, alike) = held_price p.take_profit far in
            (t, it, rw alike at far, rw alike at at);
      }

  Carries-intact : (p : Position) → Carries p → protection_intact p sl tp (tolerance_of spec) ≡ true
  unfolding protection_intact
  Carries-intact p c =
      rw (not_positive tp, c.stop_is)
        (levels_kept (leb_ℚ c.stop (int 0)) (is_pos tp)
          (leb_ℚ (unwrap_or p.take_profit (int 0)) (int 0))
          (leb_ℚ (abs (c.stop -ℚ sl)) (tolerance_of spec))
          (leb_ℚ (abs (unwrap_or p.take_profit (int 0) -ℚ tp)) (tolerance_of spec)) c.stop_positive
          c.stop_near (λ w. let (t, is, far, near) = c.target w in (rw is far, rw is near)))

  not_carried : (p : Position) → protection_intact p sl tp (tolerance_of spec) ≡ false → ¬ Carries p
  not_carried p bad c = absurd (cc (bad, Carries-intact p c))

  -- q was found after the fill without the approved levels.
  abbrev pub Unprotected : Option Text → Option (List Position) → Position → Type 0
  Unprotected ticket filled q = (find_live settings filled symbol ticket ≡ some q) × (¬ Carries q)

  -- p is q, which is not seen any more, or the refreshed position, still without the levels.
  abbrev pub Unrepaired : Option (List Position) → Position → Position → Type 0
  Unrepaired refreshed q p =
      (find_live settings refreshed symbol q.ticket ≡ none) × (p ≡ q)
      ⊎ (find_live settings refreshed symbol q.ticket ≡ some p) × (¬ Carries p)

  -- What a report says of the positions that the broker showed after the fill and the repair.
  abbrev pub Reported :
      Option Text
      → Option (List Position)
      → Option (List Position)
      → CloseOutcome
      → Protection
      → Type 0
  Reported ticket filled refreshed close unverified = find_live settings filled symbol ticket ≡ none
  Reported ticket filled refreshed close (verified p) =
      (find_live settings filled symbol ticket ≡ some p) × Carries p
  Reported ticket filled refreshed close (corrected p) =
      (q : Position) × Unprotected ticket filled q
      × (find_live settings refreshed symbol q.ticket ≡ some p)
      × Carries p
  Reported ticket filled refreshed close (closed p) =
      (q : Position) × Unprotected ticket filled q
      × Unrepaired refreshed q p
      × (close ≡ close_answered)
  Reported ticket filled refreshed close (close_unanswered p) =
      (q : Position) × Unprotected ticket filled q
      × Unrepaired refreshed q p
      × (close ≢ close_answered)

  close_Reported :
      (ticket : Option Text) (filled refreshed : Option (List Position)) (q p : Position)
      (close : CloseOutcome)
      → Unprotected ticket filled q
      → Unrepaired refreshed q p
      → Reported ticket filled refreshed close (after_close close p)
  unfolding after_close
  close_Reported ticket filled refreshed q p close_raised u r = (q, u, r, λ h. absurd (cc h))
  close_Reported ticket filled refreshed q p no_close_result u r = (q, u, r, λ h. absurd (cc h))
  close_Reported ticket filled refreshed q p close_answered u r = (q, u, r, refl)

  repair-Reported :
      (ticket : Option Text) (filled refreshed : Option (List Position)) (q : Position)
      (close : CloseOutcome)
      → Unprotected ticket filled q
      → Reported ticket filled refreshed close
          (repair settings symbol sl tp (tolerance_of spec) q refreshed close)
  unfolding repair
  repair-Reported ticket filled refreshed q close u =
      elim (Option-cases (find_live settings refreshed symbol q.ticket)) [
        | inl e ↦
            rw (e, repair) (close_Reported ticket filled refreshed q q close u (inl (e, refl)))
        | inr (p, e) ↦ elim (Bool-cases (protection_intact p sl tp (tolerance_of spec))) [
          | inl good ↦ rw (e, good, repair) (q, u, e, intact-Carries p good)
          | inr bad ↦
              rw (e, bad, repair)
                (close_Reported ticket filled refreshed q p close u (inr (e, not_carried p bad)))
        ]
      ]

-- The report of a fill is the truth about the positions that the broker shows: a position is called
-- verified or corrected only where it carries the approved levels, in the first read or in the one
-- after the repair, a stop and a target that are there and within the tolerance; a position that was
-- found without them, and was not seen repaired, is sent for closing, and is called closed exactly
-- where the closing was answered; and only a position that cannot be found is left unverified.
pub verify_protection-Reported :
    (settings : Settings) (spec : SymbolSpec) (symbol : Text) (stop target : Option ℚ)
    (ticket : Option Text) (filled refreshed : Option (List Position)) (close : CloseOutcome)
    → Reported settings spec symbol
        (unwrap_or stop (int 0))
        (unwrap_or target (int 0))
        ticket
        filled
        refreshed
        close
        (verify_protection settings spec symbol stop target ticket filled refreshed close)
unfolding verify_protection
verify_protection-Reported settings spec symbol stop target ticket filled refreshed close =
    let sl = unwrap_or stop (int 0) in
    let tp = unwrap_or target (int 0) in
    elim (Option-cases (find_live settings filled symbol ticket)) [
      | inl e ↦ rw (e, verify_protection) e
      | inr (q, e) ↦ elim (Bool-cases (protection_intact q sl tp (tolerance_of spec))) [
        | inl good ↦
            rw (e, good, verify_protection) (e, intact-Carries settings spec symbol sl tp q good)
        | inr bad ↦
            rw (e, bad, verify_protection)
              (repair-Reported settings spec symbol sl tp ticket filled refreshed q close
                (e, not_carried settings spec symbol sl tp q bad))
      ]
    ]
