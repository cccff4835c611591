-- ===== src/Strategies/Ensemble/Vote.antt =====
-- What a signal of app/strategies/ensemble.py that is no HOLD rests on.
use mt5_trading_bot.Base.{
  ℕ, ◌≤◌, ◌≡◌, ◌≢◌, refl, ◌⊎◌, inl, inr, true, false, ltb, Option, none, some, List, [], ◌∷◌, All,
  keep, length, arith, Bool-cases, Option-cases, some_inj,
}
use mt5_trading_bot.Guards.{guarded, either-some}
use mt5_trading_bot.Num.{ℚ, int, eqb_ℚ, ltb_ℚ, leb_ℚ, min_ℚ}
use mt5_trading_bot.Num.Order.{leb_ℚ_refl}
use mt5_trading_bot.Core.Text.{Text}
use mt5_trading_bot.Core.Settings.{Settings}
use mt5_trading_bot.Core.Signal.{Action, buy, sell, hold, Signal}
use mt5_trading_bot.Strategies.Common.{Levels}
use mt5_trading_bot.Strategies.Ensemble.{
  is_vote, votes_for, weight, strongest, ordered, checked, levels_of, held, emitted, aggregate_of,
  for_side, decide, combine, is_nil, first_symbol,
}

-- The levels are those of a vote, on the sides of the action.
pub record Carried (action : Action) (levels : Levels) (best : Signal) : Type 0 where
  pub entry : best.entry ≡ some levels.entry
  pub stop : best.stop_loss ≡ some levels.stop_loss
  pub target : best.take_profit ≡ some levels.take_profit
  pub sides : ordered action levels.entry levels.stop_loss levels.take_profit ≡ true

-- A signal for a side that holds these two weights, of the votes that agree.
pub record Agreed (settings : Settings) (agreeing : List Signal) (winning opposing : ℚ)
    (action : Action) (s : Signal) : Type 0 where
  pub action_is : s.action ≡ action
  pub enough : settings.ensemble_min_votes ≤ length agreeing
  pub confident :
      ltb_ℚ (aggregate_of winning opposing agreeing) settings.ensemble_min_confidence ≡ false
  pub at_most_one : leb_ℚ s.confidence (int 1) ≡ true
  pub best : Signal
  pub is_best : strongest agreeing ≡ some best
  pub none_stronger : All (λ v. v.score ≤ best.score) agreeing
  pub levels : Levels
  pub entry_is : s.entry ≡ some levels.entry
  pub stop_is : s.stop_loss ≡ some levels.stop_loss
  pub target_is : s.take_profit ≡ some levels.take_profit
  pub carried : Carried action levels best

abbrev pub opposite : Action → Action
opposite buy = sell
opposite sell = buy
opposite hold = hold

-- A side has won with more weight than the opposite side, and the signal is for it.
abbrev pub Voted : Settings → List Signal → Signal → Type 0
Voted settings eligible s =
    (action : Action) × (action ≢ hold)
    × (ltb_ℚ (weight (opposite action) eligible) (weight action eligible) ≡ true)
    × Agreed settings (votes_for action eligible) (weight action eligible)
        (weight (opposite action) eligible) action s

min_le_right : (a b : ℚ) → leb_ℚ (min_ℚ a b) b ≡ true
unfolding min_ℚ
min_le_right a b = elim (Bool-cases (leb_ℚ a b)) [
  | inl e ↦ rw (e, e) refl
  | inr e ↦ rw (e, leb_ℚ_refl b) refl
]

checked-Carried :
    (action : Action) (best : Signal) (entry stop target : Option ℚ) (levels : Levels)
    → best.entry ≡ entry
    → best.stop_loss ≡ stop
    → best.take_profit ≡ target
    → checked action entry stop target ≡ some levels
    → Carried action levels best
unfolding checked
checked-Carried action best (some a) (some b) (some c) levels p q r h =
    let (e, f) = guarded (ordered action a b c) h in
    rw (← f) record { entry = p; stop = q; target = r; sides = e }
checked-Carried action best none stop target levels p q r h = absurd (cc h)
checked-Carried action best (some a) none target levels p q r h = absurd (cc h)
checked-Carried action best (some a) (some b) none levels p q r h = absurd (cc h)

levels_of-Carried :
    (action : Action) (best : Signal) (levels : Levels)
    → levels_of action best ≡ some levels
    → Carried action levels best
unfolding levels_of
levels_of-Carried action best levels h =
    checked-Carried action best best.entry best.stop_loss best.take_profit levels refl refl refl h

module _ {ℓ} {A : Type ℓ} where
  All-map : {P Q : A → Type 0} → ((x : A) → P x → Q x) → (xs : List A) → All P xs → All Q xs
  All-map f [] h = tt
  All-map f (x ∷ xs) (h, k) = (f x h, All-map f xs k)

strongest-none : (v : Signal) (vs : List Signal) → strongest (v ∷ vs) ≢ none
unfolding strongest
strongest-none v vs h = elim (Option-cases (strongest vs)) [
  | inl e ↦ absurd (cc (rw e at h))
  | inr (w, e) ↦ either-some _ _ (ltb v.score w.score) (rw e at h)
]

strongest-empty : (vs : List Signal) (P : Signal → Type 0) → strongest vs ≡ none → All P vs
strongest-empty [] P h = tt
strongest-empty (v ∷ vs) P h = absurd (strongest-none v vs h)

strongest-best :
    (vs : List Signal) (w : Signal) → strongest vs ≡ some w → All (λ v. v.score ≤ w.score) vs
unfolding strongest
strongest-best [] w h = absurd (cc h)
strongest-best (v ∷ vs) w h = elim (Option-cases (strongest vs)) [
  | inl e ↦
      let f = some_inj {a = v} {b = w} (rw e at h) in
      (rw (← f) (omega arith), strongest-empty vs _ e)
  | inr (u, e) ↦ elim (Bool-cases (ltb v.score u.score)) [
    | inl l ↦
        let f = some_inj {a = u} {b = w} (rw (e, l) at h) in
        (rw (← f) (ground arith), All-map (λ x k. rw (← f) k) vs (strongest-best vs u e))
    | inr l ↦
        let f = some_inj {a = v} {b = w} (rw (e, l) at h) in
        (
          rw (← f) (omega arith),
          All-map (λ x k. rw (← f) (ground arith)) vs (strongest-best vs u e),
        )
  ]
]

emitted-Agreed :
    (settings : Settings) (now : ℕ) (symbol : Text) (action : Action) (winning opposing : ℚ)
    (agreeing : List Signal) (best : Signal) (levels : Levels)
    → ltb (length agreeing) settings.ensemble_min_votes ≡ false
    → ltb_ℚ (aggregate_of winning opposing agreeing) settings.ensemble_min_confidence ≡ false
    → strongest agreeing ≡ some best
    → levels_of action best ≡ some levels
    → Agreed settings agreeing winning opposing action
        (emitted symbol action (aggregate_of winning opposing agreeing) best levels now)
unfolding emitted
emitted-Agreed settings now symbol action winning opposing agreeing best levels n c b l = record {
  action_is = refl;
  enough = ground arith;
  confident = c;
  at_most_one = min_le_right _ (int 1);
  best = best;
  is_best = b;
  none_stronger = strongest-best agreeing best b;
  levels = levels;
  entry_is = refl;
  stop_is = refl;
  target_is = refl;
  carried = levels_of-Carried action best levels l;
}

-- A result is a HOLD or what was asked of it.
abbrev HoldOr : (Signal → Type 0) → Signal → Type 0
HoldOr P s = (s.action ≡ hold) ⊎ P s

for_side-Agreed :
    (settings : Settings) (now : ℕ) (symbol : Text) (action : Action) (winning opposing : ℚ)
    (agreeing : List Signal)
    → HoldOr
        (Agreed settings agreeing winning opposing action)
        (for_side settings now symbol action winning opposing agreeing)
unfolding for_side held
for_side-Agreed settings now symbol action winning opposing agreeing =
    elim (Bool-cases (ltb (length agreeing) settings.ensemble_min_votes)) [
      | inl e ↦ rw e (inl refl)
      | inr n ↦
          elim (Bool-cases
            (ltb_ℚ (aggregate_of winning opposing agreeing) settings.ensemble_min_confidence)) [
              | inl e ↦ rw (n, e) (inl refl)
              | inr c ↦ elim (Option-cases (strongest agreeing)) [
                | inl e ↦ rw (n, c, e) (inl refl)
                | inr (best, b) ↦ elim (Option-cases (levels_of action best)) [
                  | inl e ↦ rw (n, c, b, e) (inl refl)
                  | inr (levels, l) ↦
                      rw (n, c, b, l)
                        (inr (
                          emitted-Agreed settings now symbol action winning opposing agreeing best
                            levels n c b l))
                ]
              ]
            ]
    ]

heavier : (a b : ℚ) → eqb_ℚ a b ≡ false → ltb_ℚ b a ≡ false → ltb_ℚ a b ≡ true
unfolding eqb_ℚ ltb_ℚ leb_ℚ
heavier a b e l = ground arith

decide-Voted :
    (settings : Settings) (now : ℕ) (symbol : Text) (eligible : List Signal)
    → HoldOr (Voted settings eligible) (decide settings now symbol eligible)
unfolding decide held
decide-Voted settings now symbol eligible =
    let buys = weight buy eligible in
    let sells = weight sell eligible in
    elim (Bool-cases (eqb_ℚ buys sells)) [
      | inl e ↦ rw e (inl refl)
      | inr e ↦ elim (Bool-cases (ltb_ℚ sells buys)) [
        | inl l ↦
            rw (e, l)
              (won buy (λ h. absurd (cc h)) l
                (for_side-Agreed settings now symbol buy buys sells (votes_for buy eligible)))
        | inr l ↦
            rw (e, l)
              (won sell (λ h. absurd (cc h)) (heavier buys sells e l)
                (for_side-Agreed settings now symbol sell sells buys (votes_for sell eligible)))
      ]
    ]
  where
    won :
        (action : Action) {s : Signal}
        → action ≢ hold
        → ltb_ℚ (weight (opposite action) eligible) (weight action eligible) ≡ true
        → HoldOr
            (Agreed settings
              (votes_for action eligible)
              (weight action eligible)
              (weight (opposite action) eligible)
              action)
            s
        → HoldOr (Voted settings eligible) s
    won action side l (inl h) = inl h
    won action side l (inr h) = inr (action, side, l, h)

-- A combined signal that is no HOLD is for buying or selling, and the weight of the votes for its side is
-- strictly greater than that of the votes for the opposite side;
-- at least the configured number of votes agree; their aggregate confidence reaches the
-- configured minimum, and the confidence given out is at most 1; and entry, stop and target are
-- those of the agreeing vote with the best score, in the order that the action asks for.
pub combine-Voted :
    (settings : Settings) (now : ℕ) (votes : List Signal)
    → (combine settings now votes).action ≢ hold
    → Voted settings (keep is_vote votes) (combine settings now votes)
unfolding combine held
combine-Voted settings now votes h = elim (Bool-cases (is_nil (keep is_vote votes))) [
  | inl e ↦ absurd (h (rw e refl))
  | inr e ↦ rw (e) (elim (decide-Voted settings now (first_symbol votes) (keep is_vote votes)) [
    | inl k ↦ absurd (h (rw e k))
    | inr v ↦ v
  ])
]
