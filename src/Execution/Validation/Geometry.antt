-- ===== src/Execution/Validation/Geometry.antt =====
-- What an order that passes the stop validation looks like.
use mt5_trading_bot.Base.{
  ◌≡◌, refl, inl, inr, true, false, not, ◌&&◌, ◌||◌, Option, none, some, List, [], ◌∷◌, ◌++◌, arith,
  Bool-cases,
}
use mt5_trading_bot.Num.{ℚ, int, ratio, billionth, ◌+ℚ◌, ◌-ℚ◌, ◌/ℚ◌, abs, leb_ℚ, ltb_ℚ}
use mt5_trading_bot.Core.Signal.{Action, buy, sell, hold}
use mt5_trading_bot.Risk.Sizing.{SymbolSpec, min_stop_distance}
use mt5_trading_bot.Execution.Validation.{
  price_epsilon, StopReason, when, tradable, validate_stops, stop_reasons, target_reasons,
}

-- The stop on the losing side and the target, if any, on the winning side, each by more than 1e-12.
abbrev pub Sides : Action → ℚ → ℚ → Option ℚ → Type 0
Sides buy entry stop none = leb_ℚ (entry -ℚ price_epsilon) stop ≡ false
Sides buy entry stop (some target) =
    (leb_ℚ (entry -ℚ price_epsilon) stop ≡ false) × (leb_ℚ target (entry +ℚ price_epsilon) ≡ false)
Sides sell entry stop none = leb_ℚ stop (entry +ℚ price_epsilon) ≡ false
Sides sell entry stop (some target) =
    (leb_ℚ stop (entry +ℚ price_epsilon) ≡ false) × (leb_ℚ (entry -ℚ price_epsilon) target ≡ false)
Sides hold entry stop target = ⊥

-- The target is a price, and pays the risk at least at the required ratio, up to 1e-9.
abbrev pub Pays : ℚ → ℚ → Option ℚ → Option ℚ → Type 0
Pays entry stop none ratio = Unit
Pays entry stop (some target) none = leb_ℚ target (int 0) ≡ false
Pays entry stop (some target) (some ratio) =
    (leb_ℚ target (int 0) ≡ false)
    × ((ltb_ℚ (int 0) (abs (entry -ℚ stop))
          && ltb_ℚ (abs (target -ℚ entry) /ℚ abs (entry -ℚ stop)) (ratio -ℚ billionth))
        ≡ false)

pub record Sound (action : Action) (entry stop : ℚ) (target : Option ℚ) (spec : SymbolSpec)
    (ratio : Option ℚ) : Type 0 where
  pub entry_positive : leb_ℚ entry (int 0) ≡ false
  pub stop_positive : leb_ℚ stop (int 0) ≡ false
  pub distance_positive : leb_ℚ (abs (entry -ℚ stop)) (int 0) ≡ false
  pub far_enough :
      (ltb_ℚ (int 0) (min_stop_distance spec)
        && ltb_ℚ (abs (entry -ℚ stop)) (min_stop_distance spec))
      ≡ false
  pub sides : Sides action entry stop target
  pub pays : Pays entry stop target ratio

append_nil {ℓ} : {A : Type ℓ} (xs ys : List A) → xs ++ ys ≡ [] → (xs ≡ []) × (ys ≡ [])
append_nil [] ys h = (refl, h)
append_nil (x ∷ xs) ys h = cc

nil_sides_target :
    (action : Action) (entry stop : ℚ) (target : Option ℚ) (spec : SymbolSpec) (ratio : Option ℚ)
    → tradable action ≡ true
    → leb_ℚ entry (int 0) ≡ false
    → leb_ℚ stop (int 0) ≡ false
    → stop_reasons action entry stop spec ≡ []
    → target_reasons action entry stop target ratio ≡ []
    → Sound action entry stop target spec ratio
unfolding stop_reasons target_reasons
nil_sides_target buy entry stop none spec ratio t e s h k = ground arith
nil_sides_target buy entry stop (some target) spec none t e s h k = ground arith
nil_sides_target buy entry stop (some target) spec (some ratio) t e s h k = ground arith
nil_sides_target sell entry stop none spec ratio t e s h k = ground arith
nil_sides_target sell entry stop (some target) spec none t e s h k = ground arith
nil_sides_target sell entry stop (some target) spec (some ratio) t e s h k = ground arith
nil_sides_target hold entry stop target spec ratio t e s h k = cc

unusable_reasons :
    (action : Action) (e s : ℚ)
    → (not (tradable action) || (leb_ℚ e (int 0) || leb_ℚ s (int 0))) ≡ true
    → when (not (tradable action)) StopReason.bad_side
        ++ when (leb_ℚ e (int 0)) StopReason.bad_entry
        ++ when (leb_ℚ s (int 0)) StopReason.no_stop
      ≡ []
    → ⊥
unusable_reasons buy e s g h = ground arith
unusable_reasons sell e s g h = ground arith
unusable_reasons hold e s g h = ground arith

-- An order that passes has a tradable side, an entry and a stop; both are positive and apart by at
-- least the broker's minimum, the stop and the target stand on their sides of the entry, and the
-- target pays the required ratio.
pub validate_stops-Sound :
    (action : Action) (entry stop target : Option ℚ) (spec : SymbolSpec) (ratio : Option ℚ)
    → validate_stops action entry stop target spec ratio ≡ []
    → (e : ℚ) × (s : ℚ) × (entry ≡ some e) × (stop ≡ some s) × Sound action e s target spec ratio
unfolding validate_stops
validate_stops-Sound action none stop target spec ratio h = absurd (ground arith)
validate_stops-Sound action (some e) none target spec ratio h = absurd (ground arith)
validate_stops-Sound action (some e) (some s) target spec ratio h =
    elim (Bool-cases (not (tradable action) || (leb_ℚ e (int 0) || leb_ℚ s (int 0)))) [
      | inl g ↦ absurd (unusable_reasons action e s g (rw g at h))
      | inr g ↦
          let parts = append_nil (stop_reasons action e s spec) _ (rw g at h) in
          (
            e,
            s,
            refl,
            refl,
            nil_sides_target action e s target spec ratio (ground arith) (ground arith)
                (ground arith) parts.0 parts.1,
          )
    ]

Sound-reasons :
    (action : Action) (entry stop : ℚ) (target : Option ℚ) (spec : SymbolSpec) (ratio : Option ℚ)
    → Sound action entry stop target spec ratio
    → (tradable action ≡ true)
      × (stop_reasons action entry stop spec ≡ [])
      × (target_reasons action entry stop target ratio ≡ [])
unfolding stop_reasons target_reasons
Sound-reasons buy entry stop none spec ratio h = ground arith
Sound-reasons buy entry stop (some target) spec none h = ground arith
Sound-reasons buy entry stop (some target) spec (some ratio) h = ground arith
Sound-reasons sell entry stop none spec ratio h = ground arith
Sound-reasons sell entry stop (some target) spec none h = ground arith
Sound-reasons sell entry stop (some target) spec (some ratio) h = ground arith
Sound-reasons hold entry stop target spec ratio h = absurd h.sides

-- Every order of that shape passes: the validation refuses nothing else.
pub Sound-validate_stops :
    (action : Action) (entry stop : ℚ) (target : Option ℚ) (spec : SymbolSpec) (ratio : Option ℚ)
    → Sound action entry stop target spec ratio
    → validate_stops action (some entry) (some stop) target spec ratio ≡ []
unfolding validate_stops
Sound-validate_stops action entry stop target spec ratio h =
    let (side, stops, targets) = Sound-reasons action entry stop target spec ratio h in
    rw (side, h.entry_positive, h.stop_positive, stops, targets)
