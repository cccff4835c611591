-- ===== src/Strategies/Ensemble.antt =====
-- app/strategies/ensemble.py: one signal from the votes of the strategies.
pub mod Vote
use mt5_trading_bot.Base.{
  ℕ, ◌-◌, Bool, true, false, not, ◌&&◌, ltb, leb, if◌then◌else◌, Option, none, some, List, [], ◌∷◌,
  map, keep, length,
}
use mt5_trading_bot.Num.{
  ℚ, int, sum_ℚ, ◌-ℚ◌, ◌*ℚ◌, ◌/ℚ◌, eqb_ℚ, ltb_ℚ, min_ℚ, max_ℚ, round_half_even,
}
use mt5_trading_bot.Core.Text.{Text, is_empty}
use mt5_trading_bot.Core.Settings.{Settings}
use mt5_trading_bot.Core.Signal.{Action, buy, sell, hold, same_action, Signal}
use mt5_trading_bot.Strategies.Common.{m15, Levels, hold_signal}

abbrev ensemble_name : Text
ensemble_name = b'e' ∷ b'n' ∷ b's' ∷ b'e' ∷ b'm' ∷ b'b' ∷ b'l' ∷ b'e' ∷ []

abbrev unknown : Text
unknown = b'U' ∷ b'N' ∷ b'K' ∷ b'N' ∷ b'O' ∷ b'W' ∷ b'N' ∷ []

abbrev pub is_vote : Signal → Bool
is_vote s = not (same_action s.action hold)

unfoldable pub votes_for : Action → List Signal → List Signal
votes_for action votes = keep (λ v. same_action v.action action) votes

unfoldable pub weight : Action → List Signal → ℚ
unfolding votes_for
weight action votes = sum_ℚ (map (λ v. v.confidence) (votes_for action votes))

-- `max` by score: the first of the strongest.
unfoldable pub strongest : List Signal → Option Signal
strongest [] = none
strongest (v ∷ vs) = elim (strongest vs) [
  | none ↦ some v
  | some w ↦ if ltb v.score w.score then some w else some v
]

-- `levels_of`: a bracket that is there and on its side.
abbrev pub ordered : Action → ℚ → ℚ → ℚ → Bool
ordered buy entry stop target = ltb_ℚ stop entry && ltb_ℚ entry target
ordered sell entry stop target = ltb_ℚ target entry && ltb_ℚ entry stop
ordered hold entry stop target = true

unfoldable pub checked : Action → Option ℚ → Option ℚ → Option ℚ → Option Levels
checked action (some entry) (some stop) (some target) =
    if ordered action entry stop target
    then some record { entry = entry; stop_loss = stop; take_profit = target }
    else none
checked action _ _ _ = none

unfoldable pub levels_of : Action → Signal → Option Levels
unfolding checked
levels_of action s = checked action s.entry s.stop_loss s.take_profit

abbrev pub is_nil : List Signal → Bool
is_nil [] = true
is_nil (_ ∷ _) = false

abbrev pub first_symbol : List Signal → Text
first_symbol [] = unknown
first_symbol (v ∷ vs) = v.symbol

abbrev first_timeframe : List Signal → Text
first_timeframe [] = m15
first_timeframe (v ∷ vs) = v.timeframe

-- `_hold`
unfoldable pub held : Text → List Signal → ℕ → Signal
held symbol source now = hold_signal symbol ensemble_name (first_timeframe source) now

abbrev pub clamp_unit : ℚ → ℚ
clamp_unit q = min_ℚ (max_ℚ q (int 0)) (int 1)

unfoldable pub emitted : Text → Action → ℚ → Signal → Levels → ℕ → Signal
emitted symbol action aggregate best levels now = record {
  action = action;
  confidence = clamp_unit aggregate;
  score = round_half_even (clamp_unit aggregate *ℚ int 100);
  symbol = symbol;
  entry = some levels.entry;
  stop_loss = some levels.stop_loss;
  take_profit = some levels.take_profit;
  strategy = ensemble_name;
  timeframe = if is_empty best.timeframe then m15 else best.timeframe;
  timestamp = now;
}

unfoldable pub aggregate_of : ℚ → ℚ → List Signal → ℚ
aggregate_of winning opposing agreeing = (winning -ℚ opposing) /ℚ int (length agreeing)

-- `combine` once a side has won.
unfoldable pub for_side : Settings → ℕ → Text → Action → ℚ → ℚ → List Signal → Signal
for_side settings now symbol action winning opposing agreeing =
    if ltb (length agreeing) settings.ensemble_min_votes
    then held symbol agreeing now
    else if ltb_ℚ (aggregate_of winning opposing agreeing) settings.ensemble_min_confidence
    then held symbol agreeing now
    else elim (strongest agreeing) [
      | none ↦ held symbol agreeing now
      | some best ↦ elim (levels_of action best) [
        | none ↦ held symbol agreeing now
        | some levels ↦
            emitted symbol action (aggregate_of winning opposing agreeing) best levels now
      ]
    ]

-- `combine` of the votes that are no HOLD; equal weights are a disagreement.
unfoldable pub decide : Settings → ℕ → Text → List Signal → Signal
decide settings now symbol eligible =
    let buys = weight buy eligible in
    let sells = weight sell eligible in
    if eqb_ℚ buys sells
    then held symbol eligible now
    else if ltb_ℚ sells buys
    then for_side settings now symbol buy buys sells (votes_for buy eligible)
    else for_side settings now symbol sell sells buys (votes_for sell eligible)

unfoldable pub combine : Settings → ℕ → List Signal → Signal
combine settings now votes =
    let eligible = keep is_vote votes in
    if is_nil eligible
    then held (first_symbol votes) votes now
    else decide settings now (first_symbol votes) eligible
