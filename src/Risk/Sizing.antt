-- ===== src/Risk/Sizing.antt =====
-- app/risk/sizing.py: volumes derived from a loss budget and a stop distance. Prices, volumes and
-- money are exact rationals, so `_positive` only tests the sign. A missing MT5 attribute, or one
-- that is no number, is `none` in `SymbolInfo`.
pub mod Bounds
use mt5_trading_bot.Base.{
  ℕ, ◌*◌, Bool, true, false, not, ◌&&◌, ◌||◌, ◌==◌, leb, ltb, if◌then◌else◌, Option, none, some,
  List, [], ◌∷◌, unwrap_or,
}
use mt5_trading_bot.Num.{
  ℚ, int, ratio, billionth, ◌+ℚ◌, ◌-ℚ◌, ◌*ℚ◌, ◌/ℚ◌, neg, abs, max_ℚ, leb_ℚ, ltb_ℚ, eqb_ℚ, is_pos,
  floor, round_half_even,
}

pub record SymbolSpec : Type 0 where
  pub volume_min : ℚ
  pub volume_max : ℚ
  pub volume_step : ℚ
  pub tick_value : ℚ
  pub tick_size : ℚ
  pub point : ℚ
  pub trade_stops_level : ℚ
  pub freeze_level : ℚ
  pub contract_size : ℚ
  pub margin_per_lot : ℚ
  pub digits : ℕ
  pub filling_mode : ℕ

-- `_positive(*values)`
unfoldable pub positive : List ℚ → Bool
positive [] = true
positive (v ∷ vs) = is_pos v && positive vs

unfoldable pub floor_steps : ℚ → ℕ
floor_steps quotient =
    let nearest = round_half_even quotient in
    if leb_ℚ quotient (int 0)
    then 0
    else if leb_ℚ (abs (quotient -ℚ int nearest)) billionth
    then nearest
    else floor quotient

unfoldable pub risk_per_lot : ℚ → ℚ → SymbolSpec → Option ℚ
risk_per_lot entry stop_loss spec =
    let distance = abs (entry -ℚ stop_loss) in
    if not (positive (entry ∷ stop_loss ∷ []))
    then none
    else if leb_ℚ distance (int 0)
    then none
    else if positive (spec.tick_size ∷ spec.tick_value ∷ [])
    then some (distance /ℚ spec.tick_size *ℚ spec.tick_value)
    else if positive (spec.contract_size ∷ [])
    then some (distance *ℚ spec.contract_size)
    else none

-- `round(value, 8)` of a value that is not negative
unfoldable pub round_eighth : ℚ → ℚ
round_eighth value = ratio (round_half_even (value *ℚ int 100000000)) 99999999

abbrev pub min_ℕ : ℕ → ℕ → ℕ
min_ℕ a b = if leb a b then a else b

unfoldable pub normalize_volume : Option ℚ → SymbolSpec → Option ℚ
normalize_volume none spec = none
normalize_volume (some volume) spec =
    let steps = floor_steps (volume /ℚ spec.volume_step) in
    let max_steps = floor_steps (spec.volume_max /ℚ spec.volume_step) in
    let lots = round_eighth (int (min_ℕ steps max_steps) *ℚ spec.volume_step) in
    if not (positive (volume ∷ []))
    then none
    else if not (positive (spec.volume_min ∷ spec.volume_max ∷ spec.volume_step ∷ []))
    then none
    else if (steps == 0) || (max_steps == 0)
    then none
    else if leb_ℚ spec.volume_min lots
    then some lots
    else none

unfoldable pub required_margin : ℚ → SymbolSpec → ℚ → ℚ → Option ℚ
required_margin lots spec price leverage =
    if not (positive (lots ∷ price ∷ []))
    then none
    else if positive (spec.margin_per_lot ∷ [])
    then some (lots *ℚ spec.margin_per_lot)
    else if positive (leverage ∷ spec.contract_size ∷ [])
    then some (lots *ℚ spec.contract_size *ℚ price /ℚ leverage)
    else none

-- `buffer_pct` is the last argument, 0 unless it is given.
unfoldable pub margin_within_free_margin : Option ℚ → Option ℚ → ℚ → Bool
margin_within_free_margin none free_margin buffer_pct = false
margin_within_free_margin (some required) none buffer_pct = false
margin_within_free_margin (some required) (some free_margin) buffer_pct =
    if not (positive (required ∷ free_margin ∷ []))
    then false
    else leb_ℚ required (free_margin *ℚ (int 1 -ℚ max_ℚ buffer_pct (int 0) /ℚ int 100))

unfoldable pub position_risk : ℚ → ℚ → ℚ → SymbolSpec → Option ℚ
position_risk lots entry stop_loss spec = elim (risk_per_lot entry stop_loss spec) [
  | none ↦ none
  | some per_lot ↦ if positive (lots ∷ []) then some (lots *ℚ per_lot) else none
]

-- The margin test that `position_size` makes when a free margin is supplied.
fits_free_margin : ℚ → SymbolSpec → Option ℚ → ℚ → ℚ → Bool
fits_free_margin lots spec none price leverage = true
fits_free_margin lots spec (some free) price leverage =
    margin_within_free_margin (required_margin lots spec price leverage) (some free) (int 0)

unfoldable pub position_size : ℚ → ℚ → ℚ → ℚ → SymbolSpec → Option ℚ → Option ℚ → ℚ → Option ℚ
unfolding fits_free_margin
position_size equity risk_pct entry stop_loss spec free_margin price leverage =
    let budget = equity *ℚ risk_pct /ℚ int 100 in
    let at = unwrap_or price entry in
    if not (positive (equity ∷ risk_pct ∷ entry ∷ stop_loss ∷ []))
    then none
    else elim (risk_per_lot entry stop_loss spec) [
      | none ↦ none
      | some per_lot ↦
          if not (positive (budget ∷ []))
          then none
          else elim (normalize_volume (some (budget /ℚ per_lot)) spec) [
            | none ↦ none
            | some lots ↦
                if fits_free_margin lots spec free_margin at leverage then some lots else none
          ]
    ]

unfoldable pub size_for_loss_budget : ℚ → ℚ → ℚ → SymbolSpec → Option ℚ
size_for_loss_budget loss_budget entry stop_loss spec =
    if not (positive (loss_budget ∷ entry ∷ stop_loss ∷ []))
    then none
    else elim (risk_per_lot entry stop_loss spec) [
      | none ↦ none
      | some per_lot ↦ normalize_volume (some (loss_budget /ℚ per_lot)) spec
    ]

unfoldable pub minimum_volume_risk : ℚ → ℚ → SymbolSpec → Option ℚ
minimum_volume_risk entry stop_loss spec = elim (risk_per_lot entry stop_loss spec) [
  | none ↦ none
  | some per_lot ↦
      if positive (spec.volume_min ∷ []) then some (spec.volume_min *ℚ per_lot) else none
]

unfoldable pub value_per_point_per_lot : SymbolSpec → Option ℚ
value_per_point_per_lot spec =
    if not (positive (spec.point ∷ []))
    then none
    else if positive (spec.tick_size ∷ spec.tick_value ∷ [])
    then some (spec.point /ℚ spec.tick_size *ℚ spec.tick_value)
    else if positive (spec.contract_size ∷ [])
    then some (spec.point *ℚ spec.contract_size)
    else none

unfoldable pub min_stop_distance : SymbolSpec → ℚ
min_stop_distance spec =
    let levels = max_ℚ spec.trade_stops_level spec.freeze_level in
    if positive (spec.point ∷ []) then max_ℚ levels (int 0) *ℚ spec.point else int 0

-- The attributes of an MT5 `symbol_info` that the conversion reads.
pub record SymbolInfo : Type 0 where
  pub volume_min : Option ℚ
  pub volume_max : Option ℚ
  pub volume_step : Option ℚ
  pub trade_tick_value : Option ℚ
  pub trade_tick_value_profit : Option ℚ
  pub trade_tick_size : Option ℚ
  pub point : Option ℚ
  pub trade_stops_level : Option ℚ
  pub freeze_level : Option ℚ
  pub trade_contract_size : Option ℚ
  pub margin_initial : Option ℚ
  pub digits : Option ℚ
  pub filling_mode : Option ℚ

-- `number(name, default)`
abbrev number : Option ℚ → ℚ → ℚ
number none default = default
number (some v) default = v

-- `int(value)` cuts towards zero.
truncate : ℚ → ℚ
truncate v = if leb v.minus v.plus then int (floor v) else neg (int (floor (neg v)))

-- `x or y` on numbers: y where x is zero
or_number : ℚ → ℚ → ℚ
or_number x y = if eqb_ℚ x (int 0) then y else x

clamp_digits : ℚ → ℕ
clamp_digits d = if leb_ℚ (int 0) d && leb_ℚ d (int 8) then floor d else 5

-- The conversion before its closing tests. `filling_mode` is a bit set and is not negative.
build_spec : SymbolInfo → SymbolSpec
unfolding truncate or_number clamp_digits
build_spec info =
    let point = number info.point (int 0) in
    record {
      volume_min = number info.volume_min (int 0);
      volume_max = number info.volume_max (int 0);
      volume_step = number info.volume_step (int 0);
      tick_value =
          or_number (number info.trade_tick_value (int 0))
            (number info.trade_tick_value_profit (int 0));
      tick_size = or_number (number info.trade_tick_size (int 0)) point;
      point = point;
      trade_stops_level = truncate (number info.trade_stops_level (int 0));
      freeze_level = truncate (number info.freeze_level (int 0));
      contract_size = number info.trade_contract_size (int 0);
      margin_per_lot = number info.margin_initial (int 0);
      digits = clamp_digits (truncate (number info.digits (int 5)));
      filling_mode = floor (number info.filling_mode (int 0));
    }

unfoldable pub spec_from_symbol_info : Option SymbolInfo → Option SymbolSpec
unfolding build_spec
spec_from_symbol_info none = none
spec_from_symbol_info (some info) =
    let spec = build_spec info in
    if not (positive (spec.volume_min ∷ spec.volume_max ∷ spec.volume_step ∷ spec.point ∷ []))
    then none
    else if ltb_ℚ spec.volume_max spec.volume_min
    then none
    else some spec
