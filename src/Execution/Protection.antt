-- ===== src/Execution/Protection.antt =====
-- The verification of a filled position (app/execution/service.py, `_verify_protection`).
pub mod Outcome
use mt5_trading_bot.Base.{
  ℕ, Bool, true, false, not, ◌&&◌, ◌||◌, ◌==◌, if◌then◌else◌, Option, none, some, List, [], ◌∷◌,
  keep, find, unwrap_or,
}
use mt5_trading_bot.Num.{ℚ, int, ratio, billionth, ◌-ℚ◌, ◌/ℚ◌, abs, leb_ℚ, is_pos}
use mt5_trading_bot.Core.Text.{Text, text_eq, upper}
use mt5_trading_bot.Core.Settings.{Settings}
use mt5_trading_bot.Risk.Sizing.{SymbolSpec}
use mt5_trading_bot.Execution.Broker.{
  Position, CloseOutcome, close_raised, no_close_result, close_answered,
}

-- A position without a magic number counts as the bot's own.
unfoldable pub is_managed : ℕ → Position → Bool
is_managed magic p = unwrap_or p.magic magic == magic

has_ticket : Text → Position → Bool
has_ticket wanted p = elim p.ticket [ none ↦ false | some t ↦ text_eq t wanted ]

abbrev only : List Position → Option Position
only (p ∷ []) = some p
only _ = none

by_ticket : Option Text → List Position → Option Position
unfolding has_ticket
by_ticket none ps = none
by_ticket (some wanted) ps = find (has_ticket wanted) ps

-- `_find_position`: by ticket first, then the single managed position on the symbol.
unfoldable pub find_position : Settings → List Position → Text → Option Text → Option Position
unfolding is_managed by_ticket
find_position settings positions symbol ticket =
    let managed = keep (is_managed settings.magic_number) positions in
    let same_symbol = keep (λ p. text_eq (upper p.symbol) (upper symbol)) managed in
    elim (by_ticket ticket managed) [ some p ↦ some p | none ↦ only same_symbol ]

unfoldable pub find_live : Settings → Option (List Position) → Text → Option Text → Option Position
unfolding find_position
find_live settings none symbol ticket = none
find_live settings (some ps) symbol ticket = find_position settings ps symbol ticket

-- `_protection_intact`: both levels are there and are the approved ones.
unfoldable pub protection_intact : Position → ℚ → ℚ → ℚ → Bool
protection_intact p expected_sl expected_tp tolerance =
    let stop_loss = unwrap_or p.stop_loss (int 0) in
    let take_profit = unwrap_or p.take_profit (int 0) in
    if leb_ℚ stop_loss (int 0) || (is_pos expected_tp && leb_ℚ take_profit (int 0))
    then false
    else if not (leb_ℚ (abs (stop_loss -ℚ expected_sl)) tolerance)
    then false
    else leb_ℚ expected_tp (int 0) || leb_ℚ (abs (take_profit -ℚ expected_tp)) tolerance

unfoldable pub tolerance_of : SymbolSpec → ℚ
tolerance_of spec = if is_pos spec.point then spec.point /ℚ int 2 else billionth

-- The report, with the closing order that was sent.
pub data Protection : Type 0 where
  unverified : Protection
  verified : Position → Protection
  corrected : Position → Protection
  closed : Position → Protection
  close_unanswered : Position → Protection

abbrev intact_in : Option Position → ℚ → ℚ → ℚ → Bool
intact_in none sl tp tolerance = false
intact_in (some p) sl tp tolerance = protection_intact p sl tp tolerance

-- The position that is closed: the refreshed one, or else the one that was found first.
abbrev pub close_target : Position → Option Position → Position
close_target p none = p
close_target p (some r) = r

after_close : CloseOutcome → Position → Protection
after_close close_raised p = close_unanswered p
after_close no_close_result p = close_unanswered p
after_close close_answered p = closed p

-- A repair (one SLTP modification) whose result is read back; otherwise the position is closed.
unfoldable pub repair :
    Settings → Text → ℚ → ℚ → ℚ → Position → Option (List Position) → CloseOutcome → Protection
unfolding after_close
repair settings symbol sl tp tolerance p refreshed close =
    let repaired = find_live settings refreshed symbol p.ticket in
    if intact_in repaired sl tp tolerance
    then corrected (close_target p repaired)
    else after_close close (close_target p repaired)

unfoldable pub verify_protection :
    Settings
    → SymbolSpec
    → Text
    → Option ℚ
    → Option ℚ
    → Option Text
    → Option (List Position)
    → Option (List Position)
    → CloseOutcome
    → Protection
unfolding repair
verify_protection settings spec symbol stop_loss take_profit ticket filled refreshed close =
    let sl = unwrap_or stop_loss (int 0) in
    let tp = unwrap_or take_profit (int 0) in
    let tolerance = tolerance_of spec in
    elim (find_live settings filled symbol ticket) [
      | none ↦ unverified
      | some p ↦
          if protection_intact p sl tp tolerance
          then verified p
          else repair settings symbol sl tp tolerance p refreshed close
    ]
