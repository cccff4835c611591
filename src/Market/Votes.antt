-- ===== src/Market/Votes.antt =====
-- app/services/scheduler.py: what `_scan_symbol` reads of the positions, the candles and the strategies.
use mt5_trading_bot.Base.{
  ℕ, Bool, true, false, ◌&&◌, ◌==◌, if◌then◌else◌, Option, none, some, List, [], ◌∷◌, keep, is_some,
  unwrap_or,
}
use mt5_trading_bot.Num.{ℚ, int, ◌+ℚ◌, ◌*ℚ◌, abs, leb_ℚ, is_pos}
use mt5_trading_bot.Core.Text.{Text, text_eq, upper, is_empty}
use mt5_trading_bot.Core.Settings.{Settings}
use mt5_trading_bot.Core.Signal.{Signal}
use mt5_trading_bot.Risk.Sizing.{SymbolInfo, SymbolSpec, spec_from_symbol_info}
use mt5_trading_bot.Strategies.Ensemble.{is_vote, combine}

-- An open position as the terminal shows it.
pub record HeldPosition : Type 0 where
  pub symbol : Text
  pub magic : Option ℕ
  pub price_open : Option ℚ
  pub volume : Option ℚ

-- An enabled strategy with its timeframe, and the signal that it gives, `none` where it raises.
pub record Voter : Type 0 where
  pub timeframe : Text
  pub answer : Option Signal

-- `_managed_positions`: an unreadable magic counts as ours.
abbrev pub is_managed : ℕ → HeldPosition → Bool
is_managed magic p = unwrap_or p.magic magic == magic

abbrev pub managed_positions : ℕ → List HeldPosition → List HeldPosition
managed_positions magic ps = keep (is_managed magic) ps

-- `_margin_level`
unfoldable pub margin_level_of : Option ℚ → Option ℚ
margin_level_of none = none
margin_level_of (some v) = if is_pos v then some v else none

-- One position's notional.
abbrev pub notional_of : Option SymbolSpec → HeldPosition → Option ℚ
notional_of none p = none
notional_of (some spec) p = if leb_ℚ spec.contract_size (int 0) then none else elim p.price_open [
  | none ↦ none
  | some price ↦ elim p.volume [
    | none ↦ none
    | some volume ↦ some (abs volume *ℚ spec.contract_size *ℚ price)
  ]
]

-- `_exposure`: nothing where one position cannot be verified.
unfoldable pub exposure_of : (Text → Option SymbolSpec) → List HeldPosition → Option ℚ
exposure_of spec_of [] = some (int 0)
exposure_of spec_of (p ∷ ps) =
    let rest = exposure_of spec_of ps in
    elim (notional_of (spec_of p.symbol) p) [
      | none ↦ none
      | some n ↦ elim rest [ none ↦ none | some total ↦ some (n +ℚ total) ]
    ]

-- The specifications of a scan: the scanned symbol's was read, another's is asked for by its name.
abbrev pub spec_in : Text → SymbolSpec → (Text → Option SymbolInfo) → Text → Option SymbolSpec
spec_in symbol spec infos name =
    if text_eq name symbol
    then some spec
    else if is_empty name
    then none
    else spec_from_symbol_info (infos name)

abbrev pub h4 : Text
h4 = b'H' ∷ b'4' ∷ []

abbrev pub h1 : Text
h1 = b'H' ∷ b'1' ∷ []

abbrev pub all_closed : (Text → Option ℕ) → List Voter → Bool
all_closed closes [] = true
all_closed closes (v ∷ vs) = is_some (closes v.timeframe) && all_closed closes vs

-- `_frames`: the candles of every timeframe are usable.
unfoldable pub frames_ready : (Text → Option ℕ) → List Voter → Bool
frames_ready closes voters = is_some (closes h4) && is_some (closes h1) && all_closed closes voters

-- `_votes`: a strategy that raises leaves no decision set.
unfoldable pub votes_of : List Voter → Option (List Signal)
votes_of [] = some []
votes_of (v ∷ vs) =
    let rest = votes_of vs in
    elim v.answer [
      | none ↦ none
      | some s ↦ elim rest [
        | none ↦ none
        | some votes ↦ some (record s { timeframe = v.timeframe } ∷ votes)
      ]
    ]

abbrev pub unless_hold : Signal → List Signal
unless_hold s = if is_vote s then s ∷ [] else []

-- `_candidates`
unfoldable pub candidates_of : Settings → ℕ → Bool → List Signal → List Signal
candidates_of settings now by_ensemble votes =
    if by_ensemble then unless_hold (combine settings now votes) else keep is_vote votes

abbrev pub positions_in : Option (List HeldPosition) → List HeldPosition
positions_in none = []
positions_in (some ps) = ps

abbrev pub no_voter : List Voter → Bool
no_voter [] = true
no_voter (_ ∷ _) = false

abbrev pub same_symbol : Text → HeldPosition → Bool
same_symbol symbol p = text_eq (upper p.symbol) (upper symbol)
