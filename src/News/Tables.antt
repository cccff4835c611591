-- ===== src/News/Tables.antt =====
-- app/news/provider.py: the currency codes and the countries that it knows, and the words for an
-- importance. A blank is the code point 32.
use mt5_trading_bot.Base.{ℕ, List, [], ◌∷◌}
use mt5_trading_bot.Core.Text.{Text}

abbrev pub iso : ℕ → ℕ → ℕ → Text
iso a b c = a ∷ b ∷ c ∷ []

abbrev pub low_impact : Text
low_impact = b'l' ∷ b'o' ∷ b'w' ∷ []

abbrev pub medium_impact : Text
medium_impact = b'm' ∷ b'e' ∷ b'd' ∷ b'i' ∷ b'u' ∷ b'm' ∷ []

abbrev pub high_impact : Text
high_impact = b'h' ∷ b'i' ∷ b'g' ∷ b'h' ∷ []

-- `_IMPACT_BY_IMPORTANCE`
abbrev pub impact_by_importance : List (Text × Text)
impact_by_importance =
    (b'1' ∷ [], low_impact)
    ∷ (b'2' ∷ [], medium_impact)
    ∷ (b'3' ∷ [], high_impact)
    ∷ (low_impact, low_impact)
    ∷ (medium_impact, medium_impact)
    ∷ (high_impact, high_impact)
    ∷ []

abbrev pub known_currencies : List Text
known_currencies =
    iso b'U' b'S' b'D'
    ∷ iso b'E' b'U' b'R'
    ∷ iso b'J' b'P' b'Y'
    ∷ iso b'G' b'B' b'P'
    ∷ iso b'C' b'H' b'F'
    ∷ iso b'C' b'A' b'D'
    ∷ iso b'A' b'U' b'D'
    ∷ iso b'N' b'Z' b'D'
    ∷ iso b'C' b'N' b'Y'
    ∷ iso b'H' b'K' b'D'
    ∷ iso b'S' b'G' b'D'
    ∷ iso b'S' b'E' b'K'
    ∷ iso b'N' b'O' b'K'
    ∷ iso b'D' b'K' b'K'
    ∷ iso b'P' b'L' b'N'
    ∷ iso b'C' b'Z' b'K'
    ∷ iso b'H' b'U' b'F'
    ∷ iso b'R' b'O' b'N'
    ∷ iso b'B' b'G' b'N'
    ∷ iso b'H' b'R' b'K'
    ∷ iso b'I' b'S' b'K'
    ∷ iso b'T' b'R' b'Y'
    ∷ iso b'Z' b'A' b'R'
    ∷ iso b'M' b'X' b'N'
    ∷ iso b'B' b'R' b'L'
    ∷ iso b'A' b'R' b'S'
    ∷ iso b'C' b'L' b'P'
    ∷ iso b'C' b'O' b'P'
    ∷ iso b'P' b'E' b'N'
    ∷ iso b'U' b'Y' b'U'
    ∷ iso b'R' b'U' b'B'
    ∷ iso b'U' b'A' b'H'
    ∷ iso b'K' b'Z' b'T'
    ∷ iso b'I' b'L' b'S'
    ∷ iso b'S' b'A' b'R'
    ∷ iso b'A' b'E' b'D'
    ∷ iso b'Q' b'A' b'R'
    ∷ iso b'K' b'W' b'D'
    ∷ iso b'B' b'H' b'D'
    ∷ iso b'O' b'M' b'R'
    ∷ iso b'J' b'O' b'D'
    ∷ iso b'E' b'G' b'P'
    ∷ iso b'N' b'G' b'N'
    ∷ iso b'K' b'E' b'S'
    ∷ iso b'G' b'H' b'S'
    ∷ iso b'M' b'A' b'D'
    ∷ iso b'T' b'N' b'D'
    ∷ iso b'Z' b'M' b'W'
    ∷ iso b'I' b'N' b'R'
    ∷ iso b'I' b'D' b'R'
    ∷ iso b'M' b'Y' b'R'
    ∷ iso b'T' b'H' b'B'
    ∷ iso b'P' b'H' b'P'
    ∷ iso b'V' b'N' b'D'
    ∷ iso b'K' b'R' b'W'
    ∷ iso b'T' b'W' b'D'
    ∷ iso b'P' b'K' b'R'
    ∷ iso b'B' b'D' b'T'
    ∷ iso b'L' b'K' b'R'
    ∷ iso b'N' b'P' b'R'
    ∷ []

-- `_COUNTRY_CURRENCIES`
abbrev pub country_currencies : List (Text × Text)
country_currencies =
    (
      b'u' ∷ b'n' ∷ b'i' ∷ b't' ∷ b'e' ∷ b'd' ∷ 32 ∷ b's' ∷ b't' ∷ b'a' ∷ b't' ∷ b'e' ∷ b's' ∷ [],
      iso b'U' b'S' b'D',
    )
    ∷ (b'e' ∷ b'u' ∷ b'r' ∷ b'o' ∷ 32 ∷ b'a' ∷ b'r' ∷ b'e' ∷ b'a' ∷ [], iso b'E' b'U' b'R')
    ∷ (b'e' ∷ b'u' ∷ b'r' ∷ b'o' ∷ b'a' ∷ b'r' ∷ b'e' ∷ b'a' ∷ [], iso b'E' b'U' b'R')
    ∷ (b'g' ∷ b'e' ∷ b'r' ∷ b'm' ∷ b'a' ∷ b'n' ∷ b'y' ∷ [], iso b'E' b'U' b'R')
    ∷ (b'f' ∷ b'r' ∷ b'a' ∷ b'n' ∷ b'c' ∷ b'e' ∷ [], iso b'E' b'U' b'R')
    ∷ (b'i' ∷ b't' ∷ b'a' ∷ b'l' ∷ b'y' ∷ [], iso b'E' b'U' b'R')
    ∷ (b's' ∷ b'p' ∷ b'a' ∷ b'i' ∷ b'n' ∷ [], iso b'E' b'U' b'R')
    ∷ (
      b'n' ∷ b'e' ∷ b't' ∷ b'h' ∷ b'e' ∷ b'r' ∷ b'l' ∷ b'a' ∷ b'n' ∷ b'd' ∷ b's' ∷ [],
      iso b'E' b'U' b'R',
    )
    ∷ (b'b' ∷ b'e' ∷ b'l' ∷ b'g' ∷ b'i' ∷ b'u' ∷ b'm' ∷ [], iso b'E' b'U' b'R')
    ∷ (b'p' ∷ b'o' ∷ b'r' ∷ b't' ∷ b'u' ∷ b'g' ∷ b'a' ∷ b'l' ∷ [], iso b'E' b'U' b'R')
    ∷ (b'i' ∷ b'r' ∷ b'e' ∷ b'l' ∷ b'a' ∷ b'n' ∷ b'd' ∷ [], iso b'E' b'U' b'R')
    ∷ (b'g' ∷ b'r' ∷ b'e' ∷ b'e' ∷ b'c' ∷ b'e' ∷ [], iso b'E' b'U' b'R')
    ∷ (b'a' ∷ b'u' ∷ b's' ∷ b't' ∷ b'r' ∷ b'i' ∷ b'a' ∷ [], iso b'E' b'U' b'R')
    ∷ (b'f' ∷ b'i' ∷ b'n' ∷ b'l' ∷ b'a' ∷ b'n' ∷ b'd' ∷ [], iso b'E' b'U' b'R')
    ∷ (b's' ∷ b'l' ∷ b'o' ∷ b'v' ∷ b'a' ∷ b'k' ∷ b'i' ∷ b'a' ∷ [], iso b'E' b'U' b'R')
    ∷ (
      b'u' ∷ b'n' ∷ b'i' ∷ b't' ∷ b'e' ∷ b'd' ∷ 32 ∷ b'k' ∷ b'i' ∷ b'n' ∷ b'g' ∷ b'd' ∷ b'o' ∷ b'm'
          ∷ [],
      iso b'G' b'B' b'P',
    )
    ∷ (b'j' ∷ b'a' ∷ b'p' ∷ b'a' ∷ b'n' ∷ [], iso b'J' b'P' b'Y')
    ∷ (
      b's' ∷ b'w' ∷ b'i' ∷ b't' ∷ b'z' ∷ b'e' ∷ b'r' ∷ b'l' ∷ b'a' ∷ b'n' ∷ b'd' ∷ [],
      iso b'C' b'H' b'F',
    )
    ∷ (b'c' ∷ b'a' ∷ b'n' ∷ b'a' ∷ b'd' ∷ b'a' ∷ [], iso b'C' b'A' b'D')
    ∷ (b'a' ∷ b'u' ∷ b's' ∷ b't' ∷ b'r' ∷ b'a' ∷ b'l' ∷ b'i' ∷ b'a' ∷ [], iso b'A' b'U' b'D')
    ∷ (
      b'n' ∷ b'e' ∷ b'w' ∷ 32 ∷ b'z' ∷ b'e' ∷ b'a' ∷ b'l' ∷ b'a' ∷ b'n' ∷ b'd' ∷ [],
      iso b'N' b'Z' b'D',
    )
    ∷ (b'c' ∷ b'h' ∷ b'i' ∷ b'n' ∷ b'a' ∷ [], iso b'C' b'N' b'Y')
    ∷ (b'h' ∷ b'o' ∷ b'n' ∷ b'g' ∷ 32 ∷ b'k' ∷ b'o' ∷ b'n' ∷ b'g' ∷ [], iso b'H' b'K' b'D')
    ∷ (b's' ∷ b'i' ∷ b'n' ∷ b'g' ∷ b'a' ∷ b'p' ∷ b'o' ∷ b'r' ∷ b'e' ∷ [], iso b'S' b'G' b'D')
    ∷ (b's' ∷ b'w' ∷ b'e' ∷ b'd' ∷ b'e' ∷ b'n' ∷ [], iso b'S' b'E' b'K')
    ∷ (b'n' ∷ b'o' ∷ b'r' ∷ b'w' ∷ b'a' ∷ b'y' ∷ [], iso b'N' b'O' b'K')
    ∷ (b'd' ∷ b'e' ∷ b'n' ∷ b'm' ∷ b'a' ∷ b'r' ∷ b'k' ∷ [], iso b'D' b'K' b'K')
    ∷ (b'p' ∷ b'o' ∷ b'l' ∷ b'a' ∷ b'n' ∷ b'd' ∷ [], iso b'P' b'L' b'N')
    ∷ (
      b'c' ∷ b'z' ∷ b'e' ∷ b'c' ∷ b'h' ∷ 32 ∷ b'r' ∷ b'e' ∷ b'p' ∷ b'u' ∷ b'b' ∷ b'l' ∷ b'i' ∷ b'c'
          ∷ [],
      iso b'C' b'Z' b'K',
    )
    ∷ (b'h' ∷ b'u' ∷ b'n' ∷ b'g' ∷ b'a' ∷ b'r' ∷ b'y' ∷ [], iso b'H' b'U' b'F')
    ∷ (b'r' ∷ b'o' ∷ b'm' ∷ b'a' ∷ b'n' ∷ b'i' ∷ b'a' ∷ [], iso b'R' b'O' b'N')
    ∷ (b'b' ∷ b'u' ∷ b'l' ∷ b'g' ∷ b'a' ∷ b'r' ∷ b'i' ∷ b'a' ∷ [], iso b'B' b'G' b'N')
    ∷ (b't' ∷ b'u' ∷ b'r' ∷ b'k' ∷ b'e' ∷ b'y' ∷ [], iso b'T' b'R' b'Y')
    ∷ (
      b's' ∷ b'o' ∷ b'u' ∷ b't' ∷ b'h' ∷ 32 ∷ b'a' ∷ b'f' ∷ b'r' ∷ b'i' ∷ b'c' ∷ b'a' ∷ [],
      iso b'Z' b'A' b'R',
    )
    ∷ (b'm' ∷ b'e' ∷ b'x' ∷ b'i' ∷ b'c' ∷ b'o' ∷ [], iso b'M' b'X' b'N')
    ∷ (b'b' ∷ b'r' ∷ b'a' ∷ b'z' ∷ b'i' ∷ b'l' ∷ [], iso b'B' b'R' b'L')
    ∷ (b'a' ∷ b'r' ∷ b'g' ∷ b'e' ∷ b'n' ∷ b't' ∷ b'i' ∷ b'n' ∷ b'a' ∷ [], iso b'A' b'R' b'S')
    ∷ (b'c' ∷ b'h' ∷ b'i' ∷ b'l' ∷ b'e' ∷ [], iso b'C' b'L' b'P')
    ∷ (b'c' ∷ b'o' ∷ b'l' ∷ b'o' ∷ b'm' ∷ b'b' ∷ b'i' ∷ b'a' ∷ [], iso b'C' b'O' b'P')
    ∷ (b'p' ∷ b'e' ∷ b'r' ∷ b'u' ∷ [], iso b'P' b'E' b'N')
    ∷ (b'r' ∷ b'u' ∷ b's' ∷ b's' ∷ b'i' ∷ b'a' ∷ [], iso b'R' b'U' b'B')
    ∷ (b'u' ∷ b'k' ∷ b'r' ∷ b'a' ∷ b'i' ∷ b'n' ∷ b'e' ∷ [], iso b'U' b'A' b'H')
    ∷ (b'k' ∷ b'a' ∷ b'z' ∷ b'a' ∷ b'k' ∷ b'h' ∷ b's' ∷ b't' ∷ b'a' ∷ b'n' ∷ [], iso b'K' b'Z' b'T')
    ∷ (b'i' ∷ b's' ∷ b'r' ∷ b'a' ∷ b'e' ∷ b'l' ∷ [], iso b'I' b'L' b'S')
    ∷ (
      b's' ∷ b'a' ∷ b'u' ∷ b'd' ∷ b'i' ∷ 32 ∷ b'a' ∷ b'r' ∷ b'a' ∷ b'b' ∷ b'i' ∷ b'a' ∷ [],
      iso b'S' b'A' b'R',
    )
    ∷ (
      b'u' ∷ b'n' ∷ b'i' ∷ b't' ∷ b'e' ∷ b'd' ∷ 32 ∷ b'a' ∷ b'r' ∷ b'a' ∷ b'b' ∷ 32 ∷ b'e' ∷ b'm'
          ∷ b'i' ∷ b'r' ∷ b'a' ∷ b't' ∷ b'e' ∷ b's' ∷ [],
      iso b'A' b'E' b'D',
    )
    ∷ (b'q' ∷ b'a' ∷ b't' ∷ b'a' ∷ b'r' ∷ [], iso b'Q' b'A' b'R')
    ∷ (b'k' ∷ b'u' ∷ b'w' ∷ b'a' ∷ b'i' ∷ b't' ∷ [], iso b'K' b'W' b'D')
    ∷ (b'i' ∷ b'n' ∷ b'd' ∷ b'i' ∷ b'a' ∷ [], iso b'I' b'N' b'R')
    ∷ (b'i' ∷ b'n' ∷ b'd' ∷ b'o' ∷ b'n' ∷ b'e' ∷ b's' ∷ b'i' ∷ b'a' ∷ [], iso b'I' b'D' b'R')
    ∷ (b'm' ∷ b'a' ∷ b'l' ∷ b'a' ∷ b'y' ∷ b's' ∷ b'i' ∷ b'a' ∷ [], iso b'M' b'Y' b'R')
    ∷ (b't' ∷ b'h' ∷ b'a' ∷ b'i' ∷ b'l' ∷ b'a' ∷ b'n' ∷ b'd' ∷ [], iso b'T' b'H' b'B')
    ∷ (
      b'p' ∷ b'h' ∷ b'i' ∷ b'l' ∷ b'i' ∷ b'p' ∷ b'p' ∷ b'i' ∷ b'n' ∷ b'e' ∷ b's' ∷ [],
      iso b'P' b'H' b'P',
    )
    ∷ (b'v' ∷ b'i' ∷ b'e' ∷ b't' ∷ b'n' ∷ b'a' ∷ b'm' ∷ [], iso b'V' b'N' b'D')
    ∷ (
      b's' ∷ b'o' ∷ b'u' ∷ b't' ∷ b'h' ∷ 32 ∷ b'k' ∷ b'o' ∷ b'r' ∷ b'e' ∷ b'a' ∷ [],
      iso b'K' b'R' b'W',
    )
    ∷ (b't' ∷ b'a' ∷ b'i' ∷ b'w' ∷ b'a' ∷ b'n' ∷ [], iso b'T' b'W' b'D')
    ∷ (b'p' ∷ b'a' ∷ b'k' ∷ b'i' ∷ b's' ∷ b't' ∷ b'a' ∷ b'n' ∷ [], iso b'P' b'K' b'R')
    ∷ (b'b' ∷ b'a' ∷ b'n' ∷ b'g' ∷ b'l' ∷ b'a' ∷ b'd' ∷ b'e' ∷ b's' ∷ b'h' ∷ [], iso b'B' b'D' b'T')
    ∷ (b's' ∷ b'r' ∷ b'i' ∷ 32 ∷ b'l' ∷ b'a' ∷ b'n' ∷ b'k' ∷ b'a' ∷ [], iso b'L' b'K' b'R')
    ∷ (b'n' ∷ b'e' ∷ b'p' ∷ b'a' ∷ b'l' ∷ [], iso b'N' b'P' b'R')
    ∷ (b'e' ∷ b'g' ∷ b'y' ∷ b'p' ∷ b't' ∷ [], iso b'E' b'G' b'P')
    ∷ (b'n' ∷ b'i' ∷ b'g' ∷ b'e' ∷ b'r' ∷ b'i' ∷ b'a' ∷ [], iso b'N' b'G' b'N')
    ∷ (b'k' ∷ b'e' ∷ b'n' ∷ b'y' ∷ b'a' ∷ [], iso b'K' b'E' b'S')
    ∷ (b'g' ∷ b'h' ∷ b'a' ∷ b'n' ∷ b'a' ∷ [], iso b'G' b'H' b'S')
    ∷ (b'm' ∷ b'o' ∷ b'r' ∷ b'o' ∷ b'c' ∷ b'c' ∷ b'o' ∷ [], iso b'M' b'A' b'D')
    ∷ (b't' ∷ b'u' ∷ b'n' ∷ b'i' ∷ b's' ∷ b'i' ∷ b'a' ∷ [], iso b'T' b'N' b'D')
    ∷ []

abbrev pub trading_economics : Text
trading_economics =
    b't' ∷ b'r' ∷ b'a' ∷ b'd' ∷ b'i' ∷ b'n' ∷ b'g' ∷ b'_' ∷ b'e' ∷ b'c' ∷ b'o' ∷ b'n' ∷ b'o' ∷ b'm'
    ∷ b'i' ∷ b'c' ∷ b's' ∷ []

abbrev pub static_name : Text
static_name = b's' ∷ b't' ∷ b'a' ∷ b't' ∷ b'i' ∷ b'c' ∷ []

abbrev pub date_fields : List Text
date_fields =
    (b'D' ∷ b'a' ∷ b't' ∷ b'e' ∷ [])
    ∷ (b'd' ∷ b'a' ∷ b't' ∷ b'e' ∷ [])
    ∷ (b'T' ∷ b'i' ∷ b'm' ∷ b'e' ∷ b's' ∷ b't' ∷ b'a' ∷ b'm' ∷ b'p' ∷ [])
    ∷ []

abbrev pub importance_fields : List Text
importance_fields =
    (b'I' ∷ b'm' ∷ b'p' ∷ b'o' ∷ b'r' ∷ b't' ∷ b'a' ∷ b'n' ∷ b'c' ∷ b'e' ∷ [])
    ∷ (b'i' ∷ b'm' ∷ b'p' ∷ b'o' ∷ b'r' ∷ b't' ∷ b'a' ∷ b'n' ∷ b'c' ∷ b'e' ∷ [])
    ∷ (b'I' ∷ b'm' ∷ b'p' ∷ b'a' ∷ b'c' ∷ b't' ∷ [])
    ∷ []

abbrev pub country_fields : List Text
country_fields =
    (b'C' ∷ b'o' ∷ b'u' ∷ b'n' ∷ b't' ∷ b'r' ∷ b'y' ∷ [])
    ∷ (b'c' ∷ b'o' ∷ b'u' ∷ b'n' ∷ b't' ∷ b'r' ∷ b'y' ∷ [])
    ∷ []

abbrev pub currency_fields : List Text
currency_fields =
    (b'C' ∷ b'u' ∷ b'r' ∷ b'r' ∷ b'e' ∷ b'n' ∷ b'c' ∷ b'y' ∷ [])
    ∷ (b'c' ∷ b'u' ∷ b'r' ∷ b'r' ∷ b'e' ∷ b'n' ∷ b'c' ∷ b'y' ∷ [])
    ∷ []

abbrev pub event_fields : List Text
event_fields =
    (b'E' ∷ b'v' ∷ b'e' ∷ b'n' ∷ b't' ∷ [])
    ∷ (b'e' ∷ b'v' ∷ b'e' ∷ b'n' ∷ b't' ∷ [])
    ∷ (b'C' ∷ b'a' ∷ b't' ∷ b'e' ∷ b'g' ∷ b'o' ∷ b'r' ∷ b'y' ∷ [])
    ∷ []

abbrev pub id_fields : List Text
id_fields =
    (b'C' ∷ b'a' ∷ b'l' ∷ b'e' ∷ b'n' ∷ b'd' ∷ b'a' ∷ b'r' ∷ b'I' ∷ b'd' ∷ [])
    ∷ (b'c' ∷ b'a' ∷ b'l' ∷ b'e' ∷ b'n' ∷ b'd' ∷ b'a' ∷ b'r' ∷ b'_' ∷ b'i' ∷ b'd' ∷ [])
    ∷ (b'E' ∷ b'v' ∷ b'e' ∷ b'n' ∷ b't' ∷ b'I' ∷ b'd' ∷ [])
    ∷ []

abbrev pub actual_fields : List Text
actual_fields =
    (b'A' ∷ b'c' ∷ b't' ∷ b'u' ∷ b'a' ∷ b'l' ∷ [])
    ∷ (b'a' ∷ b'c' ∷ b't' ∷ b'u' ∷ b'a' ∷ b'l' ∷ [])
    ∷ []

abbrev pub forecast_fields : List Text
forecast_fields =
    (b'F' ∷ b'o' ∷ b'r' ∷ b'e' ∷ b'c' ∷ b'a' ∷ b's' ∷ b't' ∷ [])
    ∷ (b'f' ∷ b'o' ∷ b'r' ∷ b'e' ∷ b'c' ∷ b'a' ∷ b's' ∷ b't' ∷ [])
    ∷ (b'T' ∷ b'E' ∷ b'F' ∷ b'o' ∷ b'r' ∷ b'e' ∷ b'c' ∷ b'a' ∷ b's' ∷ b't' ∷ [])
    ∷ []

abbrev pub previous_fields : List Text
previous_fields =
    (b'P' ∷ b'r' ∷ b'e' ∷ b'v' ∷ b'i' ∷ b'o' ∷ b'u' ∷ b's' ∷ [])
    ∷ (b'p' ∷ b'r' ∷ b'e' ∷ b'v' ∷ b'i' ∷ b'o' ∷ b'u' ∷ b's' ∷ [])
    ∷ []
