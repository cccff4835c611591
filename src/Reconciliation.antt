-- ===== src/Reconciliation.antt =====
-- The matching of local trades with broker positions (app/services/reconciliation.py,
-- `Reconciler._match`): by ticket first, then by symbol, volume and opening time. A trade is known
-- by its `trade_id`, which is unique like the row's own id.
pub mod Matching
pub mod Booking
pub mod Idempotence
use mt5_trading_bot.Base.{
  ℕ, ◌-◌, ◌+◌, Bool, true, false, not, ◌&&◌, ◌||◌, leb, if◌then◌else◌, Option, none, some, List, [],
  ◌∷◌, any, find, keep,
}
use mt5_trading_bot.Num.{ℚ, ratio, abs, leb_ℚ, ◌-ℚ◌}
use mt5_trading_bot.Core.Text.{Text, text_eq, upper, is_empty}
use mt5_trading_bot.Database.{TradeRow}

-- `BrokerPosition`; its comment, which only names it, is left out.
pub record BrokerPosition : Type 0 where
  pub position_id : Text
  pub symbol : Text
  pub volume : ℚ
  pub open_time : Option ℕ
  pub tickets : List Text
  pub volume_closed : ℚ
  pub entry_price : Option ℚ
  pub exit_price : Option ℚ
  pub close_time : Option ℕ
  pub profit : ℚ
  pub commission : ℚ
  pub swap : ℚ
  pub order_ticket : Option Text
  pub entry_deal : Option Text
  pub exit_deal : Option Text
  pub close_reason : Option Text
  pub closed : Bool

pub data MatchKind : Type 0 where
  ticket fallback : MatchKind

pub record Pair : Type 0 where
  pub trade : TradeRow
  pub position : BrokerPosition
  pub kind : MatchKind

unfoldable pub is_taken : List Pair → BrokerPosition → Bool
is_taken pairs p = any (λ q. text_eq q.position.position_id p.position_id) pairs

unfoldable pub has_ticket : Text → BrokerPosition → Bool
has_ticket t p = not (is_empty t) && any (text_eq t) p.tickets

-- `by_ticket.get(str(ticket)) if ticket else None`: of two positions the first keeps a ticket.
by_ticket : List BrokerPosition → Option Text → Option BrokerPosition
unfolding has_ticket
by_ticket positions none = none
by_ticket positions (some t) = find (has_ticket t) positions

free_only : List Pair → Option BrokerPosition → Option BrokerPosition
unfolding is_taken
free_only pairs none = none
free_only pairs (some p) = if is_taken pairs p then none else some p

first_free : List BrokerPosition → List Pair → List (Option Text) → Option BrokerPosition
unfolding by_ticket free_only
first_free positions pairs [] = none
first_free positions pairs (t ∷ ts) =
    let rest = first_free positions pairs ts in
    elim (free_only pairs (by_ticket positions t)) [ some p ↦ some p | none ↦ rest ]

unfoldable pub pick_ticket : List BrokerPosition → List Pair → TradeRow → Option BrokerPosition
unfolding first_free
pick_ticket positions pairs t =
    first_free positions pairs (t.mt5_position_ticket ∷ t.mt5_deal_ticket ∷ t.mt5_order_ticket ∷ [])

-- `as_utc(trade.open_time) or as_utc(trade.created_at)`
abbrev reference : TradeRow → ℕ
reference t = elim t.open_time [ none ↦ t.created_at | some m ↦ m ]

in_reach : ℕ → ℕ → Option ℕ → Bool
in_reach window moment none = true
in_reach window moment (some opened) = leb ((moment - opened) + (opened - moment)) window

unfoldable pub alike : ℕ → TradeRow → BrokerPosition → Bool
unfolding in_reach
alike window t p =
    text_eq (upper p.symbol) (upper t.symbol)
    && (leb_ℚ (abs (p.volume -ℚ t.volume)) (ratio 1 999999)
        && in_reach window (reference t) p.open_time)

unfoldable pub pick_fallback :
    ℕ → List BrokerPosition → List Pair → TradeRow → Option BrokerPosition
unfolding alike is_taken
pick_fallback window positions pairs t =
    find (λ p. not (is_taken pairs p) && alike window t p) positions

abbrev add_pair : MatchKind → TradeRow → Option BrokerPosition → List Pair → List Pair
add_pair kind t none pairs = pairs
add_pair kind t (some p) pairs = record { trade = t; position = p; kind = kind } ∷ pairs

unfoldable pub ticket_pass : List BrokerPosition → List TradeRow → List Pair → List Pair
unfolding pick_ticket
ticket_pass positions [] pairs = pairs
ticket_pass positions (t ∷ ts) pairs =
    ticket_pass positions ts (add_pair ticket t (pick_ticket positions pairs t) pairs)

unfoldable pub fallback_pass : ℕ → List BrokerPosition → List TradeRow → List Pair → List Pair
unfolding pick_fallback
fallback_pass window positions [] pairs = pairs
fallback_pass window positions (t ∷ ts) pairs =
    fallback_pass window positions ts
      (add_pair fallback t (pick_fallback window positions pairs t) pairs)

unfoldable pub is_matched : List Pair → TradeRow → Bool
is_matched pairs t = any (λ q. text_eq q.trade.trade_id t.trade_id) pairs

-- The pairs, the last one first, and the positions that no trade took.
unfoldable pub match_positions :
    ℕ → List TradeRow → List BrokerPosition → List Pair × List BrokerPosition
unfolding ticket_pass fallback_pass is_matched is_taken
match_positions window trades positions =
    let by_tickets = ticket_pass positions trades [] in
    let unmatched = keep (λ t. not (is_matched by_tickets t)) trades in
    let pairs = fallback_pass window positions unmatched by_tickets in
    (pairs, keep (λ p. not (is_taken pairs p)) positions)
