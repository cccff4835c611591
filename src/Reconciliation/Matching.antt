-- ===== src/Reconciliation/Matching.antt =====
-- What a matching is (app/services/reconciliation.py, `_match`).
use mt5_trading_bot.Base.{
  ℕ, ◌≡◌, refl, inl, inr, Bool, true, false, not, ◌&&◌, Option, none, some, List, [], ◌∷◌, arith,
  any, find, keep, Option-cases, Bool-cases, some_inj,
}
use mt5_trading_bot.Core.Text.{Text}
use mt5_trading_bot.Database.{TradeRow}
use mt5_trading_bot.Reconciliation.{
  BrokerPosition, MatchKind, ticket, fallback, Pair, is_taken, has_ticket, alike, pick_ticket,
  pick_fallback, by_ticket, free_only, first_free, add_pair, ticket_pass, fallback_pass,
  match_positions, is_matched,
}

abbrev carries : Option Text → BrokerPosition → Bool
carries none p = false
carries (some t) p = has_ticket t p

-- Why a pair was made.
abbrev pub Reason : ℕ → MatchKind → TradeRow → BrokerPosition → Type 0
Reason window ticket t p =
    any (λ ticket_of. carries ticket_of p)
      (t.mt5_position_ticket ∷ t.mt5_deal_ticket ∷ t.mt5_order_ticket ∷ [])
    ≡ true
Reason window fallback t p = alike window t p ≡ true

-- No position is taken twice, and every pair has its reason.
abbrev pub Matched : ℕ → List Pair → Type 0
Matched window [] = Unit
Matched window (q ∷ qs) =
    (is_taken qs q.position ≡ false) × Reason window q.kind q.trade q.position × Matched window qs

find_passes {ℓ} :
    {A : Type ℓ} (p : A → Bool) (xs : List A) (x : A) → find p xs ≡ some x → p x ≡ true
find_passes p [] x h = absurd (cc h)
find_passes p (y ∷ ys) x h = elim (Bool-cases (p y)) [
  | inl e ↦ rw (← some_inj (rw e at h)) e
  | inr e ↦ find_passes p ys x (rw e at h)
]

free_only-is_taken :
    (pairs : List Pair) (o : Option BrokerPosition) (p : BrokerPosition)
    → free_only pairs o ≡ some p
    → (o ≡ some p) × (is_taken pairs p ≡ false)
unfolding free_only
free_only-is_taken pairs none p h = absurd (cc h)
free_only-is_taken pairs (some x) p h = elim (Bool-cases (is_taken pairs x)) [
  | inl e ↦ absurd (cc (rw e at h))
  | inr e ↦ let same = some_inj (rw e at h) in (rw same refl, rw (← same) e)
]

by_ticket-carries :
    (positions : List BrokerPosition) (t : Option Text) (p : BrokerPosition)
    → by_ticket positions t ≡ some p
    → carries t p ≡ true
unfolding by_ticket
by_ticket-carries positions none p h = absurd (cc h)
by_ticket-carries positions (some t) p h = find_passes (has_ticket t) positions p h

first_free-is_taken :
    (positions : List BrokerPosition) (pairs : List Pair) (ts : List (Option Text))
    (p : BrokerPosition)
    → first_free positions pairs ts ≡ some p
    → (is_taken pairs p ≡ false) × (any (λ t. carries t p) ts ≡ true)
unfolding first_free
first_free-is_taken positions pairs [] p h = absurd (cc h)
first_free-is_taken positions pairs (t ∷ ts) p h =
    elim (Option-cases (free_only pairs (by_ticket positions t))) [
      | inl e ↦
          let (free, carried) =
            first_free-is_taken positions pairs ts p (rw (e, first_free) at h) in
          (free, ground (arith, carried))
      | inr (q, e) ↦
          let same : q ≡ p = some_inj (rw (e, first_free) at h) in
          let (found, free) = free_only-is_taken pairs (by_ticket positions t) p (rw same at e) in
          (free, ground (arith, by_ticket-carries positions t p found))
    ]

add_pair-Matched :
    (window : ℕ) (kind : MatchKind) (t : TradeRow) (o : Option BrokerPosition) (pairs : List Pair)
    → ((p : BrokerPosition) → o ≡ some p → (is_taken pairs p ≡ false) × Reason window kind t p)
    → Matched window pairs
    → Matched window (add_pair kind t o pairs)
add_pair-Matched window kind t none pairs picked h = h
add_pair-Matched window kind t (some p) pairs picked h = ((picked p refl).0, (picked p refl).1, h)

picked_by_ticket :
    (window : ℕ) (positions : List BrokerPosition) (pairs : List Pair) (t : TradeRow)
    (p : BrokerPosition)
    → pick_ticket positions pairs t ≡ some p
    → (is_taken pairs p ≡ false) × Reason window ticket t p
unfolding pick_ticket
picked_by_ticket window positions pairs t p h =
    first_free-is_taken positions pairs
      (t.mt5_position_ticket ∷ t.mt5_deal_ticket ∷ t.mt5_order_ticket ∷ []) p h

picked_by_fallback :
    (window : ℕ) (positions : List BrokerPosition) (pairs : List Pair) (t : TradeRow)
    (p : BrokerPosition)
    → pick_fallback window positions pairs t ≡ some p
    → (is_taken pairs p ≡ false) × Reason window fallback t p
unfolding pick_fallback
picked_by_fallback window positions pairs t p h =
    let passes : (not (is_taken pairs p) && alike window t p) ≡ true =
      find_passes (λ q. not (is_taken pairs q) && alike window t q) positions p h in
    (ground (arith, passes), ground (arith, passes))

ticket_pass-Matched :
    (window : ℕ) (positions : List BrokerPosition) (trades : List TradeRow) (pairs : List Pair)
    → Matched window pairs
    → Matched window (ticket_pass positions trades pairs)
unfolding ticket_pass
ticket_pass-Matched window positions [] pairs h = h
ticket_pass-Matched window positions (t ∷ ts) pairs h =
    ticket_pass-Matched window positions ts
      (add_pair ticket t (pick_ticket positions pairs t) pairs)
      (add_pair-Matched window ticket t (pick_ticket positions pairs t) pairs
        (picked_by_ticket window positions pairs t) h)

fallback_pass-Matched :
    (window : ℕ) (positions : List BrokerPosition) (trades : List TradeRow) (pairs : List Pair)
    → Matched window pairs
    → Matched window (fallback_pass window positions trades pairs)
unfolding fallback_pass
fallback_pass-Matched window positions [] pairs h = h
fallback_pass-Matched window positions (t ∷ ts) pairs h =
    fallback_pass-Matched window positions ts
      (add_pair fallback t (pick_fallback window positions pairs t) pairs)
      (add_pair-Matched window fallback t (pick_fallback window positions pairs t) pairs
        (picked_by_fallback window positions pairs t) h)

-- The matching of any trades with any positions takes no position twice, and pairs a trade with a
-- position only where the position carries one of the trade's tickets, or where the two have the same
-- symbol, volumes within 1e-6 and opening times within the window (a position without one fits).
pub match_positions-Matched :
    (window : ℕ) (trades : List TradeRow) (positions : List BrokerPosition)
    → Matched window (match_positions window trades positions).0
unfolding match_positions
match_positions-Matched window trades positions =
    let by_tickets = ticket_pass positions trades [] in
    fallback_pass-Matched window positions (keep (λ t. not (is_matched by_tickets t)) trades)
      by_tickets (ticket_pass-Matched window positions trades [] tt)
