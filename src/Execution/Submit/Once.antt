-- ===== src/Execution/Submit/Once.antt =====
-- One order for one key, and one live order for one authorization, however many submissions run.
use mt5_trading_bot.Base.{
  ℕ, ◌+◌, ◌≤◌, ◌≡◌, refl, sym, ◌∙◌, ◌⊎◌, inl, inr, Bool, true, false, not, ◌&&◌, ◌||◌,
  if◌then◌else◌, Option, none, List, [], ◌∷◌, ◌++◌, arith, Option-cases, Bool-cases, is_some,
}
use mt5_trading_bot.Num.{ℚ}
use mt5_trading_bot.Core.Text.{Text, text_eq}
use mt5_trading_bot.Core.Settings.{Settings, live_orders_permitted}
use mt5_trading_bot.Core.Signal.{TradeIntent}
use mt5_trading_bot.Database.{Db, GuardRow, TradeStatus}
use mt5_trading_bot.Risk.State.{consume_one_trade_authorization, one_trade_authorization}
use mt5_trading_bot.Risk.State.OneTrade.{allowance}
use mt5_trading_bot.Execution.Broker.{Replies}
use mt5_trading_bot.Execution.Request.{idempotency_key}
use mt5_trading_bot.Execution.Records.{
  find_trade, find_guard, persist_rejection, finish, reserve, set_guard, Fill,
}
use mt5_trading_bot.Execution.Submit.{
  Outcome, Refusal, Order, Gated, refused, cleared, gates, send_order, authorize_and_send, submit,
  reject, spending,
}

-- The key has a guard.
unfoldable pub reserved : Text → Db → Bool
reserved key db = is_some (find_guard key db.guards)

find_guard-set :
    (k key : Text) (status : TradeStatus) (ticket : Option Text) (gs : List GuardRow)
    → is_some (find_guard k (set_guard key status ticket gs)) ≡ is_some (find_guard k gs)
unfolding find_guard set_guard
find_guard-set k key status ticket [] = refl
find_guard-set k key status ticket (g ∷ gs) = ground (arith, find_guard-set k key status ticket gs)

find_guard-append :
    (k : Text) (gs : List GuardRow) (g : GuardRow)
    → is_some (find_guard k (gs ++ g ∷ []))
      ≡ (is_some (find_guard k gs) || text_eq g.idempotency_key k)
unfolding find_guard
find_guard-append k [] g = ground arith
find_guard-append k (x ∷ gs) g = ground (arith, find_guard-append k gs g)

finish-reserved :
    (k key : Text) (intent : TradeIntent) (volume : ℚ) (status : TradeStatus) (fill : Fill)
    (now : ℕ) (db : Db)
    → reserved k (finish key intent volume status fill now db).1 ≡ reserved k db
unfolding finish reserved
finish-reserved k key intent volume status fill now db =
    find_guard-set k key status fill.ticket db.guards

finish-allowance :
    (key : Text) (intent : TradeIntent) (volume : ℚ) (status : TradeStatus) (fill : Fill) (now : ℕ)
    (db : Db)
    → allowance (finish key intent volume status fill now db).1 ≡ allowance db
unfolding finish allowance
finish-allowance key intent volume status fill now db = refl

reject_keeps :
    (k : Text) (intent : TradeIntent) (r : Refusal) (now : ℕ) (db : Db)
    → ((reject intent r now db).0.sent ≡ none)
      × (reserved k (reject intent r now db).1 ≡ reserved k db)
      × (allowance (reject intent r now db).1 ≡ allowance db)
unfolding reject reserved allowance persist_rejection
reject_keeps k intent r now db = (refl, refl, refl)

or_false : (b : Bool) → (b || false) ≡ b
or_false true = refl
or_false false = refl

-- A reservation succeeds exactly on a free key, and takes it.
reserve_facts :
    (k key : Text) (intent : TradeIntent) (volume : ℚ) (now : ℕ) (db : Db)
    → ((reserve key intent volume now db).0 ≡ not (reserved key db))
      × (reserved k (reserve key intent volume now db).1
          ≡ (reserved k db || ((reserve key intent volume now db).0 && text_eq key k)))
      × (allowance (reserve key intent volume now db).1 ≡ allowance db)
unfolding reserve reserved allowance
reserve_facts k key intent volume now db = elim (Bool-cases (is_some (find_guard key db.guards))) [
  | inl e ↦ (
    rw (e, reserve) refl,
    rw (e, reserve) (sym (or_false (is_some (find_guard k db.guards)))),
    rw (e, reserve) refl,
  )
  | inr e ↦ (
    rw (e, reserve) refl,
    rw (e, reserve) (find_guard-append k db.guards _),
    rw (e, reserve) refl,
  )
]

-- One step of a submission: whether it sent, and what that does to the tables.
pub record Step (k key : Text) (sent : Bool) (before after : Db) : Type 0 where
  pub free : sent ≡ true → reserved key before ≡ false
  pub taken : reserved k after ≡ (reserved k before || (sent && text_eq key k))

unsent :
    (k key : Text) (before after : Db)
    → reserved k after ≡ reserved k before
    → Step k key false before after
unsent k key before after h = record {
  free = λ e. absurd (cc e);
  taken = h ∙ sym (or_false (reserved k before));
}

send_order-Step :
    (k key : Text) (settings : Settings) (intent : TradeIntent) (replies : Replies) (order : Order)
    (now : ℕ) (db : Db)
    → Step k key
        (is_some (send_order settings intent replies key order now db).0.sent)
        db
        (send_order settings intent replies key order now db).1
unfolding send_order
send_order-Step k key settings intent replies order now db =
    let (won, taken, _) = reserve_facts k key intent order.volume now db in
    elim (Bool-cases (reserve key intent order.volume now db).0) [
      | inl e ↦ record {
        free = λ _. ground (arith, won, e);
        taken =
            rw (e, send_order)
              (finish-reserved k key intent order.volume _ _ now _ ∙ rw e at taken);
      }
      | inr e ↦ rw (e, send_order) (unsent k key db _ (rw e at taken ∙ or_false _))
    ]

send_order-allowance :
    (key : Text) (settings : Settings) (intent : TradeIntent) (replies : Replies) (order : Order)
    (now : ℕ) (db : Db)
    → allowance (send_order settings intent replies key order now db).1 ≡ allowance db
unfolding send_order
send_order-allowance key settings intent replies order now db =
    let (_, _, kept) = reserve_facts key key intent order.volume now db in
    elim (Bool-cases (reserve key intent order.volume now db).0) [
      | inl e ↦ rw (e, send_order) (finish-allowance key intent order.volume _ _ now _ ∙ kept)
      | inr e ↦ rw (e, send_order) kept
    ]

consume_keeps :
    (k trade_id reason : Text) (now : ℕ) (db : Db)
    → (reserved k (consume_one_trade_authorization trade_id reason now db).1 ≡ reserved k db)
      × ((if (consume_one_trade_authorization trade_id reason now db).0 then 1 else 0)
            + allowance (consume_one_trade_authorization trade_id reason now db).1
          ≤ allowance db)
unfolding consume_one_trade_authorization one_trade_authorization reserved allowance
consume_keeps k trade_id reason now db = ground arith

-- What a submission does to the keys and to the allowance.
pub record Effect (k key : Text) (live : Bool) (sent : Bool) (before after : Db) : Type 0 where
  pub step : Step k key sent before after
  pub spent : live ≡ true → (if sent then 1 else 0) + allowance after ≤ allowance before

Step-from :
    {k key : Text} {sent : Bool} {before before' after : Db}
    → reserved key before' ≡ reserved key before
    → reserved k before' ≡ reserved k before
    → Step k key sent before' after
    → Step k key sent before after
Step-from same_key same_k s = record {
  free = λ e. sym same_key ∙ s.free e;
  taken = ground (arith, s.taken, same_k);
}

reject-Effect :
    (k key : Text) (live : Bool) (intent : TradeIntent) (r : Refusal) (now : ℕ) (before db : Db)
    → reserved k db ≡ reserved k before
    → allowance db ≤ allowance before
    → Effect k key live (is_some (reject intent r now db).0.sent) before (reject intent r now db).1
unfolding reject
reject-Effect k key live intent r now before db same le =
    let (_, kept, allowed) = reject_keeps k intent r now db in
    record { step = unsent k key before _ (kept ∙ same); spent = λ _. ground (arith, allowed, le) }

pub Gated-cases : (g : Gated) → ((r : Refusal) × (g ≡ refused r)) ⊎ ((o : Order) × (g ≡ cleared o))
Gated-cases (refused r) = inl (r, refl)
Gated-cases (cleared o) = inr (o, refl)

pub choose :
    {A : Type 0} {x y z w : A} (P : A → Type 0) (a b c : Bool)
    → (a ≡ true → P x)
    → P y
    → (c ≡ true → P z)
    → P w
    → P (if a then x else if b then y else if c then z else w)
choose P true b c p q r s = p refl
choose P false true c p q r s = q
choose P false false true p q r s = r refl
choose P false false false p q r s = s

authorize_and_send-Effect :
    (k key : Text) (settings : Settings) (intent : TradeIntent) (replies : Replies) (order : Order)
    (now : ℕ) (db : Db)
    → Effect k key
        (live_orders_permitted settings)
        (is_some (authorize_and_send settings intent replies key order now db).0.sent)
        db
        (authorize_and_send settings intent replies key order now db).1
unfolding authorize_and_send
authorize_and_send-Effect k key settings intent replies order now db =
    let (same, _) = consume_keeps k intent.trade_id (spending intent) now db in
    let (same_key, spends) = consume_keeps key intent.trade_id (spending intent) now db in
    let live = live_orders_permitted settings in
    let db' = (consume_one_trade_authorization intent.trade_id (spending intent) now db).1 in
    choose (λ (r : Outcome × Db). Effect k key live (is_some r.0.sent) db r.1) (not live)
      replies.reservation_raises
      (consume_one_trade_authorization intent.trade_id (spending intent) now db).0
      (λ e. record {
        step = send_order-Step k key settings intent replies order now db;
        spent = λ l. ground arith;
      })
      (reject-Effect k key live intent Refusal.authorization_unreadable now db db refl
        (omega arith))
      (λ won. record {
        step =
            Step-from same_key same (send_order-Step k key settings intent replies order now db');
        spent = λ _. ground (
          arith,
          send_order-allowance key settings intent replies order now db',
          rw won at spends,
        );
      })
      (reject-Effect k key live intent Refusal.authorization_spent now db db' same
        (ground (arith, spends)))

-- The duplicate checks of `submit` let the intent pass.
unfoldable pub passes_checks : (TradeIntent → Text) → TradeIntent → Db → Bool
unfolding reserved
passes_checks digest intent db =
    not (is_some (find_trade intent.trade_id db.trades))
    && not (reserved (idempotency_key digest intent) db)

-- A submission either stops at its duplicate checks and changes nothing, or acts on what its rivals
-- left.
pub submit-Effect :
    (k : Text) (digest : TradeIntent → Text) (settings : Settings) (intent : TradeIntent)
    (replies : Replies) (rivals : Db → Db) (now : ℕ) (db : Db)
    → let r = submit digest settings intent replies rivals now db in
      let key = idempotency_key digest intent in
      ((passes_checks digest intent db ≡ false) × (is_some r.0.sent ≡ false) × (r.1 ≡ db))
      ⊎ ((passes_checks digest intent db ≡ true)
          × Effect k key (live_orders_permitted settings) (is_some r.0.sent) (rivals db) r.1)
unfolding submit passes_checks
submit-Effect k digest settings intent replies rivals now db =
    let key = idempotency_key digest intent in
    let live = live_orders_permitted settings in
    elim (Option-cases (find_trade intent.trade_id db.trades)) [
      | inr (t, e) ↦ rw (e, submit) (inl (refl, refl, refl))
      | inl e ↦ elim (Option-cases (find_guard key db.guards)) [
        | inr (g, f) ↦ rw (e, f, submit) (inl (refl, refl, refl))
        | inl f ↦ elim (Gated-cases (gates settings intent replies)) [
          | inl (r, g) ↦
              rw (e, f, g, submit)
                (inr (
                  refl,
                  reject-Effect k key live intent r now (rivals db) (rivals db) refl (omega arith),
                ))
          | inr (order, g) ↦
              rw (e, f, g, submit)
                (inr (
                  refl,
                  authorize_and_send-Effect k key settings intent replies order now (rivals db),
                ))
        ]
      ]
    ]
