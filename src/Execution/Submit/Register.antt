-- ===== src/Execution/Submit/Register.antt =====
-- The orders of any number of processes (app/execution/service.py, `submit`): between the duplicate
-- checks of one submission and its reservation, the others run whole submissions of their own.
use mt5_trading_bot.Base.{
  ℕ, ◌≤◌, ◌≡◌, refl, ◌∙◌, inl, inr, Bool, true, false, if◌then◌else◌, Option, none, some, List, [],
  ◌∷◌, ◌++◌, is_some, count_if, arith, Bool-cases,
}
use mt5_trading_bot.Core.Text.{Text, text_eq, text_eq_refl, text_eq→eq}
use mt5_trading_bot.Core.Settings.{Settings, live_orders_permitted}
use mt5_trading_bot.Core.Signal.{TradeIntent}
use mt5_trading_bot.Database.{Db}
use mt5_trading_bot.Execution.Broker.{Replies}
use mt5_trading_bot.Execution.Request.{idempotency_key}
use mt5_trading_bot.Execution.Submit.{submit}
use mt5_trading_bot.Execution.Submit.Once.{reserved, passes_checks, submit-Effect, Effect}

-- A register of keys: the taken ones.
abbrev pub Register : Type 0
Register = Text → Bool

-- Nothing that is taken becomes free.
abbrev pub Grows : Register → Register → Type 0
Grows s t = (k : Text) → s k ≡ true → t k ≡ true

-- The abstract machine: it rests, or it sends the order of a free key and takes the key.
pub data Moves (s t : Register) : Option Text → Type 0 where
  rests : Grows s t → Moves s t none
  sends : (key : Text) → s key ≡ false → t key ≡ true → Grows s t → Moves s t (some key)

-- A run with the keys of its orders, the first one first.
pub data Trace : Register → List Text → Register → Type 0 where
  done : {s : Register} → Trace s [] s
  rested : {s t u : Register} {keys : List Text} → Moves s t none → Trace t keys u → Trace s keys u
  sent :
      {s t u : Register} {key : Text} {keys : List Text}
      → Moves s t (some key)
      → Trace t keys u
      → Trace s (key ∷ keys) u

joined :
    {s t u : Register} {keys others : List Text}
    → Trace s keys t
    → Trace t others u
    → Trace s (keys ++ others) u
joined done q = q
joined (rested m p) q = rested m (joined p q)
joined (sent m p) q = sent m (joined p q)

grown :
    (a b : Bool) (n : ℕ)
    → (a ≡ true → b ≡ true)
    → n ≤ (if b then 0 else 1)
    → n ≤ (if a then 0 else 1)
grown true b n g h = rw (g refl) at h
grown false b n g h = ground arith

-- Of the abstract machine: a run sends the order of a key at most once, and not at all where the key
-- was taken at its start.
once :
    (k : Text) {s t : Register} {keys : List Text}
    → Trace s keys t
    → count_if (text_eq k) keys ≤ (if s k then 0 else 1)
once k done = omega arith
once k {s} (rested {t = t} {keys = keys} (rests g) run) =
    grown (s k) (t k) (count_if (text_eq k) keys) (g k) (once k run)
once k {s} (sent {t = t} {key = key} {keys = keys} (sends key' f u g) run) =
    elim (Bool-cases (text_eq k key)) [
      | inl e ↦
          let same = text_eq→eq k key e in
          let free : s k ≡ false = rw same f in
          let used : t k ≡ true = rw same u in
          let rest = once k run in rw (e, free) (ground (arith, used, rest))
      | inr e ↦ rw e (grown (s k) (t k) (count_if (text_eq k) keys) (g k) (once k run))
    ]

-- One submission of one process.
pub record Submission : Type 0 where
  pub intent : TradeIntent
  pub replies : Replies
  pub now : ℕ

-- A change of the tables that deletes no guard.
abbrev pub KeepsGuards : (Db → Db) → Type 0
KeepsGuards f = (k : Text) (db : Db) → reserved k db ≡ true → reserved k (f db) ≡ true

-- What the processes of a deployment do: a submission, with what the others do between its checks and
-- its reservation, and what comes after it; or another change of the tables.
pub data Run : Type 0 where
  ended : Run
  submits : Submission → Run → Run → Run
  writes : (f : Db → Db) → KeepsGuards f → Run → Run

-- The register that the tables show.
abbrev pub taken : Db → Register
taken db k = reserved k db

module _ (digest : TradeIntent → Text) (settings : Settings) where
  abbrev key_of : Submission → Text
  key_of x = idempotency_key digest x.intent

  -- The tables after a run. Where the checks stop a submission nothing runs in its course.
  unfoldable pub exec : Run → Db → Db
  exec ended db = db
  exec (submits x during after) db =
      exec after (submit digest settings x.intent x.replies (exec during) x.now db).1
  exec (writes f keeps after) db = exec after (f db)

  -- The keys of the orders that reach the broker, of all processes.
  unfoldable pub keys_sent : Run → Db → List Text
  keys_sent ended db = []
  keys_sent (submits x during after) db =
      let (outcome, db') = submit digest settings x.intent x.replies (exec during) x.now db in
      let others = keys_sent during db in
      let rest = keys_sent after db' in
      (if passes_checks digest x.intent db then others else [])
      ++ (if is_some outcome.sent then key_of x ∷ rest else rest)
  keys_sent (writes f keeps after) db = keys_sent after (f db)

  -- A submission that passes its checks acts on the tables that the others left.
  acts :
      (x : Submission) (rivals : Db → Db) (db : Db) (k : Text)
      → passes_checks digest x.intent db ≡ true
      → let r = submit digest settings x.intent x.replies rivals x.now db in
        Effect k (key_of x) (live_orders_permitted settings) (is_some r.0.sent) (rivals db) r.1
  acts x rivals db k p = elim (submit-Effect k digest settings x.intent x.replies rivals x.now db) [
    | inl (stopped, _, _) ↦ absurd (cc (p, stopped))
    | inr (_, effect) ↦ effect
  ]

  stops :
      (x : Submission) (rivals : Db → Db) (db : Db)
      → passes_checks digest x.intent db ≡ false
      → let r = submit digest settings x.intent x.replies rivals x.now db in
        (is_some r.0.sent ≡ false) × (r.1 ≡ db)
  stops x rivals db p =
      elim (submit-Effect (key_of x) digest settings x.intent x.replies rivals x.now db) [
        | inl (_, unsent, same) ↦ (unsent, same)
        | inr (passed, _) ↦ absurd (cc (p, passed))
      ]

  module _ (x : Submission) (rivals : Db → Db) (db : Db)
      (p : passes_checks digest x.intent db ≡ true) where
    abbrev result : Db
    result = (submit digest settings x.intent x.replies rivals x.now db).1

    result-Grows : Grows (taken (rivals db)) (taken result)
    result-Grows k h = let t = (acts x rivals db k p).step.taken in t ∙ rw h refl

    result-sends :
        is_some (submit digest settings x.intent x.replies rivals x.now db).0.sent ≡ true
        → Moves (taken (rivals db)) (taken result) (some (key_of x))
    result-sends e =
        let step = (acts x rivals db (key_of x) p).step in
        sends (key_of x) (step.free e) (step.taken ∙ rw (e, text_eq_refl (key_of x)) (ground arith))
          result-Grows

  -- The processes refine the abstract machine: whatever submissions run, each with any run of the
  -- others between its duplicate checks and its reservation, and whatever else is written as long as
  -- no guard is deleted, the keys of all the orders sent, in their order, are a run of the register
  -- that the tables show, in which a key is free before its order and taken after it.
  pub keys_sent-Trace :
      (run : Run) (db : Db) → Trace (taken db) (keys_sent run db) (taken (exec run db))
  unfolding keys_sent exec
  keys_sent-Trace ended db = done
  keys_sent-Trace (writes f keeps after) db =
      rested (rests (λ k h. keeps k db h)) (keys_sent-Trace after (f db))
  keys_sent-Trace (submits x during after) db =
      let (outcome, db') = submit digest settings x.intent x.replies (exec during) x.now db in
      let rest = keys_sent-Trace after db' in
      elim (Bool-cases (passes_checks digest x.intent db)) [
        | inr p ↦
            let (unsent, same) = stops x (exec during) db p in
            rw (p, unsent) (rested (rests (λ k h. rw same h)) rest)
        | inl p ↦ elim (Bool-cases (is_some outcome.sent)) [
          | inl e ↦
              rw (p, e)
                (joined (keys_sent-Trace during db)
                  (sent (result-sends x (exec during) db p e) rest))
          | inr e ↦
              rw (p, e)
                (joined (keys_sent-Trace during db)
                  (rested (rests (result-Grows x (exec during) db p)) rest))
        ]
      ]

  -- Of all the processes together, however their submissions run into each other, at most one order
  -- is sent under a key, and none where the key was reserved at the start, as long as no guard is
  -- deleted.
  pub one_order :
      (k : Text) (run : Run) (db : Db)
      → count_if (text_eq k) (keys_sent run db) ≤ (if reserved k db then 0 else 1)
  one_order k run db = once k (keys_sent-Trace run db)
