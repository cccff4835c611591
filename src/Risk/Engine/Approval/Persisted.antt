-- ===== src/Risk/Engine/Approval/Persisted.antt =====
-- The session and the store in the course of an assessment that is approved (app/risk/engine.py).
use mt5_trading_bot.Base.{
  some_inj, ap, ◌∙◌, ℕ, ◌≡◌, inl, inr, Bool-cases, refl, sym, Bool, true, false, not, ◌&&◌, leb,
  Option, none, some, List, [], ◌∷◌, arith, all, Option-cases,
}
use mt5_trading_bot.Num.{ℚ, int, billionth, ◌-ℚ◌, ◌*ℚ◌, ◌/ℚ◌, leb_ℚ, is_pos}
use mt5_trading_bot.Core.Settings.{Settings, live_orders_permitted}
use mt5_trading_bot.Core.Message.{is_latched, Limit}
use mt5_trading_bot.Core.Signal.{Signal}
use mt5_trading_bot.Core.Account.{account_mismatch}
use mt5_trading_bot.Database.{Db, RiskRow}
use mt5_trading_bot.Risk.State.{load, one_trade_authorization, observe_equity}
use mt5_trading_bot.Risk.State.OneTrade.{load-authorization}
use mt5_trading_bot.Risk.Authorization.{authorization_state, blocked}
use mt5_trading_bot.Risk.Engine.Facts.{EntryFacts, derive, truthy}
use mt5_trading_bot.Risk.Engine.Session.{
  Fault, fine, first_raises, second_raises, Faults, Session, from_row, read_session,
  lock_on_mismatch, read_authorization, limits_of, draws_down_now, lock_on_drawdown, latch_limits,
}
use mt5_trading_bot.Risk.Engine.Assess.{
  Assessment, checks_of, passes, before_limits, conclude, assess,
}

-- A session that could be read is the row of its day.
pub read_session_readable :
    (fault : Fault) (locked : Bool) (equity : Option ℚ) (now : ℕ) (day : Option ℕ)
    (store : Option Db)
    → (read_session fault locked equity now day store).0.readable ≡ true
    → (db : Db) × (store ≡ some db)
      × ((read_session fault locked equity now day store).0
          ≡ from_row true locked (load now day db).0)
unfolding read_session
read_session_readable fault locked equity now day none h = absurd (cc h)
read_session_readable fine locked equity now day (some db) h = (db, refl, refl)
read_session_readable first_raises locked equity now day (some db) h = absurd (cc h)
read_session_readable second_raises locked equity now day (some db) h = (db, refl, ground arith)

-- The loss of the session is below the day's share of the equity, where the equity is known.
abbrev pub DayLossLeft : Settings → Option ℚ → Session → Type 0
DayLossLeft settings equity s =
    (e : ℚ)
    → truthy equity ≡ some e
    → leb_ℚ (e *ℚ settings.max_daily_loss_pct /ℚ int 100) s.loss ≡ false

-- The equity is not below the peak by the maximum drawdown, where both are known.
abbrev pub NotDrawn : Settings → Option ℚ → Session → Type 0
NotDrawn settings equity s =
    (e p : ℚ)
    → truthy equity ≡ some e
    → truthy s.peak ≡ some p
    → is_pos p ≡ true
    → leb_ℚ settings.max_drawdown_pct ((p -ℚ e) /ℚ p *ℚ int 100) ≡ false

-- With no limit reached and the store read, no drawdown was found.
no_drawdown :
    (settings : Settings) (equity : Option ℚ) (s : Session)
    → s.readable ≡ true
    → limits_of settings equity s ≡ []
    → (draws_down_now settings equity s ≡ false)
      × (leb settings.max_daily_trades s.trades ≡ false)
      × ((leb_ℚ (settings.max_session_loss_usd -ℚ billionth) s.loss && is_pos s.loss) ≡ false)
      × DayLossLeft settings equity s
      × NotDrawn settings equity s
unfolding limits_of draws_down_now
no_drawdown settings equity s r h = (
  ground arith,
  ground arith,
  ground arith,
  λ e f. elim (Bool-cases (leb_ℚ (e *ℚ settings.max_daily_loss_pct /ℚ int 100) s.loss)) [
    | inr g ↦ g
    | inl g ↦ absurd (ground arith)
  ],
  λ e p f g k. elim (Bool-cases (leb_ℚ settings.max_drawdown_pct ((p -ℚ e) /ℚ p *ℚ int 100))) [
    | inr m ↦ m
    | inl m ↦ absurd (ground arith)
  ],
)

-- Reading the session leaves the authorization alone.
pub read_session-authorization :
    (fault : Fault) (locked : Bool) (equity : Option ℚ) (now : ℕ) (day : Option ℕ) (db db' : Db)
    → (read_session fault locked equity now day (some db)).1 ≡ some db'
    → db'.authorization ≡ db.authorization
unfolding read_session observe_equity
read_session-authorization first_raises locked equity now day db db' h = ground arith
read_session-authorization fine locked equity now day db db' h =
    elim (Option-cases (truthy equity)) [
      | inl e ↦ ground (arith, load-authorization now day db)
      | inr (x, e) ↦
          ground
            (arith, load-authorization now day db, load-authorization now day (load now day db).1)
    ]
read_session-authorization second_raises locked equity now day db db' h =
    ground (arith, load-authorization now day db)

pub one_trade_part :
    (settings : Settings) (raises : Bool) (db : Db)
    → not (blocked (authorization_state settings (read_authorization raises (some db)).0)) ≡ true
    → live_orders_permitted settings ≡ true
    → (one_trade_authorization db).0.consumed ≡ false
unfolding read_authorization blocked authorization_state
one_trade_part settings true db h p = ground arith
one_trade_part settings false db h p = ground arith

pub authorization_same :
    (db db' : Db)
    → db'.authorization ≡ db.authorization
    → (one_trade_authorization db').0 ≡ (one_trade_authorization db).0
unfolding one_trade_authorization
authorization_same db db' e = ground arith

latch_limits-readable :
    (raises : Bool) (limits : List Limit) (now : ℕ) (day : Option ℕ) (s : Session)
    (store : Option Db)
    → (latch_limits raises limits now day s store).0.readable ≡ s.readable
unfolding latch_limits
latch_limits-readable raises [] now day s store = refl
latch_limits-readable raises (l ∷ ls) now day s store = refl

lock_on_drawdown-readable :
    (fault : Fault) (draws : Bool) (now : ℕ) (day : Option ℕ) (s s' : Session)
    (store store' : Option Db)
    → lock_on_drawdown fault draws now day s store ≡ some (s', store')
    → s'.readable ≡ s.readable
unfolding lock_on_drawdown
lock_on_drawdown-readable fault false now day s s' store store' h = ground arith
lock_on_drawdown-readable fault true now day s s' none store' h = ground arith
lock_on_drawdown-readable fault true now day s s' (some db) store' h = ground arith

-- The session and the store where the account matches: those of the read.
pub before_limits_matched :
    (settings : Settings) (facts : EntryFacts) (faults : Faults) (now : ℕ) (day : Option ℕ)
    (store : Option Db)
    → account_mismatch facts.account settings.mt5_login settings.mt5_server ≡ none
    → before_limits settings facts faults now day store
      ≡ read_session faults.read facts.emergency_locked facts.equity now day store
unfolding before_limits lock_on_mismatch
before_limits_matched settings facts faults now day store e = rw e

pub conclude_approved :
    (settings : Settings) (signal : Signal) (facts : EntryFacts) (raises : Bool) (now : ℕ)
    (day : Option ℕ) (limits : List Limit) (unblocked : Bool) (s : Session) (store : Option Db)
    (a : Assessment) (store' : Option Db)
    → conclude settings signal facts raises now day limits unblocked (s, store) ≡ (a, store')
    → a.approved ≡ true
    → all passes (
        checks_of settings signal facts
          (derive settings signal facts)
          (latch_limits raises limits now day s store).0
          limits
          unblocked)
      ≡ true
unfolding conclude
conclude_approved settings signal facts raises now day limits unblocked s store a store' e ok =
    ap (λ (p : Assessment × Option Db). p.0.approved) e ∙ ok

pub assess_parts :
    (settings : Settings) (signal : Signal) (facts : EntryFacts) (faults : Faults) (now : ℕ)
    (day : Option ℕ) (store : Option Db) (a : Assessment) (store' : Option Db)
    → assess settings signal facts faults now day store ≡ some (a, store')
    → let (s, store1) = before_limits settings facts faults now day store in
      let (seen, store2) = read_authorization faults.authorization store1 in
      (last : Session) × (store3 : Option Db) × (lock_on_drawdown faults.drawdown
          (draws_down_now settings facts.equity s)
          now
          day
          s
          store2
        ≡ some (last, store3))
      × (conclude settings signal facts faults.latch now day
            (limits_of settings facts.equity s)
            (not (blocked (authorization_state settings seen)))
            (last, store3)
          ≡ (a, store'))
unfolding assess
assess_parts settings signal facts faults now day store a store' h =
    let (s, store1) = before_limits settings facts faults now day store in
    let (seen, store2) = read_authorization faults.authorization store1 in
    elim (Option-cases (
      lock_on_drawdown faults.drawdown (draws_down_now settings facts.equity s) now day s store2)) [
        | inl e ↦ absurd (cc (rw (e, assess) at h))
        | inr ((last, store3), e) ↦ (last, store3, e, some_inj (rw (e, assess) at h))
      ]

drawdown_none :
    (fault : Fault) (now : ℕ) (day : Option ℕ) (s s' : Session) (store store' : Option Db)
    → lock_on_drawdown fault false now day s store ≡ some (s', store')
    → s ≡ s'
unfolding lock_on_drawdown
drawdown_none fault now day s s' store store' h = ap (λ (p : Session × Option Db). p.0) (some_inj h)

-- With the store read and no limit reached, the last session is the one that was read.
pub session_part :
    (settings : Settings) (equity : Option ℚ) (fault : Fault) (raises : Bool) (now : ℕ)
    (day : Option ℕ) (s s' : Session) (store store' : Option Db)
    → lock_on_drawdown fault (draws_down_now settings equity s) now day s store ≡ some (s', store')
    → limits_of settings equity s ≡ []
    → (latch_limits raises (limits_of settings equity s) now day s' store').0.readable ≡ true
    → ((latch_limits raises (limits_of settings equity s) now day s' store').0 ≡ s)
      × (s.readable ≡ true)
      × (leb settings.max_daily_trades s.trades ≡ false)
      × ((leb_ℚ (settings.max_session_loss_usd -ℚ billionth) s.loss && is_pos s.loss) ≡ false)
      × DayLossLeft settings equity s
      × NotDrawn settings equity s
unfolding latch_limits
session_part settings equity fault raises now day s s' store store' drawn lim readable =
    let was : s.readable ≡ true =
      sym (
        lock_on_drawdown-readable fault (draws_down_now settings equity s) now day s s' store store'
          drawn)
      ∙ sym (latch_limits-readable raises (limits_of settings equity s) now day s' store')
      ∙ readable in
    let (still, trades, loss, daily, fell) = no_drawdown settings equity s was lim in
    let e : s ≡ s' = drawdown_none fault now day s s' store store' (rw still at drawn) in
    (rw (lim, latch_limits) (sym e), was, trades, loss, daily, fell)

-- The row of the day, from the session of an approval.
pub row_part :
    (s : Session) (locked : Bool) (row : RiskRow)
    → s ≡ from_row true locked row
    → s.locked ≡ false
    → is_latched s.kill ≡ false
    → (row.emergency_locked ≡ false) × (is_latched row.kill_switch_reason ≡ false)
row_part s locked row e l k = ground arith

pub read_session-some :
    (fault : Fault) (locked : Bool) (equity : Option ℚ) (now : ℕ) (day : Option ℕ) (db : Db)
    → (db' : Db) × ((read_session fault locked equity now day (some db)).1 ≡ some db')
unfolding read_session
read_session-some fine locked equity now day db = (_, refl)
read_session-some first_raises locked equity now day db = (_, refl)
read_session-some second_raises locked equity now day db = (_, refl)
