-- ===== src/Bot/Start.antt =====
-- What a start that succeeds has checked (app/services/bot.py).
use mt5_trading_bot.Base.{
  ℕ, ◌≡◌, inl, inr, refl, Bool, true, false, Option, none, some, Option-cases, Bool-cases,
}
use mt5_trading_bot.Core.Settings.{Settings}
use mt5_trading_bot.Core.Account.{AccountProfile, account_profile, account_mismatch}
use mt5_trading_bot.Database.{Db}
use mt5_trading_bot.Risk.State.{load}
use mt5_trading_bot.Bot.{
  Bot, BotStatus, running, starting, entered, is_running, Detail, StartReplies, persisted_lock,
  start, start_loop, with_account, validate_mt5,
}

pub record Validated (settings : Settings) (replies : StartReplies) (now : ℕ) (bot : Bot)
    : Type 0 where
  pub idle : is_running bot.status.state ≡ false
  pub readable : replies.read_raises ≡ false
  pub unlocked : (db : Db) × (bot.store ≡ some db) × ((load now none db).0.emergency_locked ≡ false)
  pub terminal : replies.initialized ≡ true
  pub login : replies.logged_in ≡ true
  pub account :
      (p : AccountProfile) × (account_profile replies.account ≡ some p)
      × (account_mismatch (some p) settings.mt5_login settings.mt5_server ≡ none)
  pub loop : replies.loop ≡ some true

start_loop_started :
    (loop : Option Bool) (now : ℕ) (s : BotStatus) (store : Option Db)
    → (start_loop loop now s store).0.0 ≡ true
    → (loop ≡ some true) × ((start_loop loop now s store).1.status.state ≡ running)
unfolding start_loop
start_loop_started none now s store h = absurd (cc h)
start_loop_started (some false) now s store h = absurd (cc h)
start_loop_started (some true) now s store h = (refl, refl)

abbrev Matched : Settings → StartReplies → Type 0
Matched settings replies =
    (p : AccountProfile) × (account_profile replies.account ≡ some p)
    × (account_mismatch (some p) settings.mt5_login settings.mt5_server ≡ none)

with_account_started :
    (settings : Settings) (replies : StartReplies) (now : ℕ) (s : BotStatus) (store : Option Db)
    → (with_account settings replies now s store).0.0 ≡ true
    → Matched settings replies
      × (replies.loop ≡ some true)
      × ((with_account settings replies now s store).1.status.state ≡ running)
unfolding with_account
with_account_started settings replies now s store h =
    elim (Option-cases (account_profile replies.account)) [
      | inl e ↦ absurd (cc (rw (e, with_account) at h))
      | inr (p, e) ↦
          elim (Option-cases (account_mismatch (some p) settings.mt5_login settings.mt5_server)) [
            | inr (m, f) ↦ absurd (cc (rw (e, f, with_account) at h))
            | inl f ↦
                let (loop, state) =
                  start_loop_started replies.loop now s store (rw (e, f, with_account) at h) in
                ((p, e, f), loop, rw (e, f, with_account) state)
          ]
    ]

validate_mt5_started :
    (settings : Settings) (replies : StartReplies) (now : ℕ) (s : BotStatus) (store : Option Db)
    → (validate_mt5 settings replies now s store).0.0 ≡ true
    → (replies.initialized ≡ true)
      × (replies.logged_in ≡ true)
      × Matched settings replies
      × (replies.loop ≡ some true)
      × ((validate_mt5 settings replies now s store).1.status.state ≡ running)
unfolding validate_mt5
validate_mt5_started settings replies now s store h = elim (Bool-cases replies.initialized) [
  | inr e ↦ absurd (cc (rw (e, validate_mt5) at h))
  | inl e ↦ elim (Bool-cases replies.logged_in) [
    | inr f ↦ absurd (cc (rw (e, f, validate_mt5) at h))
    | inl f ↦
        let (matched, loop, state) =
          with_account_started settings replies now (entered starting Detail.validating s) store
            (rw (e, f, validate_mt5) at h) in
        (e, f, matched, loop, rw (e, f, validate_mt5) state)
  ]
]

-- A start that returns true was asked of a bot that was not running, read the persisted risk state
-- and found it unlocked, initialized the terminal, logged in, found the configured account and
-- started the market loop; the bot is then RUNNING.
pub start-Validated :
    (settings : Settings) (replies : StartReplies) (now : ℕ) (bot : Bot)
    → (start settings replies now bot).0.0 ≡ true
    → Validated settings replies now bot
      × ((start settings replies now bot).1.status.state ≡ running)
unfolding start persisted_lock
start-Validated settings replies now bot h = elim (Bool-cases (is_running bot.status.state)) [
  | inl e ↦ absurd (cc (rw (e, start) at h))
  | inr e ↦ elim (Option-cases bot.store) [
    | inl f ↦ absurd (cc (rw (e, f, start) at h))
    | inr (db, f) ↦ elim (Bool-cases replies.read_raises) [
      | inl g ↦ absurd (cc (rw (e, f, g, start) at h))
      | inr g ↦ elim (Bool-cases (load now none db).0.emergency_locked) [
        | inl k ↦ absurd (cc (rw (e, f, g, k, start) at h))
        | inr k ↦
            let (terminal, login, account, loop, state) =
              validate_mt5_started settings replies now bot.status
                (persisted_lock replies.read_raises now bot.store).1
                (rw (e, f, g, k, start) at h) in
            (
              record {
                idle = e;
                readable = g;
                unlocked = (db, f, k);
                terminal = terminal;
                login = login;
                account = account;
                loop = loop;
              },
              rw (e, f, g, k, start) state,
            )
      ]
    ]
  ]
]
