-- ===== src/News/Gate.antt =====
-- What stands behind an entry that the news gate allows (app/news/provider.py).
use mt5_trading_bot.Base.{
  ℕ, ◌+◌, ◌≤◌, ◌≡◌, refl, ◌⊎◌, inl, inr, Bool, true, false, ltb, Option, none, some, List, [], ◌∷◌,
  keep, All, arith, Bool-cases, Option-cases, List-cases, some_inj,
}
use mt5_trading_bot.Core.Text.{Text}
use mt5_trading_bot.News.Event.{NewsEvent, pair_currencies, is_blocking, window_decision}
use mt5_trading_bot.News.Payload.{NewsError}
use mt5_trading_bot.News.Payload.Complete.{Mem, here, there}
use mt5_trading_bot.News.Cache.{NewsTables, CachedCalendar}
use mt5_trading_bot.News.Provider.{
  CalendarSnapshot, CalendarPolicy, Attempt, restored, is_due, data_age, gate, fetch, settle,
  refresh, decision, fail, succeed,
}

-- The symbol maps to a pair, and no event of its currencies stands inside the window.
pub record Clear (policy : CalendarPolicy) (s : CalendarSnapshot) (symbol : Text) (moment : ℕ)
    : Type 0 where
  pub is_healthy : s.healthy ≡ true
  pub age : ℕ
  pub age_known : data_age s moment ≡ some age
  pub recent : age ≤ policy.max_age_seconds
  pub currencies : List Text
  pub mapped : pair_currencies symbol ≡ some currencies
  pub none_blocks :
      All (λ e. is_blocking currencies policy.window_minutes moment e ≡ false) s.events

none_kept {ℓ} :
    {A : Type ℓ} (p : A → Bool) (xs : List A) → keep p xs ≡ [] → All (λ x. p x ≡ false) xs
none_kept p [] h = tt
none_kept p (x ∷ xs) h = elim (Bool-cases (p x)) [
  | inl e ↦ absurd (cc (rw e at h))
  | inr e ↦ (e, none_kept p xs (rw e at h))
]

window_clear : (es : List NewsEvent) → (window_decision es).allowed ≡ true → es ≡ []
window_clear [] h = refl
window_clear (e ∷ es) h = absurd (cc h)

gate-Clear :
    (policy : CalendarPolicy) (s : CalendarSnapshot) (symbol : Text) (moment : ℕ)
    → policy.fail_closed ≡ true
    → (gate policy s symbol moment).allowed ≡ true
    → Clear policy s symbol moment
unfolding gate
gate-Clear policy s symbol moment c h = elim (Bool-cases s.healthy) [
  | inr e ↦ absurd (cc (rw (e, c, gate) at h))
  | inl e ↦ elim (Option-cases (data_age s moment)) [
    | inl f ↦ absurd (cc (rw (e, f, c, gate) at h))
    | inr (age, f) ↦ elim (Bool-cases (ltb policy.max_age_seconds age)) [
      | inl g ↦ absurd (cc (rw (e, f, g, c, gate) at h))
      | inr g ↦ elim (Option-cases (pair_currencies symbol)) [
        | inl k ↦ absurd (cc (rw (e, f, g, k, c, gate) at h))
        | inr (currencies, k) ↦ record {
          is_healthy = e;
          age = age;
          age_known = f;
          recent = ground arith;
          currencies = currencies;
          mapped = k;
          none_blocks =
              none_kept (is_blocking currencies policy.window_minutes moment) s.events
                (window_clear _ (rw (e, f, g, k, gate) at h));
        }
      ]
    ]
  ]
]

module _ (from_iso : Text → Option ℕ) (row_id : Text → ℕ → ℕ → Text) (policy : CalendarPolicy) where
  -- Any number of refreshes, the latest first.
  abbrev pub refreshes :
      List Attempt → CalendarSnapshot × NewsTables → CalendarSnapshot × NewsTables
  refreshes [] st = st
  refreshes (a ∷ earlier) st = refresh from_iso row_id policy a (refreshes earlier st)

  -- A healthy calendar is what one of the attempts fetched, at the moment of that attempt.
  abbrev Sourced : List Attempt → CalendarSnapshot → Type 0
  Sourced attempts s =
      s.healthy ≡ true
      → (a : Attempt) × Mem a attempts
        × (fetch from_iso row_id policy a ≡ inr s.events)
        × (s.last_success_at ≡ some a.moment)

  settle-Sourced :
      (a : Attempt) (attempts : List Attempt) (s : CalendarSnapshot) (tables : NewsTables)
      (r : NewsError ⊎ List NewsEvent)
      → fetch from_iso row_id policy a ≡ r
      → Sourced (a ∷ attempts) (settle from_iso row_id a s tables r).0
  unfolding settle fail succeed
  settle-Sourced a attempts s tables (inl error) e k = absurd (cc k)
  settle-Sourced a attempts s tables (inr events) e k = (a, here, e, refl)

  refresh-Sourced :
      (a : Attempt) (attempts : List Attempt) (st : CalendarSnapshot × NewsTables)
      → Sourced attempts st.0
      → Sourced (a ∷ attempts) (refresh from_iso row_id policy a st).0
  unfolding refresh
  refresh-Sourced a attempts (s, tables) h k = elim (Bool-cases (is_due policy s a.moment)) [
    | inr e ↦ let (b, m, f, g) = h (rw (e, refresh) at k) in rw e (b, there m, f, g)
    | inl e ↦ rw e (
        settle-Sourced a attempts s tables (fetch from_iso row_id policy a) refl
          (rw (e, refresh) at k))
  ]

  restored-unhealthy : (cached : Option CachedCalendar) → (restored cached).healthy ≡ false
  unfolding restored
  restored-unhealthy none = refl
  restored-unhealthy (some cached) = elim (List-cases cached.events) [
    | inl e ↦ rw e refl
    | inr (x, xs, e) ↦ rw e refl
  ]

  refreshes-Sourced :
      (attempts : List Attempt) (cached : Option CachedCalendar) (tables : NewsTables)
      → Sourced attempts (refreshes attempts (restored cached, tables)).0
  refreshes-Sourced [] cached tables = λ k. absurd (cc (restored-unhealthy cached, k))
  refreshes-Sourced (a ∷ earlier) cached tables =
      refresh-Sourced a earlier (refreshes earlier (restored cached, tables))
        (refreshes-Sourced earlier cached tables)

  pub record Protected (attempts : List Attempt) (symbol : Text) (now : ℕ) : Type 0 where
    pub source : Attempt
    pub is_attempt : Mem source attempts
    pub calendar : List NewsEvent
    pub answered : fetch from_iso row_id policy source ≡ inr calendar
    pub recent : now ≤ source.moment + policy.max_age_seconds
    pub currencies : List Text
    pub mapped : pair_currencies symbol ≡ some currencies
    pub none_blocks : All (λ e. is_blocking currencies policy.window_minutes now e ≡ false) calendar

  Clear-Protected :
      (attempts : List Attempt) (s : CalendarSnapshot) (symbol : Text) (now : ℕ)
      → Sourced attempts s
      → Clear policy s symbol now
      → Protected attempts symbol now
  unfolding data_age
  Clear-Protected attempts s symbol now h c =
      let (a, m, f, g) = h c.is_healthy in
      record {
        source = a;
        is_attempt = m;
        calendar = s.events;
        answered = f;
        recent =
            (let e = c.age_known in
              let k = some_inj {b = c.age} (rw (g, data_age) at e) in
              let r = c.recent in omega arith);
        currencies = c.currencies;
        mapped = c.mapped;
        none_blocks = c.none_blocks;
      }

  -- Where the policy requires protection, and whatever the cache held, the transport answered and
  -- the database refused, an entry is allowed only where one refresh of this very process fetched
  -- and read a whole calendar at most the allowed age ago, the symbol maps to a currency pair, and
  -- no high-impact event of the pair in that calendar stands inside the window.
  pub decision-Protected :
      (attempts : List Attempt) (cached : Option CachedCalendar) (tables : NewsTables) (a : Attempt)
      (symbol : Text)
      → policy.fail_closed ≡ true
      → (decision from_iso row_id policy a symbol
          (refreshes attempts (restored cached, tables))).0.allowed
        ≡ true
      → Protected (a ∷ attempts) symbol a.moment
  unfolding decision
  decision-Protected attempts cached tables a symbol c h =
      Clear-Protected (a ∷ attempts) (refreshes (a ∷ attempts) (restored cached, tables)).0 symbol
        a.moment (refreshes-Sourced (a ∷ attempts) cached tables)
        (gate-Clear policy (refreshes (a ∷ attempts) (restored cached, tables)).0 symbol a.moment c
          h)
