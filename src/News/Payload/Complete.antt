-- ===== src/News/Payload/Complete.antt =====
-- A calendar that was read holds every row that could have been protection
-- (app/news/provider.py, `parse_calendar_payload`).
use mt5_trading_bot.Base.{
  ℕ, suc, ◌≡◌, ◌≢◌, refl, ◌⊎◌, inl, inr, true, false, Option, some, List, [], ◌∷◌, All, Bool-cases,
  Option-cases, some_inj,
}
use mathlib.Core.Path.{subst}
use mt5_trading_bot.Core.Text.{Text, text_eq, is_empty}
use mt5_trading_bot.News.Tables.{high_impact, date_fields, importance_fields}
use mt5_trading_bot.News.Event.{NewsEvent}
use mt5_trading_bot.News.Payload.{
  Value, Row, not_an_object, object, rows, NewsError, RowResult, malformed, skipped, event, field,
  normalise_impact, currency_of, parse_timestamp, event_of, read_row, read_rows,
  parse_calendar_payload,
}

pub data Mem {ℓ} {A : Type ℓ} : A → List A → Type ℓ where
  here : {x : A} {xs : List A} → Mem x (x ∷ xs)
  there : {x y : A} {xs : List A} → Mem x xs → Mem x (y ∷ xs)

inr_inj : {a b : List NewsEvent} → Path (NewsError ⊎ List NewsEvent) (inr a) (inr b) → a ≡ b
inr_inj h = cc

module _ (from_iso : Text → Option ℕ) (row_id : Text → ℕ → ℕ → Text) where
  -- The row is an object with a moment and an importance, and it is among the events unless it is
  -- of no high impact and names no currency.
  pub record Held (events : List NewsEvent) (row : Row) : Type 0 where
    pub item : List (Text × Value)
    pub is_object : row ≡ object item
    pub when : ℕ
    pub has_moment : parse_timestamp from_iso row_id (field item date_fields) ≡ some when
    pub impact : Text
    pub has_impact : normalise_impact (field item importance_fields) ≡ some impact
    pub accounted :
        ((is_empty (currency_of item) ≡ true) × (text_eq impact high_impact ≡ false))
        ⊎ ((e : NewsEvent) × Mem e events
            × (e.when ≡ when)
            × (e.impact ≡ impact)
            × (e.currency ≡ currency_of item)
            × (is_empty e.currency ≡ false))

  -- The events once a row's result is there.
  abbrev appended : RowResult → List NewsEvent → List NewsEvent
  appended (event e) es = e ∷ es
  appended _ es = es

  widen : (r : RowResult) (es : List NewsEvent) (row : Row) → Held es row → Held (appended r es) row
  widen malformed es row h = h
  widen skipped es row h = h
  widen (event e) es row h = record {
    item = h.item;
    is_object = h.is_object;
    when = h.when;
    has_moment = h.has_moment;
    impact = h.impact;
    has_impact = h.has_impact;
    accounted = elim h.accounted [
      | inl a ↦ inl a
      | inr (d, m, a, b, c, k) ↦ inr (d, there m, a, b, c, k)
    ];
  }

  read_row-Held :
      (moment : ℕ) (provider : Text) (index : ℕ) (row : Row) (es : List NewsEvent)
      → read_row from_iso row_id moment provider index row ≢ malformed
      → Held (appended (read_row from_iso row_id moment provider index row) es) row
  unfolding read_row event_of
  read_row-Held moment provider index not_an_object es k = absurd (k refl)
  read_row-Held moment provider index (object item) es k =
      elim (Option-cases (parse_timestamp from_iso row_id (field item date_fields))) [
        | inl e ↦ absurd (k (rw (e, read_row) refl))
        | inr (when, e) ↦ elim (Option-cases (normalise_impact (field item importance_fields))) [
          | inl f ↦ absurd (k (rw (e, f, read_row) refl))
          | inr (impact, f) ↦ elim (Bool-cases (is_empty (currency_of item))) [
            | inl g ↦ elim (Bool-cases (text_eq impact high_impact)) [
              | inl c ↦ absurd (k (rw (e, f, g, c, read_row) refl))
              | inr c ↦ rw (e, f, g, c, read_row) (found es when impact e f (inl (g, c)))
            ]
            | inr g ↦
                rw (e, f, g, read_row)
                  (found _ when impact e f (
                    inr (
                      event_of from_iso row_id moment provider index item when impact,
                      here,
                      refl,
                      refl,
                      refl,
                      g,
                    )))
          ]
        ]
      ]
    where
      found :
          (es : List NewsEvent) (when : ℕ) (impact : Text)
          → parse_timestamp from_iso row_id (field item date_fields) ≡ some when
          → normalise_impact (field item importance_fields) ≡ some impact
          → ((is_empty (currency_of item) ≡ true) × (text_eq impact high_impact ≡ false))
            ⊎ ((e : NewsEvent) × Mem e es
                × (e.when ≡ when)
                × (e.impact ≡ impact)
                × (e.currency ≡ currency_of item)
                × (is_empty e.currency ≡ false))
          → Held es (object item)
      found es when impact e f a = record {
        item = item;
        is_object = refl;
        when = when;
        has_moment = e;
        impact = impact;
        has_impact = f;
        accounted = a;
      }

  RowResult-cases :
      (r : RowResult)
      → (r ≡ malformed) ⊎ (r ≢ malformed) × ((r ≡ skipped) ⊎ ((e : NewsEvent) × (r ≡ event e)))
  RowResult-cases malformed = inl refl
  RowResult-cases skipped = inr ((λ h. absurd (cc h)), inl refl)
  RowResult-cases (event e) = inr ((λ h. absurd (cc h)), inr (e, refl))

  All-widen :
      (r : RowResult) (es : List NewsEvent) (rs : List Row)
      → All (Held es) rs
      → All (Held (appended r es)) rs
  All-widen r es [] h = tt
  All-widen r es (row ∷ rs) (h, k) = (widen r es row h, All-widen r es rs k)

  read_rows-Held :
      (moment : ℕ) (provider : Text) (index : ℕ) (rs : List Row) (events : List NewsEvent)
      → read_rows from_iso row_id moment provider index rs ≡ some events
      → All (Held events) rs
  unfolding read_rows
  read_rows-Held moment provider index [] events h = tt
  read_rows-Held moment provider index (row ∷ rs) events h =
      elim (RowResult-cases (read_row from_iso row_id moment provider index row)) [
        | inl e ↦ absurd (cc (rw (e, read_rows) at h))
        | inr (k, inl e) ↦ (
          rw e at (read_row-Held moment provider index row events k),
          read_rows-Held moment provider (suc index) rs events (rw (e, read_rows) at h),
        )
        | inr (k, inr (v, e)) ↦
            elim (Option-cases (read_rows from_iso row_id moment provider (suc index) rs)) [
              | inl n ↦ absurd (cc (rw (e, n, read_rows) at h))
              | inr (es, n) ↦
                  let f = some_inj {a = v ∷ es} {b = events} (rw (e, n, read_rows) at h) in
                  subst (λ x. Held x row × All (Held x) rs) f
                    (
                      rw e at (read_row-Held moment provider index row es k),
                      All-widen (event v) es rs
                          (read_rows-Held moment provider (suc index) rs es n),
                    )
            ]
      ]

  -- Where a calendar is read at all, every row of it is an object with a moment and a known
  -- importance, and its event is there, at that moment, of that importance and of the row's
  -- currency; the only rows left out name no currency and are not of high impact.
  pub parse_calendar_payload-Held :
      (rs : List Row) (moment : ℕ) (provider : Text) (events : List NewsEvent)
      → parse_calendar_payload from_iso row_id (rows rs) moment provider ≡ inr events
      → All (Held events) rs
  unfolding parse_calendar_payload
  parse_calendar_payload-Held rs moment provider events h =
      elim (Option-cases (read_rows from_iso row_id moment provider 0 rs)) [
        | inl e ↦ absurd (cc (rw e at h))
        | inr (es, e) ↦ rw (← inr_inj (rw e at h)) (read_rows-Held moment provider 0 rs es e)
      ]
