-- ===== src/News/Cache/RoundTrip.antt =====
-- A calendar is read back as it was saved (app/news/provider.py, `SqlNewsCache`).
use mt5_trading_bot.Base.{
  ℕ, ◌≡◌, refl, sym, ap, ◌∙◌, inl, inr, Bool, true, false, not, ◌&&◌, leb, Option, none, some, List,
  [], ◌∷◌, ◌++◌, map, keep, find, All, Bool-cases, is_some, unwrap_or, length,
}
use mt5_trading_bot.Core.Text.{Text, text_eq, text_eq_refl, text_eq→eq}
use mt5_trading_bot.News.Event.{NewsEvent}
use mt5_trading_bot.News.Cache.{
  NewsEventRow, NewsStateRow, NewsTables, state_row, insert_by, sort_by, own_row, own_state,
  event_of_row, load_news, or_own, row_of, replaced, set_state, unique_ids, save_news,
}

module _ {ℓ ℓ'} {A : Type ℓ} {B : Type ℓ'} (f : A → B) (key : B → ℕ) where
  map-insert_by :
      (x : A) (xs : List A)
      → insert_by key (f x) (map f xs) ≡ map f (insert_by (λ a. key (f a)) x xs)
  map-insert_by x [] = refl
  map-insert_by x (y ∷ ys) = elim (Bool-cases (leb (key (f x)) (key (f y)))) [
    | inl e ↦ rw e refl
    | inr e ↦ rw (e, map-insert_by x ys) refl
  ]

  map-sort_by : (xs : List A) → sort_by key (map f xs) ≡ map f (sort_by (λ a. key (f a)) xs)
  map-sort_by [] = refl
  map-sort_by (x ∷ xs) = rw (map-sort_by xs) (map-insert_by x (sort_by (λ a. key (f a)) xs))

module _ {ℓ} {A : Type ℓ} (p : A → Bool) where
  keep-append : (xs ys : List A) → keep p (xs ++ ys) ≡ keep p xs ++ keep p ys
  keep-append [] ys = refl
  keep-append (x ∷ xs) ys = elim (Bool-cases (p x)) [
    | inl e ↦ rw (e, keep-append xs ys) refl
    | inr e ↦ rw (e, keep-append xs ys) refl
  ]

  keep-others : (xs : List A) → keep p (keep (λ x. not (p x)) xs) ≡ []
  keep-others [] = refl
  keep-others (x ∷ xs) = elim (Bool-cases (p x)) [
    | inl e ↦ rw (e, keep-others xs) refl
    | inr e ↦ rw (e, e, keep-others xs) refl
  ]

-- An event that a refresh of the provider makes.
abbrev pub Fetched : Text → NewsEvent → Type 0
Fetched provider e = (e.provider ≡ provider) × (is_some e.retrieved_at ≡ true)

or_own-same : (a p : Text) → a ≡ p → or_own a p ≡ p
or_own-same [] p e = refl
or_own-same (c ∷ t) p e = e

keep-rows :
    (provider : Text) (now : ℕ) (es : List NewsEvent)
    → All (Fetched provider) es
    → keep (own_row provider) (map (row_of provider now) es) ≡ map (row_of provider now) es
keep-rows provider now [] h = refl
keep-rows provider now (e ∷ es) ((p, r), h) =
    rw (or_own-same e.provider provider p, text_eq_refl provider, keep-rows provider now es h) refl

recorded : (o : Option ℕ) (now : ℕ) → is_some o ≡ true → some (unwrap_or o now) ≡ o
recorded none now h = absurd (cc h)
recorded (some m) now h = refl

event_of_row-row_of :
    (provider : Text) (now : ℕ) (e : NewsEvent)
    → Fetched provider e
    → event_of_row (row_of provider now e) ≡ e
event_of_row-row_of provider now e (p, r) =
    rw (or_own-same e.provider provider p ∙ sym p, recorded e.retrieved_at now r) refl

events-rows :
    (provider : Text) (now : ℕ) (es : List NewsEvent)
    → All (Fetched provider) es
    → map event_of_row (map (row_of provider now) es) ≡ es
events-rows provider now [] h = refl
events-rows provider now (e ∷ es) (h, k) =
    rw (event_of_row-row_of provider now e h, events-rows provider now es k) refl

find-set_state :
    (provider : Text) (state : NewsStateRow) (rows : List NewsStateRow)
    → state.provider ≡ provider
    → find (own_state provider) (set_state provider state rows) ≡ some state
unfolding set_state
find-set_state provider state [] e = rw (e, text_eq_refl provider) refl
find-set_state provider state (row ∷ rows) e = elim (Bool-cases (own_state provider row)) [
  | inl f ↦ rw (f, e, text_eq_refl provider) refl
  | inr f ↦ rw (f, f, find-set_state provider state rows e) refl
]

own_rows :
    (provider : Text) (now : ℕ) (e : NewsEvent) (es : List NewsEvent) (rows : List NewsEventRow)
    → All (Fetched provider) (e ∷ es)
    → keep (own_row provider) (replaced provider now (e ∷ es) rows)
      ≡ map (row_of provider now) (e ∷ es)
unfolding replaced
own_rows provider now e es rows h =
    rw
      (
        keep-append (own_row provider) (keep (λ row. not (own_row provider row)) rows)
            (map (row_of provider now) (e ∷ es)),
        keep-others (own_row provider) rows,
        keep-rows provider now (e ∷ es) h,
      )
      refl

sorted-rows :
    (provider : Text) (now : ℕ) (es : List NewsEvent)
    → All (Fetched provider) es
    → map event_of_row (sort_by (λ row. row.event_time) (map (row_of provider now) es))
      ≡ sort_by (λ e. e.when) es
sorted-rows provider now es h =
    sym (map-sort_by event_of_row (λ e. e.when) (map (row_of provider now) es))
    ∙ ap (sort_by (λ e. e.when)) (events-rows provider now es h)

-- A calendar of fetched events that the database takes is read back whole, every field of every
-- event, in the order of the moments, with the moments it was retrieved and last succeeded at.
pub load_news-save_news :
    (provider : Text) (now : ℕ) (e : NewsEvent) (es : List NewsEvent) (retrieved last : Option ℕ)
    (healthy : Bool) (tables : NewsTables)
    → All (Fetched provider) (e ∷ es)
    → unique_ids (replaced provider now (e ∷ es) tables.events) ≡ true
    → load_news provider true (save_news provider true now (e ∷ es) retrieved last healthy tables)
      ≡ some record {
        events = sort_by (λ x. x.when) (e ∷ es);
        retrieved_at = retrieved;
        last_success_at = last;
      }
unfolding load_news save_news
load_news-save_news provider now e es retrieved last healthy tables h u =
    rw
      (
        u,
        own_rows provider now e es tables.events h,
        find-set_state provider (state_row provider now (length (e ∷ es)) retrieved last healthy)
            tables.states refl,
      )
      (ap
        (λ events.
          some record { events = events; retrieved_at = retrieved; last_success_at = last })
        (sorted-rows provider now (e ∷ es) h))

module _ {ℓ} {A : Type ℓ} (p q : A → Bool) where
  keep-apart :
      ((x : A) → q x ≡ true → p x ≡ false)
      → (xs : List A) → keep q (keep (λ x. not (p x)) xs) ≡ keep q xs
  keep-apart d [] = refl
  keep-apart d (x ∷ xs) = elim (Bool-cases (q x)) [
    | inl e ↦ rw (d x e, e, keep-apart d xs) refl
    | inr e ↦ elim (Bool-cases (p x)) [
      | inl f ↦ rw (f, e, keep-apart d xs) refl
      | inr f ↦ rw (f, e, keep-apart d xs) refl
    ]
  ]

append-empty {ℓ} : {A : Type ℓ} (xs : List A) → xs ++ [] ≡ xs
append-empty [] = refl
append-empty (x ∷ xs) = rw (append-empty xs) refl

module _ (p q : Text) (apart : text_eq p q ≡ false) where
  other_row : (a : Text) → text_eq a q ≡ true → text_eq a p ≡ false
  other_row a e = elim (Bool-cases (text_eq a p)) [
    | inl f ↦ absurd (cc (apart, text_eq→eq a p f, text_eq→eq a q e, text_eq_refl q))
    | inr f ↦ f
  ]

  keep-rows_of_another :
      (now : ℕ) (es : List NewsEvent)
      → All (Fetched p) es
      → keep (own_row q) (map (row_of p now) es) ≡ []
  keep-rows_of_another now [] h = refl
  keep-rows_of_another now (e ∷ es) ((a, r), h) =
      rw (or_own-same e.provider p a, apart, keep-rows_of_another now es h) refl

  keep-replaced :
      (now : ℕ) (es : List NewsEvent) (rows : List NewsEventRow)
      → All (Fetched p) es
      → keep (own_row q) (replaced p now es rows) ≡ keep (own_row q) rows
  unfolding replaced
  keep-replaced now [] rows h = refl
  keep-replaced now (e ∷ es) rows h =
      rw
        (
          keep-append (own_row q) (keep (λ row. not (own_row p row)) rows)
              (map (row_of p now) (e ∷ es)),
          keep-rows_of_another now (e ∷ es) h,
          keep-apart (own_row p) (own_row q) (λ row. other_row row.provider) rows,
        )
        (append-empty (keep (own_row q) rows))

  find-set_state_of_another :
      (state : NewsStateRow) (rows : List NewsStateRow)
      → state.provider ≡ p
      → find (own_state q) (set_state p state rows) ≡ find (own_state q) rows
  unfolding set_state
  find-set_state_of_another state [] e = rw (e, apart) refl
  find-set_state_of_another state (row ∷ rows) e = elim (Bool-cases (own_state p row)) [
    | inl f ↦ rw (f, e, apart, text_eq→eq row.provider p f, apart) refl
    | inr f ↦ elim (Bool-cases (own_state q row)) [
      | inl g ↦ rw (f, g) refl
      | inr g ↦ rw (f, g, find-set_state_of_another state rows e) refl
    ]
  ]

  -- What one provider saves, another provider's calendar does not show, whether the database takes
  -- it or not.
  pub load_news-save_news_of_another :
      (readable writable : Bool) (now : ℕ) (es : List NewsEvent) (retrieved last : Option ℕ)
      (healthy : Bool) (tables : NewsTables)
      → All (Fetched p) es
      → load_news q readable (save_news p writable now es retrieved last healthy tables)
        ≡ load_news q readable tables
  unfolding load_news save_news
  load_news-save_news_of_another readable writable now es retrieved last healthy tables h =
      elim (Bool-cases (writable && unique_ids (replaced p now es tables.events))) [
        | inl u ↦
            rw
              (
                u,
                keep-replaced now es tables.events h,
                find-set_state_of_another (state_row p now (length es) retrieved last healthy)
                    tables.states refl,
              )
              refl
        | inr u ↦ rw u refl
      ]
