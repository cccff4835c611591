-- ===== src/Guards.antt =====
-- Reading a chain of early returns backwards: what a result that came through says of the tests.
use mt5_trading_bot.Base.{
  ◌≡◌, ◌≢◌, refl, Bool, true, false, ◌||◌, ◌&&◌, if◌then◌else◌, Option, none, some,
}

module _ {ℓ} {A : Type ℓ} where
  -- `if b: return None`
  pub refused :
      {r : Option A} {y : A} (b : Bool)
      → (if b then none else r) ≡ some y
      → (b ≡ false) × (r ≡ some y)
  refused true h = absurd (cc h)
  refused false h = (refl, h)

  -- `if not b: return None`
  pub passed :
      {r : Option A} {y : A} (b : Bool)
      → (if b then r else none) ≡ some y
      → (b ≡ true) × (r ≡ some y)
  passed true h = (refl, h)
  passed false h = absurd (cc h)

  pub guarded : {x y : A} (b : Bool) → (if b then some x else none) ≡ some y → (b ≡ true) × (x ≡ y)
  guarded true h = (refl, cc)
  guarded false h = absurd (cc h)

  pub either-some : (x y : A) (b : Bool) → (if b then some x else some y) ≢ none
  either-some x y true h = absurd (cc h)
  either-some x y false h = absurd (cc h)

pub neither : (a b : Bool) → (a || b) ≡ false → (a ≡ false) × (b ≡ false)
neither true b h = absurd (cc h)
neither false b h = (refl, h)

pub both : (a b : Bool) → (a && b) ≡ true → (a ≡ true) × (b ≡ true)
both true b h = (refl, h)
both false b h = absurd (cc h)

-- What holds on both branches.
pub both_branches {ℓ ℓ'} :
    {A : Type ℓ} (P : A → Type ℓ') {x y : A} (b : Bool) → P x → P y → P (if b then x else y)
both_branches P true p q = p
both_branches P false p q = q
