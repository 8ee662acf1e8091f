-- ===== src/Action.antt =====
-- Effects: an action on a world returns or raises, and what it wrote before a raise stays written.
use termiclaw.Prelude.{◌≡◌, refl, ◌⊎◌, inl, inr}
use termiclaw.Errors.{Exception, Raises, returns, raises}

abbrev pub Action : Type 0 → Type 0 → Type 0
Action W A = W → Raises A × W

module _ {W A : Type 0} where
  abbrev pub pure : A → Action W A
  pure a w = (returns a, w)

  abbrev pub raise : Exception → Action W A
  raise x w = (raises x, w)

  -- A pure computation that may raise.
  abbrev pub lift : Raises A → Action W A
  lift r w = (r, w)

module _ {W A B : Type 0} where
  abbrev pub continue : Raises A → (A → Action W B) → Action W B
  continue (returns a) f w = f a w
  continue (raises x) f w = (raises x, w)

  infixl 5 ◌>>=◌ ◌>>◌
  abbrev pub ◌>>=◌ : Action W A → (A → Action W B) → Action W B
  ◌>>=◌ m f w = continue (m w).0 f (m w).1

  abbrev pub ◌>>◌ : Action W A → Action W B → Action W B
  m >> k = m >>= λ _. k

-- To split on what an action did and keep the equation.
pub Action-cases :
    {W A : Type 0} (o : Raises A × W)
    → ((a : A) × (w : W) × (o ≡ (returns a, w))) ⊎ ((x : Exception) × (w : W) × (o ≡ (raises x, w)))
Action-cases (returns a, w) = inl (a, w, refl)
Action-cases (raises x, w) = inr (x, w, refl)
