-- ===== src/Prelude/Bounds.antt =====
-- The largest of the numbers that a function gives on a list, 0 on the empty one.
use tenso.Prelude.{ℕ, ◌≤◌, max, ◌≡◌, List, [], ◌∷◌, ◌++◌, arith, All}

module _ {ℓ} {A : Type ℓ} where
  abbrev pub max_of : (A → ℕ) → List A → ℕ
  max_of f [] = 0
  max_of f (x ∷ xs) = max (f x) (max_of f xs)

  pub max_of-append :
      (f : A → ℕ) (xs ys : List A) → max_of f (xs ++ ys) ≡ max (max_of f xs) (max_of f ys)
  max_of-append f [] ys = omega arith
  max_of-append f (x ∷ xs) ys = omega (arith, max_of-append f xs ys)

  -- A bound of all values bounds their maximum.
  pub max_of-le : (f : A → ℕ) (xs : List A) (b : ℕ) → All (λ x. f x ≤ b) xs → max_of f xs ≤ b
  max_of-le f [] b h = omega arith
  max_of-le f (x ∷ xs) b h = omega (arith, max_of-le f xs b h.1)

  pub le-max_of : (f : A → ℕ) (xs : List A) (b : ℕ) → max_of f xs ≤ b → All (λ x. f x ≤ b) xs
  le-max_of f [] b h = tt
  le-max_of f (x ∷ xs) b h = (omega arith, le-max_of f xs b (omega arith))
