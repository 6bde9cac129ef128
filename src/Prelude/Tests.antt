-- ===== src/Prelude/Tests.antt =====
-- Boolean tests on numbers and texts, the conditional, and types with decidable equality.
use Prim.Native.Nat.{ℕ, compare, Ordering}
use Prim.Native.String.{String}
use mathlib.Core.Path.{◌≡◌, refl, ap}
use mathlib.Core.Logic.{◌↔◌, ◌⊎◌, inl, inr}
use mathlib.Core.Bool.{Bool, true, false, false≢true}
use mathlib.Core.Option.{Option, none, some}
use native.Mathlib.Decide.{ℕ_discrete}
use text.Mathlib.Text.{◌==◌ as str_eq}
use text.Mathlib.TextEquality.{eq_iff}

abbrev pub ltb : ℕ → ℕ → Bool
ltb a b = elim (compare a b) [ Ordering.lt ↦ true | _ ↦ false ]

abbrev pub leb : ℕ → ℕ → Bool
leb a b = elim (compare a b) [ Ordering.gt ↦ false | _ ↦ true ]

infix 50 ◌==◌
abbrev pub ◌==◌ : ℕ → ℕ → Bool
a == b = elim (compare a b) [ Ordering.eq ↦ true | _ ↦ false ]

infix 1 if◌then◌else◌
abbrev pub if◌then◌else◌ {ℓ} : {A : Type ℓ} → Bool → A → A → A
if true then x else y = x
if false then x else y = y

pub Bool-cases : (b : Bool) → (b ≡ true) ⊎ (b ≡ false)
Bool-cases true = inl refl
Bool-cases false = inr refl

pub Option-cases {ℓ} : {A : Type ℓ} (o : Option A) → (o ≡ none) ⊎ ((a : A) × (o ≡ some a))
Option-cases none = inl refl
Option-cases (some a) = inr (a, refl)

pub some_path {ℓ} : {A : Type ℓ} {x y : A} → some x ≡ some y → x ≡ y
some_path h = cc (h)

-- Equality of keys.
pub record Eq {ℓ} (A : Type ℓ) : Type ℓ where
  pub dec : Discrete A

decide_text : (s t : String) (b : Bool) → ((b ≡ true) ↔ (s ≡ t)) → Dec (s ≡ t)
decide_text s t true h = yes (h.0 refl)
decide_text s t false h = no (λ p. false≢true (h.1 p))

unfoldable pub text_discrete : Discrete String
unfolding decide_text
text_discrete s t = decide_text s t (str_eq s t) (eq_iff s t)

instance abbrev pub text_eq : Eq String
text_eq = record { dec = text_discrete }

instance abbrev pub number_eq : Eq ℕ
number_eq = record { dec = ℕ_discrete }

unfoldable pub decide_pair :
    {A B : Type 0} (a b : A × B) → Dec (a.0 ≡ b.0) → Dec (a.1 ≡ b.1) → Dec (a ≡ b)
decide_pair a b (yes p) (yes q) = yes (λ i. (p i, q i))
decide_pair a b (yes p) (no q) = no (λ e. q (ap (λ c. c.1) e))
decide_pair a b (no p) d = no (λ e. p (ap (λ c. c.0) e))

unfoldable pub text_pair_discrete : Discrete (String × String)
unfolding decide_pair text_discrete
text_pair_discrete a b = decide_pair a b (text_discrete a.0 b.0) (text_discrete a.1 b.1)

-- Equality of a pair of texts.
instance abbrev pub pair_eq : Eq (String × String)
pair_eq = record { dec = text_pair_discrete }
