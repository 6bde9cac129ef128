-- ===== src/Storage/Runs.antt =====
-- What a sequence of statements does: where it returns, it has applied its effects to the tables,
-- and it leaves an open transaction open.
use tenso.Prelude.{ℕ, ◌≡◌, refl, Bool, false, arith, inl, inr, ◌⊎◌}
use tenso.Storage.{StorageError, Result, ok, err, Tables, Conn, Db, Statement, ◌>>◌, done, execute}

-- One effect after the other.
abbrev pub and_then : Result Tables → Statement → Result Tables
and_then (ok t) g = g t
and_then (err e) g = err e

pub Result-cases {ℓ} :
    {A : Type ℓ} (r : Result A) → ((a : A) × (r ≡ ok a)) ⊎ ((e : StorageError) × (r ≡ err e))
Result-cases (ok a) = inl (a, refl)
Result-cases (err e) = inr (e, refl)

pub and_then-ok :
    (r : Result Tables) (g : Statement) (t : Tables)
    → and_then r g ≡ ok t
    → (t' : Tables) × (r ≡ ok t') × (g t' ≡ ok t)
and_then-ok (ok t') g t h = (t', refl, h)
and_then-ok (err e) g t h = absurd (cc (h))

-- A sequence goes on after its first part, or ends with the error of it.
pub bind-cases :
    (m n : Db (Unit {0})) (c : Conn)
    → (((m c).0 ≡ ok tt) × ((m >> n) c ≡ n (m c).1))
      ⊎ ((e : StorageError) × ((m c).0 ≡ err e) × ((m >> n) c ≡ (err e, (m c).1)))
bind-cases m n c = elim (Result-cases (m c).0) [
  | inl (u, h) ↦ inl (h, rw h refl)
  | inr (e, h) ↦ inr (e, h, rw h refl)
]

-- `m` applies `f`.
pub record Runs (fault : ℕ → Bool) (m : Db (Unit {0})) (f : Statement) : Type 0 where
  pub applies : (c : Conn) → (m c).0 ≡ ok tt → f c.tables ≡ ok (m c).1.tables
  pub keeps_saved : (c : Conn) → (m c).1.saved ≡ c.saved
  pub succeeds :
      (c : Conn) (t : Tables) → ((n : ℕ) → fault n ≡ false) → f c.tables ≡ ok t → (m c).0 ≡ ok tt

module _ (fault : ℕ → Bool) where
  pub Runs-execute : (f : Statement) → Runs fault (execute fault f) f
  unfolding execute
  Runs-execute f = record {
    applies = λ c h. ground arith;
    keeps_saved = λ c. ground arith;
    succeeds = λ c t no_fault h. ground (arith, no_fault c.clock);
  }

  pub Runs-done : Runs fault done ok
  Runs-done = record { applies = λ c h. refl; keeps_saved = λ c. refl; succeeds = λ c t n h. refl }

  pub Runs-bind :
      (m n : Db (Unit {0})) (f g : Statement)
      → Runs fault m f
      → Runs fault n g
      → Runs fault (m >> n) (λ t. and_then (f t) g)
  Runs-bind m n f g rm rn = record {
    applies = λ c h. ground (arith, rm.applies c, rn.applies (m c).1);
    keeps_saved = λ c. ground (arith, rm.keeps_saved c, rn.keeps_saved (m c).1);
    succeeds = λ c t no_fault h.
        let (t', ft, gt) = and_then-ok (f c.tables) g t h in
        ground (arith, rm.succeeds c t' no_fault ft, rm.applies c, rn.succeeds (m c).1 t no_fault);
  }
