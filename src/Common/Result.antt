-- ===== src/Common/Result.antt =====
-- Fallible steps over a state: what was written before an error stays written, so the state comes
-- back beside the error too.
use mathlib.Core.Path.{◌≡◌, refl}
use mathlib.Core.Logic.{◌⊎◌, inl, inr}
use Prim.Native.String.{String}

-- The errors that callers tell apart (`ds.ErrNotFound`, `ErrBlobNotFound`, the error of a cancelled
-- context), and all others by what they say. `wrapped` is `fmt.Errorf("...: %w", err)`.
pub data Error : Type 0 where
  not_found blob_not_found cancelled : Error
  failure : String → Error
  wrapped : String → Error → Error

pub data Result {ℓ} (A : Type ℓ) : Type ℓ where
  ok : A → Result A
  err : Error → Result A

abbrev pub Exec {ℓ} : Type ℓ → Type ℓ → Type ℓ
Exec S A = S → Result A × S

pub Result-cases {ℓ} :
    {A : Type ℓ} (r : Result A) → ((a : A) × (r ≡ ok a)) ⊎ ((e : Error) × (r ≡ err e))
Result-cases (ok a) = inl (a, refl)
Result-cases (err e) = inr (e, refl)

module _ {ℓ} {S A : Type ℓ} where
  abbrev pub pure : A → Exec S A
  pure a s = (ok a, s)

  abbrev pub raise : Error → Exec S A
  raise e s = (err e, s)

module _ {ℓ} {S A B : Type ℓ} where
  -- `match` on a result with the state that it left.
  abbrev pub branch : (A → Exec S B) → (Error → Exec S B) → Result A → S → Result B × S
  branch f g (ok a) s = f a s
  branch f g (err e) s = g e s

  -- `if err != nil { ... }` with a handler of its own.
  abbrev pub handle : Exec S A → (A → Exec S B) → (Error → Exec S B) → Exec S B
  handle m f g s = let (r, s') = m s in branch f g r s'

  infixl 5 ◌>>=◌ ◌>>◌
  abbrev pub ◌>>=◌ : Exec S A → (A → Exec S B) → Exec S B
  ◌>>=◌ m f s = let (r, s') = m s in branch f (λ e. raise e) r s'

  abbrev pub ◌>>◌ : Exec S A → Exec S B → Exec S B
  m >> n = m >>= λ _. n

  -- A successful block is a successful step and a successful rest.
  pub >>=-eq-ok :
      (m : Exec S A) (f : A → Exec S B) (s : S) {b : B}
      → ((m >>= f) s).0 ≡ ok b
      → (a : A) × ((m s).0 ≡ ok a) × ((m >>= f) s ≡ f a (m s).1)
  >>=-eq-ok m f s h = elim (Result-cases (m s).0) [
    | inl (a, e) ↦ (a, e, rw e)
    | inr (x, e) ↦ cc (rw e at h)
  ]
