-- ===== src/Exec.antt =====
-- Methods that await fallible calls. A rejected promise or a thrown exception is an `Outcome.err`,
-- and what was written before a throw stays written, so the state comes back beside it.
-- NestJS exceptions are told apart by their class; their messages are not modelled.
use trust_link_backend.Prelude.{Bool, if◌then◌else◌, ◌≡◌, refl, ◌⊎◌, inl, inr}

pub data Failure : Type 0 where
  -- 400, 401, 403, 404, 409, 422, 500, 503
  bad_request unauthorized forbidden not_found conflict unprocessable internal unavailable : Failure
  -- any error that is no HttpException: a rejected query, an RPC fault, a plain `Error`
  rejected : Failure

pub data Outcome {ℓ} (A : Type ℓ) : Type ℓ where
  ok : A → Outcome A
  err : Failure → Outcome A

pub Outcome-cases :
    {A : Type 0} → (r : Outcome A) → ((a : A) × (r ≡ ok a)) ⊎ ((f : Failure) × (r ≡ err f))
Outcome-cases (ok a) = inl (a, refl)
Outcome-cases (err f) = inr (f, refl)

abbrev pub Exec : Type 0 → Type 0 → Type 0
Exec S A = S → Outcome A × S

module _ {S A : Type 0} where
  abbrev pub pure : A → Exec S A
  pure a s = (ok a, s)

  abbrev pub raise : Failure → Exec S A
  raise e s = (err e, s)

  -- A call whose outcome is known, and which leaves the state alone.
  abbrev pub lift : Outcome A → Exec S A
  lift r s = (r, s)

  -- `try { … } catch (e) { … }`
  abbrev pub catch_with : (Failure → Exec S A) → Outcome A × S → Outcome A × S
  catch_with handler (ok a, s) = (ok a, s)
  catch_with handler (err e, s) = handler e s

  abbrev pub attempt : Exec S A → (Failure → Exec S A) → Exec S A
  attempt m handler s = catch_with handler (m s)

module _ {S A B : Type 0} where
  infixl 5 ◌>>=◌ ◌>>◌
  abbrev pub continue : (A → Exec S B) → Outcome A × S → Outcome B × S
  continue f (ok a, s) = f a s
  continue f (err e, s) = (err e, s)

  abbrev pub ◌>>=◌ : Exec S A → (A → Exec S B) → Exec S B
  ◌>>=◌ m f s = continue f (m s)

  abbrev pub ◌>>◌ : Exec S A → Exec S B → Exec S B
  ◌>>◌ m n s = continue (λ _. n) (m s)

  -- `try { … } finally { … }`: the cleanup runs on both ways out, and its own error wins.
  abbrev pub after : Exec S B → Outcome A × S → Outcome A × S
  after cleanup (r, s) = continue_with r (cleanup s)
    where
      continue_with : Outcome A → Outcome B × S → Outcome A × S
      continue_with r' (ok _, s') = (r', s')
      continue_with r' (err e, s') = (err e, s')

  abbrev pub finally : Exec S A → Exec S B → Exec S A
  finally m cleanup s = after cleanup (m s)

-- `if (!test) throw e`
abbrev pub require : {S : Type 0} → Bool → Failure → Exec S (Unit {0})
require test e = if test then pure tt else raise e
