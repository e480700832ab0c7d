-- ===== src/Action.antt =====
-- A call that works on a state and may fail. What was done before an error stays done, so the
-- state comes back beside the error too.
use jobsd.Common.{Bool, true, false}
use jobsd.Result.{Error, Result, ok, err, hang}

abbrev pub Action {ℓ} : Type ℓ → Type ℓ → Type ℓ
Action S A = S → Result A × S

module _ {ℓ} {S A : Type ℓ} where
  abbrev pub pure : A → Action S A
  pure a s = (ok a, s)

  abbrev pub lift : Result A → Action S A
  lift r s = (r, s)

module _ {ℓ} {S A B : Type ℓ} where
  abbrev pub continue : Result A → (A → Action S B) → Action S B
  continue (ok a) f s = f a s
  continue (err e) f s = (err e, s)
  continue hang f s = (hang, s)

  infixl 5 ◌>>=◌ ◌>>◌
  abbrev pub ◌>>=◌ : Action S A → (A → Action S B) → Action S B
  ◌>>=◌ m f s = continue (m s).0 f (m s).1

  abbrev pub ◌>>◌ : Action S A → Action S B → Action S B
  m >> n = m >>= λ _. n

-- `if bad { return err }`
abbrev pub refuse_if : {S : Type 0} → Bool → Error → Action S Unit
refuse_if true e s = (err e, s)
refuse_if false e s = (ok tt, s)

-- A call whose error is logged and dropped.
abbrev pub logged : {S : Type 0} → Action S Unit → Action S Unit
logged m s = elim (m s).0 [
  | ok _ ↦ (ok tt, (m s).1)
  | err _ ↦ (ok tt, (m s).1)
  | hang ↦ (hang, (m s).1)
]
