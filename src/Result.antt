-- ===== src/Result.antt =====
-- What a function of the program returns, and actions on a state. An error keeps the sentinel that
-- callers test with errors.Is; the text that fmt.Errorf wraps around it is left out. `hang` is a
-- loop that has used up its fuel.
pub mod Parts
use jobsd.Common.{Bool, true, false, String, ◌≡◌, ap, subst}

pub data Error : Type 0 where
  -- a call of the operating system failed
  system : Error
  -- the engine refused a statement, or a constraint of the schema did
  engine constraint : Error
  job_not_found run_not_found metadata_not_found metadata_corrupt : Error
  run_conflict index_out_of_range : Error
  state_not_found state_corrupt : Error
  invalid : String → Error

pub data Result {ℓ} (A : Type ℓ) : Type ℓ where
  ok : A → Result A
  err : Error → Result A
  hang : Result A

infixl 5 ◌>>=◌ ◌>>◌
abbrev pub ◌>>=◌ {ℓ κ} : {A : Type ℓ} {B : Type κ} → Result A → (A → Result B) → Result B
ok a >>= f = f a
err e >>= f = err e
hang >>= f = hang

abbrev pub ◌>>◌ {ℓ} : {B : Type ℓ} → Result (Unit {0}) → Result B → Result B
m >> k = m >>= λ _. k

-- `if bad { return err }`
abbrev pub refuse_if : Bool → Error → Result (Unit {0})
refuse_if true e = err e
refuse_if false e = ok tt

value_or {ℓ} : {A : Type ℓ} → A → Result A → A
value_or d (ok a) = a
value_or d (err e) = d
value_or d hang = d

ok-injective {ℓ} : {A : Type ℓ} {a b : A} → ok a ≡ ok b → a ≡ b
unfolding value_or
ok-injective {a} p = ap (value_or a) p

abbrev pub is_ok {ℓ} : {A : Type ℓ} → Result A → Bool
is_ok (ok a) = true
is_ok (err e) = false
is_ok hang = false

-- What holds of the value, if one is returned.
abbrev pub Ensures {ℓ κ} : {A : Type ℓ} → (A → Type κ) → Result A → Type κ
Ensures P (ok a) = P a
Ensures P (err e) = Unit
Ensures P hang = Unit

pub Ensures→ {ℓ κ} :
    {A : Type ℓ} (P : A → Type κ) (r : Result A) {a : A} → Ensures P r → r ≡ ok a → P a
Ensures→ P (ok b) h e = subst P (ok-injective e) h
Ensures→ P (err x) h e = cc
Ensures→ P hang h e = cc
