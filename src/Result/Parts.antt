-- ===== src/Result/Parts.antt =====
-- Calls that have returned a value: what each of their parts returned.
use jobsd.Common.{◌≡◌, refl}
use jobsd.Result.{Result, ok, err, hang, ◌>>=◌ as bind}

-- The first call of a chain gave a value, from which the second one went on.
pub bind_parts {ℓ κ} :
    {A : Type ℓ} {B : Type κ} (first : Result A) (second : A → Result B) {out : B}
    → bind first second ≡ ok out
    → (given : A) × (first ≡ ok given) × (second given ≡ ok out)
bind_parts (ok given) second h = (given, refl, h)
bind_parts (err why) second h = cc
bind_parts hang second h = cc
