-- ===== src/Common/Lists/Counting.antt =====
-- How many rows pass a test, after a query or an update; and keys that no two rows share.
use Prim.Native.Nat.{◌+◌}
use mathlib.Core.Path.{◌≡◌, refl}
use mathlib.Core.Logic.{inl, inr}
use mathlib.Core.Bool.{Bool, true, false, not}
use mathlib.Core.List.{List, [], ◌∷◌, ◌++◌}
use native.Mathlib.Omega.{arith}
use jobsd.Common.Tests.{Bool-cases}
use jobsd.Common.Lists.{select, update_where, count_where, All}
use jobsd.Common.Lists.Laws.{count_where-append}

module _ {ℓ} {A : Type ℓ} where
  -- An update that keeps what a test says keeps how many rows pass it.
  pub count_where-update_where :
      (q p : A → Bool) (f : A → A) (xs : List A)
      → ((x : A) → q (f x) ≡ q x)
      → count_where q (update_where p f xs) ≡ count_where q xs
  unfolding count_where update_where
  count_where-update_where q p f [] same = refl
  count_where-update_where q p f (x ∷ xs) same =
      let rest = count_where-update_where q p f xs same in let here = same x in ground arith

  pub count_where-agree :
      (q r : A → Bool) (xs : List A) → ((x : A) → q x ≡ r x) → count_where q xs ≡ count_where r xs
  unfolding count_where
  count_where-agree q r [] same = refl
  count_where-agree q r (x ∷ xs) same =
      let rest = count_where-agree q r xs same in let here = same x in ground arith

  -- The rows that pass a test stand among those that are selected and those that are not.
  pub count_where-select :
      (q p : A → Bool) (xs : List A)
      → count_where q xs ≡ count_where q (select p xs) + count_where q (select (λ x. not (p x)) xs)
  unfolding count_where select
  count_where-select q p [] = refl
  count_where-select q p (x ∷ xs) = let rest = count_where-select q p xs in ground arith

  pub update_where_agree :
      (p : A → Bool) (f g : A → A) (xs : List A)
      → ((x : A) → p x ≡ true → f x ≡ g x)
      → update_where p f xs ≡ update_where p g xs
  unfolding update_where
  update_where_agree p f g [] same = refl
  update_where_agree p f g (x ∷ xs) same =
      let rest = update_where_agree p f g xs same in let here = same x in ground arith

  -- An update of rows that are not there changes nothing.
  pub update_where_none :
      (p : A → Bool) (f : A → A) (xs : List A) → count_where p xs ≡ 0 → update_where p f xs ≡ xs
  unfolding count_where update_where
  update_where_none p f [] none = refl
  update_where_none p f (x ∷ xs) none = let rest = update_where_none p f xs in ground arith

  -- No row passes a test after an update that makes none pass it.
  pub count_where-update_where_zero :
      (q p : A → Bool) (f : A → A) (xs : List A)
      → ((x : A) → q (f x) ≡ false)
      → count_where q xs ≡ 0
      → count_where q (update_where p f xs) ≡ 0
  unfolding count_where update_where
  count_where-update_where_zero q p f [] off none = refl
  count_where-update_where_zero q p f (x ∷ xs) off none =
      let rest = count_where-update_where_zero q p f xs off in let here = off x in ground arith

  pub All-zip {κ μ} :
      (P : A → Type κ) (Q : A → Type μ) (xs : List A)
      → All P xs
      → All Q xs
      → All (λ x. P x × Q x) xs
  All-zip P Q [] h k = tt
  All-zip P Q (x ∷ xs) h k = ((h.0, k.0), All-zip P Q xs h.1 k.1)

  -- No two rows have the same key; `same x` tests for the key of x.
  abbrev pub Differ : (A → A → Bool) → List A → Type 0
  Differ same [] = Unit
  Differ same (x ∷ xs) = (count_where (same x) xs ≡ 0) × Differ same xs

  module _ (same : A → A → Bool) where
    pub Differ-append :
        (xs : List A) (new : A)
        → ((x y : A) → same x y ≡ same y x)
        → count_where (same new) xs ≡ 0
        → Differ same xs
        → Differ same (xs ++ new ∷ [])
    unfolding count_where
    Differ-append [] new swap none h = (refl, tt)
    Differ-append (x ∷ xs) new swap none h =
        let rest = Differ-append xs new swap in
        let here = swap x new in
        let there = count_where-append (same x) xs (new ∷ []) in ground arith

    pub Differ-select : (p : A → Bool) (xs : List A) → Differ same xs → Differ same (select p xs)
    unfolding select
    Differ-select p [] h = tt
    Differ-select p (x ∷ xs) h =
        let rest = Differ-select p xs h.1 in
        let count = count_where-select (same x) p xs in
        elim (Bool-cases (p x)) [ inl e ↦ rw e (omega (arith, h.0), rest) | inr e ↦ rw e rest ]

    pub Differ-update_where :
        (p : A → Bool) (f : A → A) (xs : List A)
        → ((x y : A) → same (f x) y ≡ same x y)
        → ((x y : A) → same x (f y) ≡ same x y)
        → Differ same xs
        → Differ same (update_where p f xs)
    unfolding update_where
    Differ-update_where p f [] left right h = tt
    Differ-update_where p f (x ∷ xs) left right h =
        let rest = Differ-update_where p f xs left right h.1 in
        let kept = count_where-update_where (same x) p f xs (right x) in
        let moved = count_where-update_where (same (f x)) p f xs (right (f x)) in
        let equal = count_where-agree (same (f x)) (same x) xs (left x) in
        elim (Bool-cases (p x)) [
          | inl e ↦ rw e (omega (arith, h.0), rest)
          | inr e ↦ rw e (omega (arith, h.0), rest)
        ]
