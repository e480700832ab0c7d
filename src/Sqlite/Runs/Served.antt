-- ===== src/Sqlite/Runs/Served.antt =====
-- What sorting, joining and taking keep of the rows of a table.
use jobsd.Common.{
  ℕ, zero, suc, ◌==◌, ◌||◌, Bool, true, false, Option, none, some, List, [], ◌∷◌, find_where,
  is_none, String, insert_by, sort_by, take, length, All, IsSortedBy, ◌≡◌, ◌⊎◌, inl, inr, refl,
  arith, Bool-cases,
}
use jobsd.Sqlite.{JobRow, RunRow}
use jobsd.Sqlite.Runs.{Joined, join_jobs, queued_before}

-- whether an element passes a test
abbrev pub has {ℓ} : {A : Type ℓ} → (A → Bool) → List A → Bool
has test [] = false
has test (x ∷ xs) = test x || has test xs

All-insert_by_back {ℓ κ} :
    {A : Type ℓ} (P : A → Type κ) (before : A → A → Bool) (x : A) (ys : List A)
    → All P (insert_by before x ys)
    → P x × All P ys
unfolding insert_by
All-insert_by_back P before x [] h = h
All-insert_by_back P before x (y ∷ ys) h = elim (Bool-cases (before x y)) [
  | inl e ↦ rw e at h
  | inr e ↦
      let k : All P (y ∷ insert_by before x ys) = rw e at h in
      let (first, rest) = All-insert_by_back P before x ys k.1 in (first, (k.0, rest))
]

pub All-sort_by_back {ℓ κ} :
    {A : Type ℓ} (P : A → Type κ) (before : A → A → Bool) (xs : List A)
    → All P (sort_by before xs)
    → All P xs
unfolding sort_by
All-sort_by_back P before [] h = tt
All-sort_by_back P before (x ∷ xs) h =
    let (first, rest) = All-insert_by_back P before x (sort_by before xs) h in
    (first, All-sort_by_back P before xs rest)

-- A row is among the taken ones, or as many as asked for were taken and all of them come before it.
abbrev pub Served : ℕ → List Joined → Joined → Type 0
Served limit taken row =
    (has (λ x. x.0.id == row.0.id) taken ≡ true)
    ⊎ ((length taken ≡ limit) × All (λ x. queued_before x row ≡ true) taken)

none_taken : (rows : List Joined) → All (Served 0 []) rows
none_taken [] = tt
none_taken (row ∷ rows) = (inr (refl, tt), none_taken rows)

Served-cons :
    (limit : ℕ) (x : Joined) (taken rows : List Joined)
    → All (λ y. queued_before x y ≡ true) rows
    → All (Served limit taken) rows
    → All (Served (suc limit) (x ∷ taken)) rows
Served-cons limit x taken [] h k = tt
Served-cons limit x taken (row ∷ rows) (e, h) (served, k) = (
  elim served [
    | inl there ↦ inl (rw there (ground arith))
    | inr (full, earlier) ↦ inr (omega arith, (e, earlier))
  ],
  Served-cons limit x taken rows h k,
)

pub take-Served :
    (limit : ℕ) (rows : List Joined)
    → IsSortedBy queued_before rows
    → All (Served limit (take limit rows)) rows
take-Served zero rows h = none_taken rows
take-Served (suc limit) [] h = tt
take-Served (suc limit) (x ∷ rows) (e, h) =
    (inl (ground arith), Served-cons limit x (take limit rows) rows e (take-Served limit rows h))

-- what holds of all joined rows holds of all rows that pass the test and have their job
pub All-join_jobs_back :
    (P : Joined → Type 0) (test : RunRow → Bool) (jobs : List JobRow) (rs : List RunRow)
    → All P (join_jobs test jobs rs)
    → All
        (λ r.
          test r ≡ true
          → is_none (find_where (λ j. j.id == r.job_id) jobs) ≡ false
          → (name : String) × P (r, name))
        rs
unfolding join_jobs
All-join_jobs_back P test jobs [] h = tt
All-join_jobs_back P test jobs (r ∷ rs) h = elim (Bool-cases (test r)) [
  | inl e ↦
      matched (find_where (λ j. j.id == r.job_id) jobs) refl e (rw e at h)
        (All-join_jobs_back P test jobs rs)
  | inr e ↦ ((λ passes. cc), All-join_jobs_back P test jobs rs (rw e at h))
]
  where
    Placed : RunRow → Type 0
    Placed r =
        test r ≡ true
        → is_none (find_where (λ j. j.id == r.job_id) jobs) ≡ false
        → (name : String) × P (r, name)

    matched :
        (found : Option JobRow)
        → find_where (λ j. j.id == r.job_id) jobs ≡ found
        → test r ≡ true
        → All P (elim found [
          | none ↦ join_jobs test jobs rs
          | some j ↦ (r, j.name) ∷ join_jobs test jobs rs
        ])
        → (All P (join_jobs test jobs rs) → All Placed rs)
        → All Placed (r ∷ rs)
    matched none e passes k rest = ((λ p there. absurd (ground arith)), rest k)
    matched (some j) e passes k rest = ((λ p there. (j.name, k.0)), rest k.1)
