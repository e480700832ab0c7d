-- ===== src/Sqlite/Sound/Changes.antt =====
-- What a change of the jobs leaves of the names, the ids and the references.
use text.Mathlib.Text.{◌==◌ as str_eq}
use jobsd.Common.{
  ℕ, ◌≤◌, ◌==◌, Bool, true, false, not, List, [], ◌∷◌, select, update_where, count_where, All, ◌≡◌,
  refl, ◌∙◌, arith, eq_iff, Bool-cases, inl, inr,
}
use jobsd.Common.Lists.Laws.{All-select, All-update_where, All-mono, select_sound}
use jobsd.Common.Lists.Counting.{
  count_where-update_where, count_where-agree, count_where-select, update_where_none,
  count_where-update_where_zero, All-zip, Differ, Differ-update_where,
}
use jobsd.Sqlite.{Tables, JobRow}
use jobsd.Sqlite.Jobs.{has_id, has_name, takes_name}
use jobsd.Sqlite.Sound.{same_id, same_name, TablesAreSound}

pub names_swap : (i j : JobRow) → same_name i j ≡ same_name j i
names_swap i j = ground (arith, eq_iff i.name j.name, eq_iff j.name i.name)

pub ids_swap : (i j : JobRow) → same_id i j ≡ same_id j i
ids_swap i j = ground arith

-- What refers to a row that a deletion leaves: one that was there, and is not among the deleted.
survives :
    {A : Type 0} (q p : A → Bool) (xs : List A)
    → not (count_where q xs == 0) ≡ true
    → not (not (count_where q (select p xs) == 0)) ≡ true
    → not (count_where q (select (λ x. not (p x)) xs) == 0) ≡ true
survives q p xs there gone = let split = count_where-select q p xs in ground arith

-- the references of a table, after rows of both tables have been deleted
pub references_left :
    {A B : Type 0} (q : B → A → Bool) (p : A → Bool) (xs : List A) (ys : List B)
    → All (λ y. not (count_where (q y) xs == 0) ≡ true) ys
    → All
        (λ y. not (count_where (q y) (select (λ x. not (p x)) xs) == 0) ≡ true)
        (select (λ y. not (not (count_where (q y) (select p xs) == 0))) ys)
references_left {A} {B} q p xs ys h =
    let gone : B → Bool = λ y. not (count_where (q y) (select p xs) == 0) in
    let kept = All-select (λ y. not (count_where (q y) xs == 0) ≡ true) (λ y. not (gone y)) ys h in
    let left = select_sound (λ y. not (gone y)) ys in
    All-mono (select (λ y. not (gone y)) ys) (λ y both. survives (q y) p xs both.0 both.1)
      (All-zip (λ y. not (count_where (q y) xs == 0) ≡ true) (λ y. not (gone y) ≡ true)
        (select (λ y. not (gone y)) ys) kept left)

module _ (k : ℕ) (row : JobRow) (f : JobRow → JobRow)
    (name_of : (j : JobRow) → (f j).name ≡ row.name) (row_id : row.id ≡ k) where
  names_free :
      (jobs : List JobRow)
      → count_where (has_id k) jobs ≡ 0
      → count_where (takes_name row) jobs ≡ 0
      → count_where (has_name row.name) jobs ≡ 0
  unfolding count_where
  names_free [] absent free = refl
  names_free (j ∷ jobs) absent free = let rest = names_free jobs in ground arith

  -- an UPDATE of one job gives it a name that no other job has
  pub names_updated :
      (jobs : List JobRow)
      → Differ same_id jobs
      → Differ same_name jobs
      → count_where (takes_name row) jobs ≡ 0
      → Differ same_name (update_where (has_id k) f jobs)
  unfolding count_where update_where
  names_updated [] ids names free = tt
  names_updated (j ∷ jobs) ids names free = elim (Bool-cases (has_id k j)) [
    | inl here ↦
        let absent : count_where (has_id k) jobs ≡ 0 =
          count_where-agree (has_id k) (same_id j) jobs (λ x. ground arith) ∙ ids.0 in
        let same = update_where_none (has_id k) f jobs absent in
        let unused = names_free jobs absent (ground arith) in
        rw (here, same)
          (
            count_where-agree (same_name (f j)) (has_name row.name) jobs (λ x. rw (name_of j) refl)
                ∙ unused,
            names.1,
          )
    | inr there ↦
        let rest = names_updated jobs ids.1 names.1 (ground arith) in
        let other : str_eq row.name j.name ≡ false =
          ground (arith, eq_iff row.name j.name, eq_iff j.name row.name) in
        let first =
          count_where-update_where_zero (same_name j) (has_id k) f jobs (λ x. rw (name_of x) other)
            names.0 in
        rw there (first, rest)
  ]

-- the tables after jobs have been changed without a change of an id
pub jobs_changed :
    (t : Tables) (p : JobRow → Bool) (f : JobRow → JobRow)
    → ((j : JobRow) → (f j).id ≡ j.id)
    → Differ same_name (update_where p f t.jobs)
    → TablesAreSound t
    → TablesAreSound (record t { jobs = update_where p f t.jobs })
jobs_changed t p f id_of names h = record {
  names = names;
  ids =
      Differ-update_where same_id p f t.jobs (λ i j. rw (id_of i) refl) (λ i j. rw (id_of j) refl)
        h.ids;
  given = All-update_where (λ j. j.id ≤ t.job_seq) p f t.jobs (λ j e g. rw (id_of j) g) h.given;
  runs =
      All-mono t.runs
        (λ r there.
          rw (count_where-update_where (has_id r.job_id) p f t.jobs (λ j. rw (id_of j) refl)) there)
        h.runs;
  outputs = h.outputs;
  deliveries = h.deliveries;
}
