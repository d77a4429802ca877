-- ===== src/Pipeline/Runs.antt =====
-- The order in which the pipeline runs its stages, and where it stops.
use sentinel_ai_v3_0_the_fin.Prelude.{
  ◌≡◌, refl, false, Option, some, List, [], ◌∷◌, ◌++◌, if◌then◌else◌, Option-cases, Bool-cases, inl,
  inr,
}
use sentinel_ai_v3_0_the_fin.Pipeline.{Run, Stage, has_errors, execute, ◌>>=◌}

-- After the first stages: a run with errors goes no further.
abbrev pub continue : List Stage → Run → Option Run
continue stages r = if has_errors r then some r else execute stages r

-- A pipeline of two parts runs the first part, and the second one only if the first has left no
-- errors and raised nothing; the context at the start has no errors.
pub execute-append :
    (xs ys : List Stage) (r : Run)
    → has_errors r ≡ false
    → execute (xs ++ ys) r ≡ (execute xs r >>= continue ys)
unfolding execute
execute-append [] ys r h = rw h refl
execute-append (x ∷ xs) ys r h = elim (Option-cases (x r)) [
  | inl e ↦ rw e refl
  | inr (r', e) ↦ rw e (elim (Bool-cases (has_errors r')) [
    | inl q ↦ rw q (rw q refl)
    | inr q ↦ rw q (execute-append xs ys r' q)
  ])
]

-- A stage that succeeds and leaves no errors hands its run on.
pub execute_step :
    (stage : Stage) (stages : List Stage) (r r' : Run)
    → stage r ≡ some r'
    → has_errors r' ≡ false
    → execute (stage ∷ stages) r ≡ execute stages r'
unfolding execute
execute_step stage stages r r' e h = rw e (rw h refl)
