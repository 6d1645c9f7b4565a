-- ===== src/Scheduler/Spec/Overlay.antt =====
-- `MergedJobs` and `overlaidWith`, field by field (pkg/workers/scheduler/config.go).
use lakta.Prelude.{
  ℕ, ◌≡◌, refl, sym, ap, ◌∙◌, true, false, Option, none, some, List, [], ◌∷◌, get, put, get-put_if,
  IsMap, ◌==◌, same-eq, bytes_keyed, if◌then◌else◌, inl, inr, ◌⊎◌, Bool-cases,
}
use lakta.Scheduler.Spec.{JobSpec, or_zero, overlaid_with, overlay_jobs, merged_jobs}

-- The job that stands under a name once an override of it is laid over.
abbrev pub overlaid : (base override : Option JobSpec) → Option JobSpec
overlaid base none = base
overlaid base (some o) = some (overlaid_with (or_zero base) o)

overlay_jobs_lem :
    (merged jobs : List (List ℕ × JobSpec))
    → IsMap jobs
    → (name : List ℕ)
    → get (overlay_jobs merged jobs) name ≡ overlaid (get merged name) (get jobs name)
unfolding overlay_jobs
overlay_jobs_lem merged [] m name = refl
overlay_jobs_lem merged ((n, o) ∷ jobs) (fresh, m) name =
    overlay_jobs_lem (put merged n (overlaid_with (or_zero (get merged n)) o)) jobs m name
    ∙ at (Bool-cases (n == name))
  where
    at :
        (n == name ≡ true) ⊎ (n == name ≡ false)
        → overlaid
            (get (put merged n (overlaid_with (or_zero (get merged n)) o)) name)
            (get jobs name)
          ≡ overlaid (get merged name) (if n == name then some o else get jobs name)
    at (inl y) =
        ap (λ (z : Option JobSpec). overlaid z (get jobs name)) (get-put_if merged n name _)
        ∙ rw y (
            ap (overlaid (some (overlaid_with (or_zero (get merged n)) o)))
              (ap (get jobs) (sym (same-eq n name y)) ∙ fresh)
            ∙ ap (λ (z : List ℕ). some (overlaid_with (or_zero (get merged z)) o))
                (same-eq n name y))
    at (inr e) =
        ap (λ (z : Option JobSpec). overlaid z (get jobs name)) (get-put_if merged n name _)
        ∙ rw e refl

-- Under each name the merged jobs have what the configuration's entry makes of the code's job, or of
-- an empty one; and the code's job where the configuration has no entry, whatever the order.
pub merged_jobs_lem :
    (code_jobs jobs : List (List ℕ × JobSpec))
    → IsMap jobs
    → (name : List ℕ)
    → get (merged_jobs code_jobs jobs) name ≡ overlaid (get code_jobs name) (get jobs name)
unfolding merged_jobs
merged_jobs_lem code_jobs jobs m name = overlay_jobs_lem code_jobs jobs m name
