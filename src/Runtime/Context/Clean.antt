-- ===== src/Runtime/Context/Clean.antt =====
-- What it means that `RunContext` returns nil, and which panics leave it.
use lakta.Prelude.{
  ℕ, suc, ◌≤◌, ◌<◌, ◌≡◌, refl, sym, ap, subst, ◌∙◌, String, Option, none, some, List, [], ◌∷◌, ◌++◌,
  arith, length, map, Result, ok, err,
}
use lakta.Runtime.Module.{Module, Meta}
use lakta.Runtime.Info.{stopped, describe_modules}
use lakta.Runtime.Info.States.{state_at}
use lakta.Runtime.Sort.{sort_modules, SortError}
use lakta.Runtime.Stop.{Run, Stop, shutdown, shutdown_context}
use lakta.Runtime.Stop.Calls.{calls_down}
use lakta.Runtime.Stop.Bounded.{shutdown-AllStopped}
use lakta.Runtime.Boot.{Injector, Boot, booted, failed_boot, crashed_boot, init_modules}
use lakta.Runtime.Boot.Success.{init_modules-booted}
use lakta.Runtime.Context.{
  Outside, early, Failure, ended, conclude, stop_all, after_boot, run_sorted, run_context,
}
use lakta.Runtime.Context.Ends.{after_boot-ShutDown}

length-describe_modules :
    (type_string : ℕ → String) (i : ℕ) (sorted : List (Module × Meta))
    → length (describe_modules type_string i sorted) ≡ length sorted
unfolding describe_modules
length-describe_modules type_string i [] = refl
length-describe_modules type_string i (s ∷ sorted) =
    ap suc (length-describe_modules type_string (suc i) sorted)

length-map : {A B : Type 0} (f : A → B) (xs : List A) → length (map f xs) ≡ length xs
length-map f [] = refl
length-map f (x ∷ xs) = ap suc (length-map f xs)

conclude-nil :
    (cause : Option Failure) (s : Stop) (r : Run)
    → conclude cause s ≡ ended none r
    → (s.1 ≡ none) × (s.0 ≡ r)
conclude-nil cause (r', none) r h = (refl, cc)
conclude-nil cause (r', some e) r h = absurd (cc)

-- Every module was shut down, the last one first, and is recorded as stopped.
pub record CleanEnd (n : ℕ) (r : Run) : Type 0 where
  pub mid : Run
  pub calls : r.log ≡ mid.log ++ calls_down 0 n
  pub states : (j : ℕ) → j < n → state_at r.infos j ≡ some stopped

after_boot-nil :
    (out : Outside) (ms : List Module) (i : Injector) (r₀ r : Run)
    → ((j : ℕ) → out.entry j ≡ early)
    → length ms ≤ length r₀.infos
    → after_boot out (booted ms i r₀) ≡ ended none r
    → CleanEnd (length ms) r
after_boot-nil out ms i r₀ r entered fits h =
    let d = after_boot-ShutDown out entered ms i r₀ in
    let deadline = shutdown_context d.mid.clock in
    let (quiet, same) =
      conclude-nil d.cause (shutdown deadline ms d.mid) r (unfold stop_all in (sym d.stops ∙ h)) in
    let a = shutdown-AllStopped deadline ms d.mid quiet in
    record {
      mid = d.mid;
      calls = ap (λ (x : Run). x.log) (sym same) ∙ a.calls;
      states = λ j l.
          ap (λ (x : Run). state_at x.infos j) (sym same)
          ∙ a.states j (omega arith) (omega arith) (omega (arith, d.long));
    }

boot_nil :
    (out : Outside) (i : Injector) (ms : List Module) (r₀ r : Run)
    → ((j : ℕ) → out.entry j ≡ early)
    → length ms ≤ length r₀.infos
    → (b : Boot) → init_modules 0 [] i ms r₀ ≡ b
    → after_boot out b ≡ ended none r
    → CleanEnd (length ms) r
boot_nil out i ms r₀ r entered fits (failed_boot e r') eq h = absurd (unfold after_boot in cc)
boot_nil out i ms r₀ r entered fits (crashed_boot p r') eq h = absurd (unfold after_boot in cc)
boot_nil out i ms r₀ r entered fits (booted all i' r') eq h =
    let (same, states) = init_modules-booted i ms r₀ all i' r' eq in
    subst (λ (l : List Module). CleanEnd (length l) r) same
      (after_boot-nil out all i' r' r entered (omega (arith, states.long, ap length same)) h)

-- If `RunContext` returns nil, and every goroutine of a sync module was entered before the run woke
-- to end, then the modules were sorted, `Shutdown` was called last of all for each of them, in the
-- reverse of the sorted order, and each is recorded as stopped.
pub run_context-CleanEnd :
    (type_string : ℕ → String) (out : Outside) (i : Injector) (now : ℕ) (ms : List Module) (r : Run)
    → ((j : ℕ) → out.entry j ≡ early)
    → run_context type_string out i now ms ≡ ended none r
    → (sorted : List (Module × Meta)) × (sort_modules ms ≡ ok sorted) × CleanEnd (length sorted) r
unfolding run_context run_sorted
run_context-CleanEnd type_string out i now ms r entered h = go (sort_modules ms) refl
  where
    go :
        (s : Result SortError (List (Module × Meta)))
        → sort_modules ms ≡ s
        → (sorted : List (Module × Meta)) × (sort_modules ms ≡ ok sorted)
          × CleanEnd (length sorted) r
    go (err e) eq = absurd (cc (rw (eq, run_context) at h))
    go (ok sorted) eq =
        let start : Run = record {
          infos = describe_modules type_string 0 sorted;
          clock = now;
          log = [];
        } in
        let modules = map (λ (s : Module × Meta). s.0) sorted in
        let fits : length modules ≤ length start.infos = omega (
          arith,
          length-describe_modules type_string 0 sorted,
          length-map (λ (s : Module × Meta). s.0) sorted,
        ) in
        (
          sorted,
          eq,
          subst (λ n. CleanEnd n r) (length-map (λ (s : Module × Meta). s.0) sorted)
              (boot_nil out i modules start r entered fits (init_modules 0 [] i modules start) refl
                (rw (eq, run_context) at h)),
        )
