-- ===== src/Runtime/Boot/Success.antt =====
-- When every module initializes.
use lakta.Prelude.{
  ℕ, suc, ◌+◌, ◌≤◌, ◌<◌, ◌≡◌, ◌≢◌, refl, sym, subst, inl, inr, ◌∙◌, some, List, [], ◌∷◌, ◌++◌,
  append_assoc, append-nil, arith, nat-cases, length,
}
use lakta.Runtime.Module.{Module}
use lakta.Runtime.Info.{initialized, set_state, set_init_duration, RuntimeInfo}
use lakta.Runtime.Info.States.{
  state_at, state_at-set_state_self, state_at-set_state_ne, length-set_state,
  state_at-set_init_duration, length-set_init_duration,
}
use lakta.Runtime.Stop.{Run}
use lakta.Runtime.Boot.{
  Injector, Attempt, done, gave_up, crash, init_one, booted, init_modules, provide,
}

-- A round that succeeds marks its module and no other.
record Marked (order : ℕ) (before after : RuntimeInfo) : Type 0 where
  long : length after ≡ length before
  self : order < length before → state_at after order ≡ some initialized
  others : (j : ℕ) → order ≢ j → state_at after j ≡ state_at before j

set-Marked :
    (order d : ℕ) (infos : RuntimeInfo)
    → Marked order infos (set_state order initialized (set_init_duration order d infos))
set-Marked order d infos = record {
  long =
      length-set_state order initialized (set_init_duration order d infos)
      ∙ length-set_init_duration order d infos;
  self = λ l.
      state_at-set_state_self order initialized (set_init_duration order d infos)
        (omega (arith, length-set_init_duration order d infos));
  others = λ j ne.
      state_at-set_state_ne order j initialized (set_init_duration order d infos) ne
      ∙ state_at-set_init_duration order d infos j;
}

init_one_infos :
    (order : ℕ) (before : List Module) (i : Injector) (m : Module) (r : Run) {r' : Run}
    → init_one order before i m r ≡ done r'
    → r'.infos ≡ set_state order initialized (set_init_duration order m.init_time r.infos)
unfolding init_one
init_one_infos order before i m r h = ground arith

-- The modules from place `order` on are initialized, and the states before it are as they were.
pub record AllInitialized (order n : ℕ) (before after : RuntimeInfo) : Type 0 where
  pub long : length after ≡ length before
  pub states :
      (j : ℕ) → order ≤ j → j < order + n → j < length before → state_at after j ≡ some initialized
  pub earlier : (j : ℕ) → j < order → state_at after j ≡ state_at before j

AllInitialized-cons :
    (order n : ℕ) (a b c : RuntimeInfo)
    → Marked order a b
    → AllInitialized (suc order) n b c
    → AllInitialized order (suc n) a c
AllInitialized-cons order n a b c m rest = record {
  long = rest.long ∙ m.long;
  states = λ j oj jl lb. elim (nat-cases order j) [
    | inl same ↦
        let here : state_at b order ≡ some initialized = m.self (omega arith) in
        rest.earlier j (omega arith) ∙ subst (λ k. state_at b k ≡ some initialized) same here
    | inr ne ↦ rest.states j (omega arith) (omega arith) (omega (arith, m.long))
  ];
  earlier = λ j l. rest.earlier j (omega arith) ∙ m.others j (λ e. omega arith);
}

abbrev Succeeds : ℕ → List Module → List Module → Run → List Module → Run → Type 0
Succeeds order before ms r all r' =
    (all ≡ before ++ ms) × AllInitialized order (length ms) r.infos r'.infos

module _ (order : ℕ) (before : List Module) (i : Injector) (m : Module) (ms : List Module) (r : Run)
    (all : List Module) (i' : Injector) (r' : Run) where
  init_first :
      ((r₁ : Run)
        → init_modules (suc order) (before ++ m ∷ []) (provide m i) ms r₁ ≡ booted all i' r'
        → Succeeds (suc order) (before ++ m ∷ []) ms r₁ all r')
      → (a : Attempt) → init_one order before i m r ≡ a
      → init_modules order before i (m ∷ ms) r ≡ booted all i' r'
      → Succeeds order before (m ∷ ms) r all r'
  unfolding init_modules
  init_first ih (done r₁) e h =
      let (same, states) = ih r₁ (rw (e, init_modules) at h) in
      (
        same ∙ append_assoc before (m ∷ []) ms,
        AllInitialized-cons order (length ms) r.infos r₁.infos r'.infos
            (subst (Marked order r.infos) (sym (init_one_infos order before i m r e))
              (set-Marked order m.init_time r.infos))
            states,
      )
  init_first ih (gave_up e' r₁) e h = absurd (cc (rw (e, init_modules) at h))
  init_first ih (crash p r₁) e h = absurd (cc (rw (e, init_modules) at h))

init_modules-Succeeds :
    (order : ℕ) (before : List Module) (i : Injector) (ms : List Module) (r : Run)
    (all : List Module) (i' : Injector) (r' : Run)
    → init_modules order before i ms r ≡ booted all i' r'
    → Succeeds order before ms r all r'
unfolding init_modules
init_modules-Succeeds order before i [] r all i' r' h = (
  cc (append-nil before),
  record { long = cc; states = λ j oj jl lb. absurd (omega arith); earlier = λ j l. cc },
)
init_modules-Succeeds order before i (m ∷ ms) r all i' r' h =
    init_first order before i m ms r all i' r'
      (λ r₁ h₁.
        init_modules-Succeeds (suc order) (before ++ m ∷ []) (provide m i) ms r₁ all i' r' h₁)
      (init_one order before i m r) refl h

-- If `initModules` succeeds then what it returns as initialized is all modules, in order, and each
-- is recorded as initialized.
pub init_modules-booted :
    (i : Injector) (ms : List Module) (r : Run) (all : List Module) (i' : Injector) (r' : Run)
    → init_modules 0 [] i ms r ≡ booted all i' r'
    → (all ≡ ms) × AllInitialized 0 (length ms) r.infos r'.infos
init_modules-booted i ms r all i' r' h = init_modules-Succeeds 0 [] i ms r all i' r' h
