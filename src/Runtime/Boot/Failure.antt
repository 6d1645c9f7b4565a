-- ===== src/Runtime/Boot/Failure.antt =====
-- When a module fails to load its configuration or to initialize, or panics.
use lakta.Prelude.{
  ℕ, suc, ◌+◌, ◌≡◌, ◌⊎◌, inl, inr, refl, sym, ap, subst, String, Option, none, some, List, [], ◌∷◌,
  ◌++◌, append_assoc, append-nil, arith, length,
}
use lakta.Runtime.Module.{Module, Outcome, returned, panicked}
use lakta.Runtime.Info.{failed}
use lakta.Runtime.Stop.{
  Error, wrapped, Event, load_config, init_call, shutdown_call, start_call, start_async_call, Run,
  own, emit, mark, safe_call, teardown,
}
use lakta.Runtime.Boot.{
  Injector, Attempt, done, gave_up, crash, init_one, Boot, booted, failed_boot, crashed_boot,
  init_modules, provide, load_call, load, then_init, after_init,
}

-- Only `LoadConfig` and `Init` were called.
abbrev pub OnlyBoot : List Event → Type 0
OnlyBoot [] = Unit {0}
OnlyBoot (load_config i ∷ l) = OnlyBoot l
OnlyBoot (init_call i ∷ l) = OnlyBoot l
OnlyBoot (shutdown_call i ∷ l) = ⊥
OnlyBoot (start_call i ∷ l) = ⊥
OnlyBoot (start_async_call i ∷ l) = ⊥

OnlyBoot-append : (a b : List Event) → OnlyBoot a → OnlyBoot b → OnlyBoot (a ++ b)
OnlyBoot-append [] b ha hb = hb
OnlyBoot-append (load_config i ∷ a) b ha hb = OnlyBoot-append a b ha hb
OnlyBoot-append (init_call i ∷ a) b ha hb = OnlyBoot-append a b ha hb
OnlyBoot-append (shutdown_call i ∷ a) b ha hb = absurd ha
OnlyBoot-append (start_call i ∷ a) b ha hb = absurd ha
OnlyBoot-append (start_async_call i ∷ a) b ha hb = absurd ha

-- The log grew by calls of `LoadConfig` and `Init` only.
pub record Grew (before after : Run) : Type 0 where
  pub added : List Event
  pub log : after.log ≡ before.log ++ added
  pub boot : OnlyBoot added

Grew-trans : {a b c : Run} → Grew a b → Grew b c → Grew a c
Grew-trans {a} g h = record {
  added = g.added ++ h.added;
  log = cc (g.log, h.log, append_assoc a.log g.added h.added);
  boot = OnlyBoot-append g.added h.added g.boot h.boot;
}

-- The error is the module's own, with the message for what it comes from: its `LoadConfig`, or its
-- `Init`, also one that panics.
abbrev pub Wraps : Module → Injector → Error → Type 0
Wraps m i e =
    ((x : String) × (load_call i m.configurable ≡ some (returned (some x)))
      × (e ≡ wrapped "failed loading config for module" m.type_name (own x)))
    ⊎ ((x : Error) × (safe_call m.init ≡ some x)
        × (e ≡ wrapped "failed initializing module" m.type_name x))

-- What a round does, by its result: it goes on; or it records the failure, with an error that wraps
-- the module's own, and tears down the modules before; or a panic of `LoadConfig` passes through.
abbrev Round : ℕ → List Module → Injector → Module → Run → Attempt → Type 0
Round order before i m r (done r') = Grew r r'
Round order before i m r (gave_up e r') =
    (mid : Run) × Grew r mid × (r' ≡ teardown before (mark order failed mid)) × Wraps m i e
Round order before i m r (crash p r') = Grew r r' × (load_call i m.configurable ≡ some (panicked p))

Grew-refl : (r : Run) → Grew r r
Grew-refl r = record { added = []; log = sym (append-nil r.log); boot = tt }

module _ (order : ℕ) (before : List Module) (i : Injector) (m : Module) (r : Run) where
  load-Round :
      (c : Option Outcome)
      → load_call i m.configurable ≡ c
      → Round order before i m r (load order m.type_name before c r)
  unfolding load
  load-Round none e = Grew-refl r
  load-Round (some (returned none)) e = record {
    added = load_config order ∷ [];
    log = refl;
    boot = tt;
  }
  load-Round (some (returned (some x))) e = (
    emit (load_config order) r,
    record { added = load_config order ∷ []; log = refl; boot = tt },
    refl,
    inl (x, e, refl),
  )
  load-Round (some (panicked p)) e =
      (record { added = load_config order ∷ []; log = refl; boot = tt }, e)

  after_init-Round :
      (x : Option Error) (r₁ : Run)
      → safe_call m.init ≡ x
      → Grew r r₁
      → Round order before i m r (after_init order m before x r₁)
  unfolding after_init
  after_init-Round none r₁ o g = record { added = g.added; log = g.log; boot = g.boot }
  after_init-Round (some e) r₁ o g = (r₁, g, refl, inr (e, o, refl))

  then_init-Round :
      (a : Attempt)
      → Round order before i m r a
      → Round order before i m r (then_init order m before a)
  unfolding then_init
  then_init-Round (done r₁) g =
      after_init-Round (safe_call m.init) _ refl
        (Grew-trans g (record { added = init_call order ∷ []; log = refl; boot = tt }))
  then_init-Round (gave_up e r₁) g = g
  then_init-Round (crash p r₁) g = g

  init_one-Round : Round order before i m r (init_one order before i m r)
  unfolding init_one
  init_one-Round =
      then_init-Round (load order m.type_name before (load_call i m.configurable) r)
        (load-Round (load_call i m.configurable) refl)

-- The boot of `ms`, at places from `order` on, failed at one module with every earlier one
-- initialized: that module is marked as failed, and the earlier ones are torn down.
pub record AbortedAt (order : ℕ) (before ms : List Module) (r : Run) (e : Error) (r' : Run)
    : Type 0 where
  pub passed : List Module
  pub module_at : Module
  pub rest : List Module
  pub split : ms ≡ passed ++ module_at ∷ rest
  pub mid : Run
  pub only_boot : Grew r mid
  pub torn_down : r' ≡ teardown (before ++ passed) (mark (order + length passed) failed mid)
  -- what the modules before had provided
  pub injector : Injector
  pub wraps : Wraps module_at injector e

-- A panic of `LoadConfig` at one module went through, with nothing torn down.
pub record CrashedAt (before ms : List Module) (r : Run) (p : String) (r' : Run) : Type 0 where
  pub passed : List Module
  pub module_at : Module
  pub rest : List Module
  pub split : ms ≡ passed ++ module_at ∷ rest
  pub only_boot : Grew r r'
  pub injector : Injector
  pub panics : load_call injector module_at.configurable ≡ some (panicked p)

abbrev Ends : ℕ → List Module → List Module → Run → Boot → Type 0
Ends order before ms r (booted all i' r') = Grew r r'
Ends order before ms r (failed_boot e r') = AbortedAt order before ms r e r'
Ends order before ms r (crashed_boot p r') = CrashedAt before ms r p r'

module _ (order : ℕ) (before : List Module) (m : Module) (ms : List Module) (r r₁ : Run)
    (g : Grew r r₁) where
  Ends-later :
      (b : Boot) → Ends (suc order) (before ++ m ∷ []) ms r₁ b → Ends order before (m ∷ ms) r b
  Ends-later (booted all i' r') h = Grew-trans g h
  Ends-later (failed_boot e r') h = record {
    passed = m ∷ h.passed;
    module_at = h.module_at;
    rest = h.rest;
    split = ap (λ l. m ∷ l) h.split;
    mid = h.mid;
    only_boot = Grew-trans g h.only_boot;
    torn_down =
        let place : suc order + length h.passed ≡ order + suc (length h.passed) = omega arith in
        cc (h.torn_down, append_assoc before (m ∷ []) h.passed);
    injector = h.injector;
    wraps = h.wraps;
  }
  Ends-later (crashed_boot p r') h = record {
    passed = m ∷ h.passed;
    module_at = h.module_at;
    rest = h.rest;
    split = ap (λ l. m ∷ l) h.split;
    only_boot = Grew-trans g h.only_boot;
    injector = h.injector;
    panics = h.panics;
  }

module _ (order : ℕ) (before : List Module) (i : Injector) (m : Module) (ms : List Module)
    (r : Run) where
  Ends-cons :
      ((r₁ : Run)
        → Ends
            (suc order)
            (before ++ m ∷ [])
            ms
            r₁
            (init_modules (suc order) (before ++ m ∷ []) (provide m i) ms r₁))
      → (a : Attempt) → init_one order before i m r ≡ a
      → Round order before i m r a
      → Ends order before (m ∷ ms) r (init_modules order before i (m ∷ ms) r)
  unfolding init_modules
  Ends-cons ih (done r₁) e g = rw (e, init_modules) (Ends-later order before m ms r r₁ g _ (ih r₁))
  Ends-cons ih (gave_up e' r₁) e (mid, g, torn, wraps) =
      rw (e, init_modules)
        (record {
          passed = [];
          module_at = m;
          rest = ms;
          split = refl;
          mid = mid;
          only_boot = g;
          torn_down = let place : order ≡ order + 0 = omega arith in cc (torn, append-nil before);
          injector = i;
          wraps = wraps;
        })
  Ends-cons ih (crash p r₁) e (g, panics) =
      rw (e, init_modules)
        (record {
          passed = [];
          module_at = m;
          rest = ms;
          split = refl;
          only_boot = g;
          injector = i;
          panics = panics;
        })

init_modules-Ends :
    (order : ℕ) (before : List Module) (i : Injector) (ms : List Module) (r : Run)
    → Ends order before ms r (init_modules order before i ms r)
unfolding init_modules
init_modules-Ends order before i [] r = Grew-refl r
init_modules-Ends order before i (m ∷ ms) r =
    Ends-cons order before i m ms r
      (λ r₁. init_modules-Ends (suc order) (before ++ m ∷ []) (provide m i) ms r₁)
      (init_one order before i m r) refl (init_one-Round order before i m r)

-- If `initModules` returns an error then it comes from one module, and wraps what its `LoadConfig`
-- returned or what its `Init` returned or panicked with; only `LoadConfig` and `Init` were called
-- before; that module is marked as failed, and then exactly the modules initialized before it are
-- torn down.
pub init_modules-AbortedAt :
    (i : Injector) (ms : List Module) (r : Run) (e : Error) (r' : Run)
    → init_modules 0 [] i ms r ≡ failed_boot e r'
    → AbortedAt 0 [] ms r e r'
init_modules-AbortedAt i ms r e r' h = subst (Ends 0 [] ms r) h (init_modules-Ends 0 [] i ms r)

-- If a panic leaves `initModules` then it is the panic of a `LoadConfig`, never of an `Init`; and
-- then no module is shut down, those initialized before included.
pub init_modules-CrashedAt :
    (i : Injector) (ms : List Module) (r : Run) (p : String) (r' : Run)
    → init_modules 0 [] i ms r ≡ crashed_boot p r'
    → CrashedAt [] ms r p r'
init_modules-CrashedAt i ms r p r' h = subst (Ends 0 [] ms r) h (init_modules-Ends 0 [] i ms r)
