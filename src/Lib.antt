-- ===== src/Lib.antt =====
-- Verification of the lakta framework: modules with a life cycle, wired by type, configured by
-- files, environment and flags, and reloaded while they run.
--
-- The parts, and how they interact. The runtime (pkg/lakta) is given a list of modules. It sorts
-- them by the types that they provide and require, loads the configuration of each and initializes
-- it in that order, starts the asynchronous and then the synchronous ones, waits for an end, and
-- shuts all of them down in reverse. The configuration module (pkg/config) is one of these
-- modules: it finds and loads the files, and on a change of one it loads everything again, asks
-- its validators, and calls back the modules that registered for it. Those callbacks rebuild the
-- token verifiers (pkg/auth/verifier) and set the levels of the log filter (pkg/logging/slog). The
-- actuator (pkg/debug/actuator) shows the loaded configuration, redacted. The worker pool
-- (pkg/workers/pool) executes tasks beside all that, and feature flags (pkg/features/flags) are
-- read from a snapshot. Three more modules keep what the configuration names: the scheduler
-- (pkg/workers/scheduler) its jobs, the caches (pkg/cache) what a backend builds when it is first
-- asked for a name, and the policies (pkg/resilience/policy) their executors; the first two follow
-- a reload. The bus (pkg/events/bus) hands published events to subscribers. Apart from a run,
-- pkg/reflectcfg documents the configuration by the environment variables that pkg/config reads.
--
-- Runtime/, of pkg/lakta:
--   Runtime/Module, Runtime/Samples: `Module`, `SyncModule`, `AsyncModule`, `Provider`,
--     `Dependent` of module.go as one record: what each method returns, panics with or takes in
--     time.
--   Runtime/Sort: `sortModules` and `Validate` of runtime.go; below it the proofs, by what they
--     are about: Kahn (the queue loop), Owner, Build and Links (the graph), Order, Topology,
--     Stable, Places.
--   Runtime/Info: introspect.go, and `describeModules`.
--   Runtime/Stop: `safeCall`, `shutdownModule`, `teardown`, `shutdown`.
--   Runtime/Boot: `initModules`, and `ProvideValue` of injector.go.
--   Runtime/Context: `RunContext`.
-- Config/, of pkg/config: Config/Files (loader.go), Config/Keys (`envKeyTransform`, `parseFlag`,
--   `ModulePath`), Config/Init (`Init` of module.go), Config/Reload (`reload`, `OnReload`,
--   `OnValidate` of module.go), Config/Watch (watcher.go).
-- Redact/, of pkg/debug/actuator/redact.go: `NewRedactor`, `Redact`, `walk`.
-- Verifier/, of pkg/auth/verifier: Verifier and Verifier/Claims (registry.go, principal.go),
--   Verifier/Build (`buildState` of module.go, config.go), Verifier/Reload (`Init`, `OnReload`,
--   `Shutdown`).
-- Pool/, of pkg/workers/pool/pool.go: Pool is the machine of all its goroutines, Pool/Moves the
--   induction over its runs.
-- LevelFilter/, of pkg/logging/slog/level_filter.go.
-- Flags/, of pkg/features/flags: Flags (flags.go: `parseSnapshot`, the reads, `bucket`), Flags/Reload
--   (`Init` and `OnReload` of module.go).
-- Scheduler/, of pkg/workers/scheduler: Scheduler (scheduler.go: `Register`, `removeLocked`,
--   `remove`), Scheduler/Spec (config.go and `specChanged`),
--   Scheduler/Reload (`Init` and `OnReload` of module.go); the proofs are in Scheduler/Live and
--   Scheduler/Changes, of single calls, and below Scheduler/Reload.
-- Cache/, of pkg/cache: Cache (`Register`, `Named` and the guard of types, registry.go), Cache/Typed
--   (`typedCache`), Cache/Memory (the backend of memory/module.go and config.go: `Init`, `OnReload`,
--   `Shutdown`, `buildOtter`); below it the proofs, over every sequence of calls.
-- Policy/, of pkg/resilience/policy: Policy (config.go), Policy/Registry (`Init` of module.go, and
--   registry.go); Policy/Valid and Policy/Known are proofs.
-- Bus/, of pkg/events/bus/bus.go: Bus is the machine of its publishers, subscriptions and `Close`.
-- Reflectcfg/, of pkg/reflectcfg/reflectcfg.go: Reflectcfg (`processConfig`, `structFields`,
--   `envVarName`), Reflectcfg/Settable (the keys that it speaks of), Reflectcfg/Variables.
-- Prelude/ holds what they share: Boolean tests, `==` for keys, lists and counting over native
--   numbers, maps, results with errors. A Tests module runs its part on small inputs.
--
-- Choices. A `reflect.Type` is a number, and slices that are indexed in the graph are functions of
-- the index. Kahn's loop runs on fuel, one round for each module, since a module enters the queue
-- at most once; an in-degree is a natural number, since each of its decrements is for an edge that
-- it counts. A method of a module is an outcome: what it returns, or a panic, and how long it
-- takes; so the life cycle is a function. The clock is in nanoseconds; where a `select` has two
-- ready cases, either may be taken. The async goroutines of a run are taken in the order in which
-- they are started, since they are waited for; a sync goroutine is entered before the run wakes to
-- its end, between two steps of the shutdown, or not at all. A write lock makes what it guards one
-- step. The pool is a machine of events, one for each case of each `select`, and a theorem about
-- it speaks of every sequence of them: there is no scheduler to trust. Texts are bytes of ASCII
-- where the code looks into them. A map is a list of its entries.
--
-- What is not in the repository is a parameter: koanf and its providers, the file system and its
-- watcher, the jwx library, discovery over the network, what a decoder writes into a configuration
-- that a copy shares parts with, the operator's regular expressions; gocron, of which it matters
-- whether a job is taken and removed; otter, of which it matters whether it takes the options of a
-- cache; and the order of floating-point numbers. The calls that failsafe-go is given are kept as
-- values. A theorem that relies on one of these names it among its hypotheses.
--
-- Not modelled: of the parts above, provenance, binding and TLS of the configuration; the
-- actuator's handlers; futures of the pool; what runs around a scheduled handler; the reads of
-- flags as floating-point numbers and durations; eviction and loading in a cache; the texts in the
-- documentation of a configuration. Then the adapters to fiber, gRPC, connect, pgx, temporal and
-- OpenTelemetry, which are calls of those libraries; the tools of cmd, the examples and generated
-- code; logging, and the text of error messages.
pub mod Bus
pub mod Cache
pub mod Config
pub mod Flags
pub mod LevelFilter
pub mod Policy
pub mod Pool
pub mod Prelude
pub mod Redact
pub mod Reflectcfg
pub mod Runtime
pub mod Scheduler
pub mod Verifier
