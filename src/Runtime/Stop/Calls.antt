-- ===== src/Runtime/Stop/Calls.antt =====
-- In which order modules are shut down, and which are skipped.
use lakta.Prelude.{
  ℕ, zero, suc, ◌+◌, ◌-◌, ◌≤◌, ◌<◌, ◌≡◌, refl, sym, ap, inl, inr, ◌∙◌, Bool-cases, Option, none,
  List, [], ◌∷◌, ◌++◌, append_assoc, append-nil, arith, leb, length,
}
use lakta.Runtime.Module.{Module}
use lakta.Runtime.Stop.{
  Error, Event, shutdown_call, Run, Stop, teardown_from, teardown_one, shutdown_from, shutdown_one,
  shutdown, teardown, shutdown_context,
}

-- `Shutdown` of `n` modules from place `k` on, the last one first.
abbrev pub calls_down : ℕ → ℕ → List Event
calls_down k zero = []
calls_down k (suc n) = calls_down (suc k) n ++ shutdown_call k ∷ []

-- The modules from the last down to `cut` are called; those before it are skipped, and only once
-- the deadline has passed.
pub record Called (deadline k n : ℕ) (before after : Run) : Type 0 where
  pub cut : ℕ
  pub cut_le : cut ≤ n
  pub calls : after.log ≡ before.log ++ calls_down (k + cut) (n - cut)
  pub late : 0 < cut → deadline ≤ after.clock

module _ (deadline : ℕ) where
  pub log-shutdown_one :
      (k : ℕ) (m : Module) (r : Run) (e : Option Error)
      → r.clock < deadline
      → (shutdown_one deadline k m (r, e)).0.log ≡ r.log ++ shutdown_call k ∷ []
  unfolding shutdown_one
  log-shutdown_one k m r e l = ground arith

  shutdown_one_late :
      (k : ℕ) (m : Module) (r : Run) (e : Option Error)
      → deadline ≤ r.clock
      → (shutdown_one deadline k m (r, e)).0 ≡ r
  unfolding shutdown_one
  shutdown_one_late k m r e l = ground arith

  Called-cons :
      (k n : ℕ) (m : Module) (before : Run) (s : Stop)
      → Called deadline (suc k) n before s.0
      → Called deadline k (suc n) before (shutdown_one deadline k m s).0
  Called-cons k n m before (r, e) c = elim (Bool-cases (leb deadline r.clock)) [
    | inl late ↦
        let still : (shutdown_one deadline k m (r, e)).0 ≡ r =
          shutdown_one_late k m r e (ground arith) in
        record {
          cut = suc c.cut;
          cut_le = omega (arith, c.cut_le);
          calls =
              let from : suc k + c.cut ≡ k + suc c.cut = omega arith in
              let many : n - c.cut ≡ suc n - suc c.cut = omega arith in
              cc (ap (λ (x : Run). x.log) still, c.calls);
          late = λ p. rw still (ground arith);
        }
    | inr early ↦
        let l : r.clock < deadline = ground arith in
        record {
          cut = 0;
          cut_le = omega arith;
          calls =
              let none_cut : c.cut ≡ 0 = ground (arith, c.late) in
              let from : suc k + c.cut ≡ suc k = omega arith in
              let many : n - c.cut ≡ n = omega arith in
              let here : k + 0 ≡ k = omega arith in
              let all : suc n - 0 ≡ suc n = omega arith in
              log-shutdown_one k m r e l
              ∙ cc (c.calls, append_assoc before.log (calls_down (suc k) n) (shutdown_call k ∷ []));
          late = λ p. absurd (omega arith);
        }
  ]

  shutdown_from-Called :
      (k : ℕ) (ms : List Module) (r : Run) (e : Option Error)
      → Called deadline k (length ms) r (shutdown_from deadline k ms (r, e)).0
  unfolding shutdown_from
  shutdown_from-Called k [] r e = record {
    cut = 0;
    cut_le = omega arith;
    calls = sym (append-nil r.log);
    late = λ p. absurd (omega arith);
  }
  shutdown_from-Called k (m ∷ ms) r e =
      Called-cons k (length ms) m r (shutdown_from deadline (suc k) ms (r, e))
        (shutdown_from-Called (suc k) ms r e)

  teardown_one-eq-shutdown_one :
      (k : ℕ) (m : Module) (r : Run) (e : Option Error)
      → teardown_one deadline k m r ≡ (shutdown_one deadline k m (r, e)).0
  unfolding teardown_one shutdown_one
  teardown_one-eq-shutdown_one k m r e = ground arith

  -- `teardown` does to the modules what `shutdown` does; it only drops the error.
  pub teardown_from-eq-shutdown_from :
      (k : ℕ) (ms : List Module) (r : Run) (e : Option Error)
      → teardown_from deadline k ms r ≡ (shutdown_from deadline k ms (r, e)).0
  unfolding teardown_from shutdown_from
  teardown_from-eq-shutdown_from k [] r e = refl
  teardown_from-eq-shutdown_from k (m ∷ ms) r e =
      let rest = shutdown_from deadline (suc k) ms (r, e) in
      ap (teardown_one deadline k m) (teardown_from-eq-shutdown_from (suc k) ms r e)
      ∙ teardown_one-eq-shutdown_one k m rest.0 rest.1

  -- Modules are shut down in reverse order of initialization, each at most once. If any is skipped
  -- then it is a prefix of them that is, and the deadline has passed by then.
  pub shutdown-Called :
      (ms : List Module) (r : Run) → Called deadline 0 (length ms) r (shutdown deadline ms r).0
  unfolding shutdown
  shutdown-Called ms r = shutdown_from-Called 0 ms r none

-- `teardown`, under a deadline of its own, leaves what a `shutdown` under that deadline leaves.
pub teardown-eq-shutdown :
    (ms : List Module) (r : Run) → teardown ms r ≡ (shutdown (shutdown_context r.clock) ms r).0
unfolding teardown shutdown
teardown-eq-shutdown ms r = teardown_from-eq-shutdown_from (shutdown_context r.clock) 0 ms r none
