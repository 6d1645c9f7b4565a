-- ===== src/Runtime/Stop/Bounded.antt =====
-- How long a shutdown takes, which error it returns, and what its silence means.
use lakta.Prelude.{
  ℕ, suc, ◌+◌, ◌≤◌, ◌<◌, ◌≡◌, refl, sym, ap, subst, nat-cases, append_assoc, append-nil, inl, inr,
  ◌∙◌, Option, none, some, List, [], ◌∷◌, ◌++◌, arith, length,
}
use lakta.Runtime.Module.{Module}
use lakta.Runtime.Info.{stopped, set_state}
use lakta.Runtime.Stop.Calls.{calls_down, log-shutdown_one}
use lakta.Runtime.Info.States.{
  state_at, state_at-set_state_self, state_at-set_state_ne, length-set_state,
}
use lakta.Runtime.Stop.{
  Error, shutdown_call, Run, Stop, shutdown_from, shutdown_one, shutdown, shutdown_context,
  default_shutdown_timeout,
}

-- A shutdown of the `n` modules from place `k` on that left nothing undone.
pub record AllStopped (k n : ℕ) (before after : Run) : Type 0 where
  pub calls : after.log ≡ before.log ++ calls_down k n
  pub long : length after.infos ≡ length before.infos
  pub states :
      (i : ℕ) → k ≤ i → i < k + n → i < length before.infos → state_at after.infos i ≡ some stopped

module _ (deadline : ℕ) where
  clock-shutdown_one :
      (k : ℕ) (m : Module) (r : Run) (e : Option Error)
      → r.clock ≤ deadline
      → (r.clock ≤ (shutdown_one deadline k m (r, e)).0.clock)
        × ((shutdown_one deadline k m (r, e)).0.clock ≤ deadline)
  unfolding shutdown_one
  clock-shutdown_one k m r e l = ground arith

  -- Whatever the modules do, one that never returns from `Shutdown` included, a shutdown that
  -- begins before the deadline is over at the deadline.
  pub clock-shutdown_from :
      (k : ℕ) (ms : List Module) (r : Run) (e : Option Error)
      → r.clock ≤ deadline
      → (r.clock ≤ (shutdown_from deadline k ms (r, e)).0.clock)
        × ((shutdown_from deadline k ms (r, e)).0.clock ≤ deadline)
  unfolding shutdown_from
  clock-shutdown_from k [] r e l = (omega arith, l)
  clock-shutdown_from k (m ∷ ms) r e l =
      let rest = shutdown_from deadline (suc k) ms (r, e) in
      let (low, high) = clock-shutdown_from (suc k) ms r e l in
      omega (arith, clock-shutdown_one k m rest.0 rest.1 high, low)

  -- What one round leaves when it reports no error.
  record Clean (k : ℕ) (r : Run) (e : Option Error) (s : Stop) : Type 0 where
    quiet : e ≡ none
    early : r.clock < deadline
    stops : s.0.infos ≡ set_state k stopped r.infos

  shutdown_one-Clean :
      (k : ℕ) (m : Module) (r : Run) (e : Option Error)
      → (shutdown_one deadline k m (r, e)).1 ≡ none
      → Clean k r e (shutdown_one deadline k m (r, e))
  unfolding shutdown_one
  shutdown_one-Clean k m r e h = record {
    quiet = ground arith;
    early = ground arith;
    stops = ground arith;
  }

  -- An error that is recorded stays the error that is returned.
  shutdown_one-keeps :
      (k : ℕ) (m : Module) (r : Run) (e : Error)
      → (shutdown_one deadline k m (r, some e)).1 ≡ some e
  unfolding shutdown_one
  shutdown_one-keeps k m r e = ground arith

  shutdown_from-keeps :
      (k : ℕ) (ms : List Module) (r : Run) (e : Error)
      → (shutdown_from deadline k ms (r, some e)).1 ≡ some e
  unfolding shutdown_from
  shutdown_from-keeps k [] r e = refl
  shutdown_from-keeps k (m ∷ ms) r e =
      let rest = shutdown_from deadline (suc k) ms (r, some e) in
      subst (λ o. (shutdown_one deadline k m (rest.0, o)).1 ≡ some e)
        (sym (shutdown_from-keeps (suc k) ms r e)) (shutdown_one-keeps k m rest.0 e)

  shutdown_from-append :
      (k : ℕ) (ms later : List Module) (s : Stop)
      → shutdown_from deadline k (ms ++ later) s
        ≡ shutdown_from deadline k ms (shutdown_from deadline (k + length ms) later s)
  unfolding shutdown_from
  shutdown_from-append k [] later s = ap (λ (i : ℕ). shutdown_from deadline i later s) (omega arith)
  shutdown_from-append k (m ∷ ms) later s = ap (shutdown_one deadline k m) (
      shutdown_from-append (suc k) ms later s
      ∙ ap (λ (i : ℕ). shutdown_from deadline (suc k) ms (shutdown_from deadline i later s))
          (omega arith))

  -- The error that shutting down the later modules yields is the error of the whole shutdown: what
  -- the earlier modules do, which are shut down after them, does not replace it.
  pub shutdown_from-first_error :
      (k : ℕ) (ms later : List Module) (r : Run) (e : Error)
      → (shutdown_from deadline (k + length ms) later (r, none)).1 ≡ some e
      → (shutdown_from deadline k (ms ++ later) (r, none)).1 ≡ some e
  shutdown_from-first_error k ms later r e h =
      let rest = shutdown_from deadline (k + length ms) later (r, none) in
      rw (shutdown_from-append k ms later (r, none)) (
        subst (λ o. (shutdown_from deadline k ms (rest.0, o)).1 ≡ some e) (sym h)
          (shutdown_from-keeps k ms rest.0 e))

  AllStopped-cons :
      (k n : ℕ) (m : Module) (before : Run) (s : Stop)
      → AllStopped (suc k) n before s.0
      → Clean k s.0 s.1 (shutdown_one deadline k m s)
      → AllStopped k (suc n) before (shutdown_one deadline k m s).0
  AllStopped-cons k n m before (r, e) a c = record {
    calls =
        log-shutdown_one deadline k m r e c.early
        ∙ cc (a.calls, append_assoc before.log (calls_down (suc k) n) (shutdown_call k ∷ []));
    long = ap length c.stops ∙ length-set_state k stopped r.infos ∙ a.long;
    states = λ i ki il lb. elim (nat-cases k i) [
      | inl same ↦
          ap (λ l. state_at l i) c.stops
          ∙ rw same (state_at-set_state_self i stopped r.infos (omega (arith, a.long)))
      | inr ne ↦
          ap (λ l. state_at l i) c.stops
          ∙ state_at-set_state_ne k i stopped r.infos ne
          ∙ a.states i (omega arith) (omega arith) lb
    ];
  }

  shutdown_from-AllStopped :
      (k : ℕ) (ms : List Module) (r : Run) (e : Option Error)
      → (shutdown_from deadline k ms (r, e)).1 ≡ none
      → (e ≡ none) × AllStopped k (length ms) r (shutdown_from deadline k ms (r, e)).0
  unfolding shutdown_from
  shutdown_from-AllStopped k [] r e h = (
    h,
    record {
      calls = sym (append-nil r.log);
      long = refl;
      states = λ i ki il lb. absurd (omega arith);
    },
  )
  shutdown_from-AllStopped k (m ∷ ms) r e h =
      let rest = shutdown_from deadline (suc k) ms (r, e) in
      let c = shutdown_one-Clean k m rest.0 rest.1 h in
      let (quiet, a) = shutdown_from-AllStopped (suc k) ms r e c.quiet in
      (quiet, AllStopped-cons k (length ms) m r rest a c)

  -- If `shutdown` returns no error then it called `Shutdown` of every module, the last first, and
  -- every module is recorded as stopped.
  pub shutdown-AllStopped :
      (ms : List Module) (r : Run)
      → (shutdown deadline ms r).1 ≡ none
      → AllStopped 0 (length ms) r (shutdown deadline ms r).0
  unfolding shutdown
  shutdown-AllStopped ms r h = (shutdown_from-AllStopped 0 ms r none h).1

-- A graceful shutdown takes at most the default timeout, also if some `Shutdown` never returns.
pub shutdown_bounded :
    (ms : List Module) (r : Run)
    → (shutdown (shutdown_context r.clock) ms r).0.clock ≤ r.clock + default_shutdown_timeout
unfolding shutdown shutdown_context
shutdown_bounded ms r =
    (clock-shutdown_from (r.clock + default_shutdown_timeout) 0 ms r none (omega arith)).1
