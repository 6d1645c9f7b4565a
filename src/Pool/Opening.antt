-- ===== src/Pool/Opening.antt =====
-- As long as the pool is open, none of its workers has left the outer loop of `work`.
use mathlib.Core.Option.{some-injective}
use lakta.Prelude.{
  ℕ, zero, suc, ◌≡◌, ◌<◌, inl, inr, refl, sym, ap, ◌∙◌, Bool, true, false, ◌&&◌, ◌||◌, Option, some,
  List, [], ◌∷◌, length, length-set, get_elem?, set, arith, Bool-cases,
}
use lakta.Pool.{
  Worker, idle, draining, exited, running, drain_running, Pool, receiving, idle_workers, new,
}
use lakta.Pool.Moves.{Preserves}

abbrev pub is_exited : Worker → Bool
is_exited exited = true
is_exited w = false

-- Still in the outer loop of `work`.
abbrev pub is_open : Worker → Bool
is_open idle = true
is_open (running t) = true
is_open w = false

abbrev pub any_exited : List Worker → Bool
any_exited [] = false
any_exited (w ∷ ws) = is_exited w || any_exited ws

abbrev pub all_open : List Worker → Bool
all_open [] = true
all_open (w ∷ ws) = is_open w && all_open ws

all_open-get_elem? :
    (ws : List Worker) (j : ℕ) (w : Worker)
    → all_open ws ≡ true
    → get_elem? ws j ≡ some w
    → is_open w ≡ true
all_open-get_elem? [] j w o h = absurd (cc h)
all_open-get_elem? (x ∷ ws) zero w o h = ap is_open (sym (some-injective x w h)) ∙ ground arith
all_open-get_elem? (x ∷ ws) (suc j) w o h = all_open-get_elem? ws j w (ground arith) h

all_open-set :
    (ws : List Worker) (j : ℕ) (w : Worker)
    → all_open ws ≡ true
    → is_open w ≡ true
    → all_open (set ws j w) ≡ true
all_open-set [] j w o h = refl
all_open-set (x ∷ ws) zero w o h = ground arith
all_open-set (x ∷ ws) (suc j) w o h = ground (arith, all_open-set ws j w (ground arith) h)

pub any_exited-set :
    (ws : List Worker) (j : ℕ) (w : Worker)
    → is_exited w ≡ false
    → any_exited (set ws j w) ≡ true
    → any_exited ws ≡ true
any_exited-set [] j w n h = h
any_exited-set (x ∷ ws) zero w n h = ground arith
any_exited-set (x ∷ ws) (suc j) w n h = elim (Bool-cases (is_exited x)) [
  | inl e ↦ rw e refl
  | inr e ↦ rw e (any_exited-set ws j w n (rw e at h))
]

pub receiving-open :
    (w : Worker) (busy : ℕ → Worker) (t : ℕ)
    → receiving w ≡ some busy
    → (is_exited (busy t) ≡ false) × (is_open w ≡ true → is_open (busy t) ≡ true)
unfolding receiving
receiving-open idle busy t h =
    let same = ap (λ f. f t) (some-injective _ _ h) in
    (ap is_exited (sym same), λ o. ap is_open (sym same))
receiving-open draining busy t h =
    let same = ap (λ f. f t) (some-injective _ _ h) in (ap is_exited (sym same), λ o. absurd (cc o))
receiving-open exited busy t h = absurd (cc h)
receiving-open (running v) busy t h = absurd (cc h)
receiving-open (drain_running v) busy t h = absurd (cc h)

-- As long as the pool is open, no worker has left its outer loop.
pub record IsOpening (p : Pool) : Type 0 where
  pub no_stop : p.closed ≡ false → p.stop ≡ false
  pub at_work : p.closed ≡ false → all_open p.workers ≡ true
  pub some_worker : 0 < length p.workers

pub opening : Preserves IsOpening
opening = record {
  submitted =
      λ t p o c. record { no_stop = c.no_stop; at_work = c.at_work; some_worker = c.some_worker };
  turned_away =
      λ t p c. record { no_stop = c.no_stop; at_work = c.at_work; some_worker = c.some_worker };
  refused_at = λ i t p at c. record {
    no_stop = c.no_stop;
    at_work = c.at_work;
    some_worker = c.some_worker;
  };
  enqueued = λ i t p at room c. record {
    no_stop = c.no_stop;
    at_work = c.at_work;
    some_worker = c.some_worker;
  };
  handed = λ i j t w busy p at worker free none_queued c. record {
    no_stop = c.no_stop;
    at_work = λ cl.
        all_open-set p.workers j (busy t) (c.at_work cl) (
          (receiving-open w busy t free).1
            (all_open-get_elem? p.workers j w (c.at_work cl) worker));
    some_worker = omega (arith, length-set p.workers j (busy t), c.some_worker);
  };
  taken = λ j t q w busy p worker free queued c. record {
    no_stop = c.no_stop;
    at_work = λ cl.
        all_open-set p.workers j (busy t) (c.at_work cl) (
          (receiving-open w busy t free).1
            (all_open-get_elem? p.workers j w (c.at_work cl) worker));
    some_worker = omega (arith, length-set p.workers j (busy t), c.some_worker);
  };
  finished = λ j t p at c. record {
    no_stop = c.no_stop;
    at_work = λ cl. all_open-set p.workers j idle (c.at_work cl) refl;
    some_worker = omega (arith, length-set p.workers j idle, c.some_worker);
  };
  drain_finished = λ j t p at c. record {
    no_stop = c.no_stop;
    at_work =
        λ cl. absurd (cc (all_open-get_elem? p.workers j (drain_running t) (c.at_work cl) at));
    some_worker = omega (arith, length-set p.workers j draining, c.some_worker);
  };
  saw_stop = λ j p at s c. record {
    no_stop = c.no_stop;
    at_work = λ cl. absurd (cc (sym s ∙ c.no_stop cl));
    some_worker = omega (arith, length-set p.workers j draining, c.some_worker);
  };
  left = λ j p at q c. record {
    no_stop = c.no_stop;
    at_work = λ cl. absurd (cc (all_open-get_elem? p.workers j draining (c.at_work cl) at));
    some_worker = omega (arith, length-set p.workers j exited, c.some_worker);
  };
  marked = λ p c. record {
    no_stop = λ cl. absurd (cc cl);
    at_work = λ cl. absurd (cc cl);
    some_worker = c.some_worker;
  };
  stop_closed = λ p cl c. record {
    no_stop = λ op. absurd (cc (sym cl ∙ op));
    at_work = λ op. absurd (cc (sym cl ∙ op));
    some_worker = c.some_worker;
  };
}

pub none_exited : (ws : List Worker) → all_open ws ≡ true → any_exited ws ≡ false
none_exited [] h = refl
none_exited (idle ∷ ws) h = none_exited ws h
none_exited (running t ∷ ws) h = none_exited ws h
none_exited (draining ∷ ws) h = absurd (cc h)
none_exited (exited ∷ ws) h = absurd (cc h)
none_exited (drain_running t ∷ ws) h = absurd (cc h)

idle_open : (n : ℕ) → all_open (idle_workers n) ≡ true
idle_open zero = refl
idle_open (suc n) = idle_open n

idle_count : (n : ℕ) → length (idle_workers n) ≡ n
idle_count zero = refl
idle_count (suc n) = ap suc (idle_count n)

pub new-IsOpening : (n cpu : ℕ) (size : Option ℕ) → 0 < cpu → IsOpening (new n cpu size)
unfolding new
new-IsOpening zero cpu size pos = record {
  no_stop = λ c. refl;
  at_work = λ c. idle_open cpu;
  some_worker = omega (arith, idle_count cpu);
}
new-IsOpening (suc n) cpu size pos = record {
  no_stop = λ c. refl;
  at_work = λ c. idle_open n;
  some_worker = omega (arith, idle_count n);
}
