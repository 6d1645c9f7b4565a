-- ===== src/Runtime/Info/States.antt =====
-- The state of one module in the registry, and what a setter leaves alone.
use lakta.Prelude.{
  ℕ, zero, suc, ◌<◌, ◌≡◌, ◌≢◌, refl, ap, Option, none, some, [], ◌∷◌, arith, length,
}
use lakta.Runtime.Info.{ModuleState, RuntimeInfo, set_state, set_init_duration}

-- The state of the module at a place, if there is one.
abbrev pub state_at : RuntimeInfo → ℕ → Option ModuleState
state_at [] i = none
state_at (x ∷ xs) zero = some x.state
state_at (x ∷ xs) (suc i) = state_at xs i

pub state_at-set_state_self :
    (i : ℕ) (s : ModuleState) (infos : RuntimeInfo)
    → i < length infos
    → state_at (set_state i s infos) i ≡ some s
unfolding set_state
state_at-set_state_self i s [] l = absurd (omega arith)
state_at-set_state_self zero s (x ∷ xs) l = refl
state_at-set_state_self (suc i) s (x ∷ xs) l = state_at-set_state_self i s xs (omega arith)

pub state_at-set_state_ne :
    (i j : ℕ) (s : ModuleState) (infos : RuntimeInfo)
    → i ≢ j
    → state_at (set_state i s infos) j ≡ state_at infos j
unfolding set_state
state_at-set_state_ne i j s [] ne = refl
state_at-set_state_ne zero zero s (x ∷ xs) ne = absurd (ne refl)
state_at-set_state_ne zero (suc j) s (x ∷ xs) ne = refl
state_at-set_state_ne (suc i) zero s (x ∷ xs) ne = refl
state_at-set_state_ne (suc i) (suc j) s (x ∷ xs) ne =
    state_at-set_state_ne i j s xs (λ e. ne (ap suc e))

pub length-set_state :
    (i : ℕ) (s : ModuleState) (infos : RuntimeInfo) → length (set_state i s infos) ≡ length infos
unfolding set_state
length-set_state i s [] = refl
length-set_state zero s (x ∷ xs) = refl
length-set_state (suc i) s (x ∷ xs) = ap suc (length-set_state i s xs)

pub state_at-set_init_duration :
    (i d : ℕ) (infos : RuntimeInfo) (j : ℕ)
    → state_at (set_init_duration i d infos) j ≡ state_at infos j
unfolding set_init_duration
state_at-set_init_duration i d [] j = refl
state_at-set_init_duration zero d (x ∷ xs) zero = refl
state_at-set_init_duration zero d (x ∷ xs) (suc j) = refl
state_at-set_init_duration (suc i) d (x ∷ xs) zero = refl
state_at-set_init_duration (suc i) d (x ∷ xs) (suc j) = state_at-set_init_duration i d xs j

pub length-set_init_duration :
    (i d : ℕ) (infos : RuntimeInfo) → length (set_init_duration i d infos) ≡ length infos
unfolding set_init_duration
length-set_init_duration i d [] = refl
length-set_init_duration zero d (x ∷ xs) = refl
length-set_init_duration (suc i) d (x ∷ xs) = ap suc (length-set_init_duration i d xs)
