-- ===== src/Runtime/Sort/Links.antt =====
-- `link_modules` over the whole list: the edges are exactly the dependencies on other modules, and
-- it stops at the first required type that no module provides.
use native.Mathlib.Nat.{add-zero}
use lakta.Prelude.{
  ℕ, zero, suc, ◌+◌, ◌≤◌, ◌<◌, ◌≡◌, ◌≢◌, refl, sym, subst, ◌⊎◌, inl, inr, Option-cases, true, none,
  some, String, List, [], ◌∷◌, arith, nat_keyed, length, get_elem?, contains, count, Result, ok,
  err, ◌>>=◌, >>=-eq-ok,
}
use lakta.Runtime.Module.{Module, required_or_nil, optional_or_nil}
use lakta.Runtime.Sort.{
  Owners, Graph, SortError, unmet, link, link_required, link_optional, link_modules,
}
use lakta.Runtime.Sort.Build.{IsBuilt, New, Linked, link_optional-Linked, link_required-Linked}

abbrev pub Requires : Module → ℕ → Type 0
Requires m t = contains (required_or_nil m.dependencies) t ≡ true

abbrev pub Declares : Module → ℕ → Type 0
Declares m t = Requires m t ⊎ (contains (optional_or_nil m.dependencies) t ≡ true)

-- Module `j`, counted from `k`, declares a dependency on a type that module `a` owns.
pub record DependsOn (owner : Owners) (k : ℕ) (ms : List Module) (j a : ℕ) : Type 0 where
  pub place : ℕ
  pub counted : j ≡ k + place
  pub module_at : Module
  pub at : get_elem? ms place ≡ some module_at
  pub other : a ≢ j
  pub type : ℕ
  pub declared : Declares module_at type
  pub owned : owner type ≡ some a

DependsOn-cons :
    {owner : Owners} {k : ℕ} (m : Module) {ms : List Module} {j a : ℕ}
    → DependsOn owner (suc k) ms j a
    → DependsOn owner k (m ∷ ms) j a
DependsOn-cons m d = record {
  place = suc d.place;
  counted = omega (arith, d.counted);
  module_at = d.module_at;
  at = d.at;
  other = d.other;
  type = d.type;
  declared = d.declared;
  owned = d.owned;
}

DependsOn-head :
    {owner : Owners} {k : ℕ} {m : Module} (ms : List Module) {j a : ℕ} {ts : List ℕ}
    → ((t : ℕ) → contains ts t ≡ true → Declares m t)
    → New owner k ts a j
    → DependsOn owner k (m ∷ ms) j a
DependsOn-head {m} ms into w = record {
  place = 0;
  counted = omega (arith, w.same);
  module_at = m;
  at = refl;
  other = λ e. w.other (ground (arith, w.same));
  type = w.type;
  declared = into w.type w.declared;
  owned = w.owned;
}

module _ (n : ℕ) (owner : Owners) (inside : (t o : ℕ) → owner t ≡ some o → o < n) where
  pub record AllLinked (k : ℕ) (ms : List Module) (g g' : Graph) : Type 0 where
    pub grows : (a j : ℕ) → count j (g.edges a) ≤ count j (g'.edges a)
    pub complete :
        (d t o : ℕ) (m : Module)
        → get_elem? ms d ≡ some m
        → Declares m t
        → owner t ≡ some o
        → o ≢ k + d
        → 0 < count (k + d) (g'.edges o)
    pub sound :
        (a j : ℕ) → 0 < count j (g'.edges a) → (0 < count j (g.edges a)) ⊎ DependsOn owner k ms j a
    pub met : (d t : ℕ) (m : Module) → get_elem? ms d ≡ some m → Requires m t → owner t ≢ none
    pub built : IsBuilt n g → IsBuilt n g'

  AllLinked-nil : (k : ℕ) (g : Graph) → AllLinked k [] g g
  AllLinked-nil k g = record {
    grows = λ a j. omega arith;
    complete = λ d t o m at _ _ _. cc;
    sound = λ a j p. inl p;
    met = λ d t m at _ _. cc;
    built = λ b. b;
  }

  module _ {k : ℕ} (lk : k < n) (m : Module) {ms : List Module} {g g₁ g₂ g₃ : Graph}
      (req : Linked n owner inside k lk (required_or_nil m.dependencies) g g₁)
      (met : (t : ℕ) → Requires m t → owner t ≢ none)
      (opt : Linked n owner inside k lk (optional_or_nil m.dependencies) g₁ g₂)
      (rest : AllLinked (suc k) ms g₂ g₃) where
    head_complete : (t o : ℕ) → Declares m t → owner t ≡ some o → o ≢ k → 0 < count k (g₃.edges o)
    head_complete t o (inl r) e ne =
        omega (arith, req.complete t o r e ne, opt.grows o k, rest.grows o k)
    head_complete t o (inr p) e ne = omega (arith, opt.complete t o p e ne, rest.grows o k)

    complete_at :
        (d t o : ℕ) (m' : Module)
        → get_elem? (m ∷ ms) d ≡ some m'
        → Declares m' t
        → owner t ≡ some o
        → o ≢ k + d
        → 0 < count (k + d) (g₃.edges o)
    complete_at zero t o m' at dec e ne =
        let same : m ≡ m' = cc in
        rw add-zero
          (head_complete t o (subst (λ x. Declares x t) (sym same) dec) e (λ w. ne (omega arith)))
    complete_at (suc d) t o m' at dec e ne =
        let shift : k + suc d ≡ suc k + d = omega arith in
        rw shift (rest.complete d t o m' at dec e (λ w. ne (omega arith)))

    met_at :
        (d t : ℕ) (m' : Module) → get_elem? (m ∷ ms) d ≡ some m' → Requires m' t → owner t ≢ none
    met_at zero t m' at r = let same : m ≡ m' = cc in met t (subst (λ x. Requires x t) (sym same) r)
    met_at (suc d) t m' at r = rest.met d t m' at r

    sound_at :
        (a j : ℕ)
        → 0 < count j (g₃.edges a)
        → (0 < count j (g.edges a)) ⊎ DependsOn owner k (m ∷ ms) j a
    sound_at a j p = elim (rest.sound a j p) [
      | inr d ↦ inr (DependsOn-cons m d)
      | inl p₂ ↦ elim (opt.sound a j p₂) [
        | inr w ↦ inr (DependsOn-head ms (λ t c. inr c) w)
        | inl p₁ ↦ elim (req.sound a j p₁) [
          | inr w ↦ inr (DependsOn-head ms (λ t c. inl c) w)
          | inl p₀ ↦ inl p₀
        ]
      ]
    ]

    AllLinked-cons : AllLinked k (m ∷ ms) g g₃
    AllLinked-cons = record {
      grows = λ a j. omega (arith, req.grows a j, opt.grows a j, rest.grows a j);
      complete = complete_at;
      sound = sound_at;
      met = met_at;
      built = λ b. rest.built (opt.built (req.built b));
    }

  pub link_modules-AllLinked :
      (k : ℕ) (ms : List Module) (g : Graph) {g' : Graph}
      → k + length ms ≤ n
      → link_modules owner k ms g ≡ ok g'
      → AllLinked k ms g g'
  unfolding link_modules
  link_modules-AllLinked k [] g fits h = subst (AllLinked k [] g) (cc) (AllLinked-nil k g)
  link_modules-AllLinked k (m ∷ ms) g fits h =
      let (g₁, e₁, h₁) =
        >>=-eq-ok (link_required owner m.type_name k (required_or_nil m.dependencies) g) _ h in
      let lk : k < n = omega arith in
      let (req, met) =
        link_required-Linked n owner inside k lk m.type_name (required_or_nil m.dependencies) g
          e₁ in
      let opt = link_optional-Linked n owner inside k lk (optional_or_nil m.dependencies) g₁ in
      AllLinked-cons lk m req met opt (link_modules-AllLinked (suc k) ms _ (omega arith) h₁)

-- Module `place` requires a type that nothing provides, and the error names both.
pub record IsUnmet (owner : Owners) (ms : List Module) (e : SortError) : Type 0 where
  pub place : ℕ
  pub module_at : Module
  pub at : get_elem? ms place ≡ some module_at
  pub type : ℕ
  pub requires : Requires module_at type
  pub missing : owner type ≡ none
  pub named : e ≡ unmet module_at.type_name type

link_required-err :
    (owner : Owners) (name : String) (i : ℕ) (ts : List ℕ) (g : Graph) {e : SortError}
    → link_required owner name i ts g ≡ err e
    → (t : ℕ) × (contains ts t ≡ true) × (owner t ≡ none) × (e ≡ unmet name t)
unfolding link_required
link_required-err owner name i [] g h = absurd (cc)
link_required-err owner name i (t ∷ ts) g h = elim (Option-cases (owner t)) [
  | inl none_owns ↦ (t, ground arith, none_owns, ground arith)
  | inr (o, e) ↦
      let (u, c, missing, named) =
        link_required-err owner name i ts (link o i g) (rw (e, link_required) at h) in
      (u, ground arith, missing, named)
]

IsUnmet-cons :
    {owner : Owners} (m : Module) {ms : List Module} {e : SortError}
    → IsUnmet owner ms e
    → IsUnmet owner (m ∷ ms) e
IsUnmet-cons m u = record {
  place = suc u.place;
  module_at = u.module_at;
  at = u.at;
  type = u.type;
  requires = u.requires;
  missing = u.missing;
  named = u.named;
}

pub link_modules-err :
    (owner : Owners) (k : ℕ) (ms : List Module) (g : Graph) {e : SortError}
    → link_modules owner k ms g ≡ err e
    → IsUnmet owner ms e
unfolding link_modules
link_modules-err owner k [] g h = absurd (cc)
link_modules-err owner k (m ∷ ms) g {e} h =
    go (λ g₂ q. link_modules-err owner (suc k) ms g₂ q)
      (link_required owner m.type_name k (required_or_nil m.dependencies) g) refl h
  where
    go :
        ((g₂ : Graph) → link_modules owner (suc k) ms g₂ ≡ err e → IsUnmet owner ms e)
        → (r : Result SortError Graph)
        → link_required owner m.type_name k (required_or_nil m.dependencies) g ≡ r
        → (r >>= λ g'.
            link_modules owner
              (suc k)
              ms
              (link_optional owner k (optional_or_nil m.dependencies) g'))
          ≡ err e
        → IsUnmet owner (m ∷ ms) e
    go ih (ok g') eq h' = IsUnmet-cons m (ih _ h')
    go ih (err e') eq h' =
        let (t, c, missing, named) = link_required-err owner m.type_name k _ g eq in
        record {
          place = 0;
          module_at = m;
          at = refl;
          type = t;
          requires = c;
          missing = missing;
          named = cc;
        }
