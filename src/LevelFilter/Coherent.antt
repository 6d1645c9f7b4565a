-- ===== src/LevelFilter/Coherent.antt =====
-- The cache is never seen, and `Enabled` never holds back what `Handle` lets through.
use mathlib.Core.Option.{some-injective}
use mathlib.Core.Path.{ap₂}
use lakta.Prelude.{
  ℕ, ◌≡◌, refl, sym, ap, subst, ◌∙◌, ℤ, pos, negsuc, Bool, true, false, not, Option, none, some,
  List, [], ◌∷◌, ◌==◌, bytes_keyed, list_eqb_iff, arith, inl, inr, if◌then◌else◌, Bool-cases,
}
use lakta.LevelFilter.{
  LevelRule, LevelRules, LevelFilter, int_leb, int_ltb, lowest, build_rules, match_level,
  extract_package_path, load_cached, new_level_filter, update, resolved, resolve_level, enabled,
  handle,
}
use lakta.LevelFilter.Longest.{In, match_level-IsLongest}

-- Each cached level is the one that the rules give.
abbrev pub IsCoherent : LevelFilter → Type 0
IsCoherent f =
    (name : List ℕ) (level : ℤ)
    → load_cached f.cache name ≡ some level
    → level ≡ match_level f.state (extract_package_path name)

add_cached :
    (f : LevelFilter) (name : List ℕ)
    → IsCoherent f
    → IsCoherent
        (record f { cache = (name, match_level f.state (extract_package_path name)) ∷ f.cache })
add_cached f name c n l h = elim (Bool-cases (name == n)) [
  | inl e ↦
      sym (some-injective _ _ (rw e at h))
      ∙ ap (λ k. match_level f.state (extract_package_path k)) ((list_eqb_iff name n).0 e)
  | inr e ↦ c n l (rw e at h)
]

resolved-eq :
    (cached : Option ℤ) (name : List ℕ) (f : LevelFilter)
    → IsCoherent f
    → load_cached f.cache name ≡ cached
    → ((resolved cached name f).0 ≡ match_level f.state (extract_package_path name))
      × ((resolved cached name f).1.state ≡ f.state)
      × IsCoherent (resolved cached name f).1
unfolding resolved
resolved-eq none name f c e = (refl, refl, add_cached f name c)
resolved-eq (some level) name f c e = (c name level e, refl, c)

resolve_level-eq :
    (name : List ℕ) (f : LevelFilter)
    → IsCoherent f
    → ((resolve_level name f).0 ≡ match_level f.state (extract_package_path name))
      × ((resolve_level name f).1.state ≡ f.state)
      × IsCoherent (resolve_level name f).1
unfolding resolve_level
resolve_level-eq name f c = resolved-eq (load_cached f.cache name) name f c refl

-- A record that is handled, or new levels.
pub data Action : Type 0 where
  log : Option ℤ → ℤ → List ℕ → Action
  reconfigure : ℤ → List LevelRule → Action

-- Which records go through.
abbrev pub outcomes : List Action → LevelFilter → List Bool
outcomes [] f = []
outcomes (log override level name ∷ actions) f =
    (handle override level name f).0 ∷ outcomes actions (handle override level name f).1
outcomes (reconfigure default_level levels ∷ actions) f =
    outcomes actions (update default_level levels f)

-- The same without a cache.
abbrev pub passes : LevelRules → Option ℤ → ℤ → List ℕ → Bool
passes s none level name = not (int_ltb level (match_level s (extract_package_path name)))
passes s (some override) level name = int_leb override level

abbrev pub expected : List Action → LevelRules → List Bool
expected [] s = []
expected (log override level name ∷ actions) s = passes s override level name ∷ expected actions s
expected (reconfigure default_level levels ∷ actions) s =
    expected actions (build_rules default_level levels)

outcomes-coherent :
    (actions : List Action) (f : LevelFilter)
    → IsCoherent f
    → outcomes actions f ≡ expected actions f.state
unfolding handle update
outcomes-coherent [] f c = refl
outcomes-coherent (log (some override) level name ∷ actions) f c =
    ap (λ l. int_leb override level ∷ l) (outcomes-coherent actions f c)
outcomes-coherent (log none level name ∷ actions) f c =
    let (same, state, kept) = resolve_level-eq name f c in
    ap₂ ◌∷◌ (ap (λ t. not (int_ltb level t)) same)
      (outcomes-coherent actions (resolve_level name f).1 kept ∙ ap (expected actions) state)
outcomes-coherent (reconfigure default_level levels ∷ actions) f c =
    outcomes-coherent actions _ (λ name level h. absurd (cc h))

-- Whatever records are handled and levels are set, one after the other, each record goes through
-- exactly if its level is at least the one that the rules set last give its package, or at least
-- the context's level if there is one.
pub outcomes-eq-expected :
    (default_level : ℤ) (levels : List LevelRule) (actions : List Action)
    → outcomes actions (new_level_filter default_level levels)
      ≡ expected actions (build_rules default_level levels)
unfolding new_level_filter
outcomes-eq-expected default_level levels actions =
    outcomes-coherent actions _ (λ name level h. absurd (cc h))

int_leb_trans : (a b c : ℤ) → int_leb a b ≡ true → int_leb b c ≡ true → int_leb a c ≡ true
int_leb_trans (pos a) (pos b) (pos c) h k = ground arith
int_leb_trans (pos a) (pos b) (negsuc c) h k = absurd (cc k)
int_leb_trans (pos a) (negsuc b) c h k = absurd (cc h)
int_leb_trans (negsuc a) b (pos c) h k = refl
int_leb_trans (negsuc a) (pos b) (negsuc c) h k = absurd (cc k)
int_leb_trans (negsuc a) (negsuc b) (negsuc c) h k = ground arith

int_leb_refl : (a : ℤ) → int_leb a a ≡ true
int_leb_refl (pos a) = ground arith
int_leb_refl (negsuc a) = ground arith

int_leb_total : (a b : ℤ) → int_leb a b ≡ false → int_leb b a ≡ true
int_leb_total (pos a) (pos b) h = ground arith
int_leb_total (pos a) (negsuc b) h = refl
int_leb_total (negsuc a) (pos b) h = absurd (cc h)
int_leb_total (negsuc a) (negsuc b) h = ground arith

abbrev smaller : ℤ → ℤ → ℤ
smaller a b = if int_ltb a b then a else b

smaller-leb : (a b : ℤ) → (int_leb (smaller a b) a ≡ true) × (int_leb (smaller a b) b ≡ true)
smaller-leb a b = elim (Bool-cases (int_leb b a)) [
  | inl e ↦ rw e (e, int_leb_refl b)
  | inr e ↦ rw e (int_leb_refl a, int_leb_total b a e)
]

lowest-leb :
    (m : ℤ) (levels : List LevelRule)
    → (int_leb (lowest m levels) m ≡ true)
      × ((r : LevelRule) → In r levels → int_leb (lowest m levels) r.level ≡ true)
unfolding lowest
lowest-leb m [] = (int_leb_refl m, λ r n. absurd n)
lowest-leb m (s ∷ levels) =
    let (below, all) = lowest-leb (smaller s.level m) levels in
    let (low_s, low_m) = smaller-leb s.level m in
    (
      int_leb_trans (lowest (smaller s.level m) levels) (smaller s.level m) m below low_m,
      λ r i. elim i [
        | inl e ↦
            subst (λ (x : LevelRule). int_leb (lowest (smaller s.level m) levels) x.level ≡ true)
              (sym e)
              (int_leb_trans (lowest (smaller s.level m) levels) (smaller s.level m) s.level below
                low_s)
        | inr h ↦ all r h
      ],
    )

min_level-leb :
    (d : ℤ) (levels : List LevelRule) (path : List ℕ)
    → int_leb (lowest d levels) (match_level (build_rules d levels) path) ≡ true
min_level-leb d levels path = elim (match_level-IsLongest d levels path) [
  | inl (r, i, m, l, best) ↦
      subst (λ v. int_leb (lowest d levels) v ≡ true) (sym l) ((lowest-leb d levels).1 r i)
  | inr (none_of, l) ↦
      subst (λ v. int_leb (lowest d levels) v ≡ true) (sym l) (lowest-leb d levels).0
]

double_negation : (b : Bool) → not (not b) ≡ true → b ≡ true
double_negation true h = refl
double_negation false h = h

-- Whatever `Handle` lets through, `Enabled` has let through before, if the handler behind takes the
-- level, on a filter whose cache agrees with its rules.
pub handle-enabled :
    (upstream : ℤ → Bool) (default_level : ℤ) (levels : List LevelRule) (override : Option ℤ)
    (level : ℤ) (name : List ℕ) (f : LevelFilter)
    → f.state ≡ build_rules default_level levels
    → IsCoherent f
    → upstream level ≡ true
    → (handle override level name f).0 ≡ true
    → enabled upstream override level f ≡ true
unfolding handle enabled build_rules
handle-enabled upstream d levels none level name f built c up h =
    let path = extract_package_path name in
    let above : int_leb (match_level f.state path) level ≡ true =
      subst (λ t. int_leb t level ≡ true) (resolve_level-eq name f c).0
        (double_negation (int_leb (resolve_level name f).0 level) h) in
    let low : int_leb f.state.min_level (match_level f.state path) ≡ true =
      subst (λ (s : LevelRules). int_leb s.min_level (match_level s path) ≡ true) (sym built)
        (min_level-leb d levels path) in
    rw (int_leb_trans f.state.min_level (match_level f.state path) level low above) up
handle-enabled upstream d levels (some override) level name f built c up h = rw h up
