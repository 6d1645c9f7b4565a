-- ===== src/LevelFilter/Longest.antt =====
-- The level of a package is that of its longest configured prefix.
use lakta.Prelude.{
  ℕ, ◌≡◌, ◌≤◌, ◌<◌, ◌⊎◌, inl, inr, refl, sym, ap, subst, ◌∙◌, ℤ, true, false, List, [], ◌∷◌, length,
  ltb, ltb→lt, arith, Bool-cases,
}
use lakta.LevelFilter.{
  LevelRule, insert_rule, sort_rules, build_rules, has_prefix, first_match, match_level,
}

abbrev pub In : LevelRule → List LevelRule → Type 0
In r [] = ⊥
In r (s ∷ rules) = (r ≡ s) ⊎ In r rules

-- Each prefix is at least as long as those behind it.
abbrev IsDescending : List LevelRule → Type 0
IsDescending [] = Unit {0}
IsDescending (r ∷ rules) =
    ((s : LevelRule) → In s rules → length s.prefix ≤ length r.prefix) × IsDescending rules

In-insert_rule :
    (x r : LevelRule) (rules : List LevelRule) → In x (insert_rule r rules) → (x ≡ r) ⊎ In x rules
unfolding insert_rule
In-insert_rule x r [] (inl e) = inl e
In-insert_rule x r [] (inr n) = absurd n
In-insert_rule x r (s ∷ rules) i = elim (Bool-cases (ltb (length s.prefix) (length r.prefix))) [
  | inl e ↦ rw e at i
  | inr e ↦ go (In-insert_rule x r rules) (rw e at i)
]
  where
    go :
        (In x (insert_rule r rules) → (x ≡ r) ⊎ In x rules)
        → In x (s ∷ insert_rule r rules)
        → (x ≡ r) ⊎ In x (s ∷ rules)
    go later (inl h) = inr (inl h)
    go later (inr h) = elim (later h) [ inl a ↦ inl a | inr a ↦ inr (inr a) ]

insert_rule-In :
    (x r : LevelRule) (rules : List LevelRule) → (x ≡ r) ⊎ In x rules → In x (insert_rule r rules)
unfolding insert_rule
insert_rule-In x r [] (inl e) = inl e
insert_rule-In x r [] (inr n) = absurd n
insert_rule-In x r (s ∷ rules) i = elim (Bool-cases (ltb (length s.prefix) (length r.prefix))) [
  | inl e ↦ rw e i
  | inr e ↦ rw e (go (insert_rule-In x r rules) i)
]
  where
    go :
        ((x ≡ r) ⊎ In x rules → In x (insert_rule r rules))
        → (x ≡ r) ⊎ In x (s ∷ rules)
        → In x (s ∷ insert_rule r rules)
    go later (inl h) = inr (later (inl h))
    go later (inr (inl h)) = inl h
    go later (inr (inr h)) = inr (later (inr h))

insert_rule-IsDescending :
    (r : LevelRule) (rules : List LevelRule)
    → IsDescending rules
    → IsDescending (insert_rule r rules)
unfolding insert_rule
insert_rule-IsDescending r [] d = (λ s n. absurd n, tt)
insert_rule-IsDescending r (s ∷ rules) d =
    elim (Bool-cases (ltb (length s.prefix) (length r.prefix))) [
      | inl e ↦ rw e (front (ltb→lt _ _ e), d)
      | inr e ↦ rw e (back e, insert_rule-IsDescending r rules d.1)
    ]
  where
    front :
        length s.prefix < length r.prefix
        → (x : LevelRule) → In x (s ∷ rules)
        → length x.prefix ≤ length r.prefix
    front l x (inl h) = omega (arith, ap (λ (y : LevelRule). length y.prefix) h)
    front l x (inr h) = omega (arith, d.0 x h)

    back :
        ltb (length s.prefix) (length r.prefix) ≡ false
        → (x : LevelRule) → In x (insert_rule r rules)
        → length x.prefix ≤ length s.prefix
    back e x h = elim (In-insert_rule x r rules h) [
      | inl a ↦ subst (λ (y : LevelRule). length y.prefix ≤ length s.prefix) (sym a) (ground arith)
      | inr a ↦ d.0 x a
    ]

sort_rules-IsDescending : (levels : List LevelRule) → IsDescending (sort_rules levels)
unfolding sort_rules
sort_rules-IsDescending [] = tt
sort_rules-IsDescending (r ∷ levels) =
    insert_rule-IsDescending r (sort_rules levels) (sort_rules-IsDescending levels)

In-sort_rules : (x : LevelRule) (levels : List LevelRule) → In x (sort_rules levels) → In x levels
unfolding sort_rules
In-sort_rules x [] i = i
In-sort_rules x (r ∷ levels) i = elim (In-insert_rule x r (sort_rules levels) i) [
  | inl h ↦ inl h
  | inr h ↦ inr (In-sort_rules x levels h)
]

sort_rules-In : (x : LevelRule) (levels : List LevelRule) → In x levels → In x (sort_rules levels)
unfolding sort_rules
sort_rules-In x [] i = i
sort_rules-In x (r ∷ levels) (inl h) = insert_rule-In x r (sort_rules levels) (inl h)
sort_rules-In x (r ∷ levels) (inr h) =
    insert_rule-In x r (sort_rules levels) (inr (sort_rules-In x levels h))

-- A level is that of a matching entry than which no matching entry is longer, or there is no
-- matching entry and it is the default.
abbrev pub IsLongest : ℤ → List LevelRule → List ℕ → ℤ → Type 0
IsLongest default_level levels path level =
    ((r : LevelRule) × In r levels
      × (has_prefix path r.prefix ≡ true)
      × (level ≡ r.level)
      × ((s : LevelRule)
          → In s levels
          → has_prefix path s.prefix ≡ true
          → length s.prefix ≤ length r.prefix))
    ⊎ (((s : LevelRule) → In s levels → has_prefix path s.prefix ≡ false) × (level ≡ default_level))

first_match-IsLongest :
    (d : ℤ) (rules : List LevelRule) (path : List ℕ)
    → IsDescending rules
    → IsLongest d rules path (first_match d rules path)
unfolding first_match
first_match-IsLongest d [] path desc = inr (λ s n. absurd n, refl)
first_match-IsLongest d (r ∷ rules) path desc = elim (Bool-cases (has_prefix path r.prefix)) [
  | inl e ↦ inl (r, inl refl, e, rw e refl, first)
  | inr e ↦ later e (first_match-IsLongest d rules path desc.1)
]
  where
    first :
        (s : LevelRule)
        → In s (r ∷ rules)
        → has_prefix path s.prefix ≡ true
        → length s.prefix ≤ length r.prefix
    first s (inl h) m = omega (arith, ap (λ (y : LevelRule). length y.prefix) h)
    first s (inr h) m = desc.0 s h

    differs :
        has_prefix path r.prefix ≡ false
        → (s : LevelRule) → s ≡ r
        → has_prefix path s.prefix ≡ false
    differs e s h = ap (λ (y : LevelRule). has_prefix path y.prefix) h ∙ e

    later :
        has_prefix path r.prefix ≡ false
        → IsLongest d rules path (first_match d rules path)
        → IsLongest d (r ∷ rules) path (first_match d (r ∷ rules) path)
    later e (inl (x, i, m, l, best)) = inl (
      x,
      inr i,
      m,
      rw e l,
      λ s a ms. elim a [ inl h ↦ absurd (cc (sym ms ∙ differs e s h)) | inr h ↦ best s h ms ],
    )
    later e (inr (none_of, l)) =
        inr (λ s a. elim a [ inl h ↦ differs e s h | inr h ↦ none_of s h ], rw e l)

-- The level of a package is that of an entry whose prefix the package's path has, and no longer
-- prefix in the map is one of the path; without such an entry it is the default. So it does not
-- depend on the order in which the map is iterated.
pub match_level-IsLongest :
    (default_level : ℤ) (levels : List LevelRule) (path : List ℕ)
    → IsLongest default_level levels path (match_level (build_rules default_level levels) path)
unfolding match_level build_rules
match_level-IsLongest d levels path =
    elim (first_match-IsLongest d (sort_rules levels) path (sort_rules-IsDescending levels)) [
      | inl (r, i, m, l, best) ↦
          inl (r, In-sort_rules r levels i, m, l, λ s a ms. best s (sort_rules-In s levels a) ms)
      | inr (none_of, l) ↦ inr (λ s a. none_of s (sort_rules-In s levels a), l)
    ]
