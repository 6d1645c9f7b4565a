-- ===== src/Prelude/Count.antt =====
-- How often a number stands in a list, where it stands first, and sums over the indices below a
-- bound: the counting arguments for the topological sort.
use Prim.Native.Nat.{ℕ, zero, suc, ◌+◌, ◌≤◌, ◌<◌}
use mathlib.Core.Path.{◌≡◌, refl, sym, ap}
use mathlib.Core.Logic.{◌≢◌, inl, inr}
use mathlib.Core.List.{List, [], ◌∷◌, ◌++◌}
use native.Mathlib.Omega.{arith}
use lakta.Prelude.Tests.{nat_eqb, if◌then◌else◌, nat-cases}
use lakta.Prelude.Lists.{length}

abbrev pub count : ℕ → List ℕ → ℕ
count a [] = 0
count a (x ∷ xs) = (if nat_eqb x a then 1 else 0) + count a xs

pub count-append : (a : ℕ) (xs ys : List ℕ) → count a (xs ++ ys) ≡ count a xs + count a ys
count-append a [] ys = omega arith
count-append a (x ∷ xs) ys = ground (arith, count-append a xs ys)

abbrev pub index_of : ℕ → List ℕ → ℕ
index_of a [] = 0
index_of a (x ∷ xs) = let rest = index_of a xs in if nat_eqb x a then 0 else suc rest

pub index_of-lt-length : (a : ℕ) (xs : List ℕ) → 0 < count a xs → index_of a xs < length xs
index_of-lt-length a [] h = omega arith
index_of-lt-length a (x ∷ xs) h = ground (arith, index_of-lt-length a xs)

-- Appending does not move what is there already.
pub index_of-append :
    (a : ℕ) (xs ys : List ℕ) → 0 < count a xs → index_of a (xs ++ ys) ≡ index_of a xs
index_of-append a [] ys h = absurd (omega arith)
index_of-append a (x ∷ xs) ys h = ground (arith, index_of-append a xs ys)

pub index_of-snoc_new :
    (a : ℕ) (xs : List ℕ) → count a xs ≡ 0 → index_of a (xs ++ a ∷ []) ≡ length xs
index_of-snoc_new a [] h = ground arith
index_of-snoc_new a (x ∷ xs) h = ground (arith, index_of-snoc_new a xs)

abbrev pub sum_below : ℕ → (ℕ → ℕ) → ℕ
sum_below zero f = 0
sum_below (suc n) f = sum_below n f + f n

pub sum_below-ext :
    (n : ℕ) (f g : ℕ → ℕ) → ((i : ℕ) → i < n → f i ≡ g i) → sum_below n f ≡ sum_below n g
sum_below-ext zero f g h = refl
sum_below-ext (suc n) f g h =
    omega (arith, sum_below-ext n f g (λ i l. h i (omega arith)), h n (omega arith))

-- A summand is at most the sum.
pub le-sum_below : (n : ℕ) (f : ℕ → ℕ) (i : ℕ) → i < n → f i ≤ sum_below n f
le-sum_below zero f i h = absurd (omega arith)
le-sum_below (suc n) f i h = ground (arith, le-sum_below n f i)

pub sum_below-zero : (n : ℕ) (f : ℕ → ℕ) → ((i : ℕ) → i < n → f i ≡ 0) → sum_below n f ≡ 0
sum_below-zero zero f h = refl
sum_below-zero (suc n) f h =
    omega (arith, sum_below-zero n f (λ i l. h i (omega arith)), h n (omega arith))

-- Two functions that agree but at one index.
pub sum_below-change :
    (n : ℕ) (f g : ℕ → ℕ) (k : ℕ)
    → k < n
    → ((i : ℕ) → i ≢ k → f i ≡ g i)
    → sum_below n f + g k ≡ sum_below n g + f k
sum_below-change zero f g k h same = absurd (omega arith)
sum_below-change (suc n) f g k h same = elim (nat-cases n k) [
  | inl e ↦
      ground (arith, e, ap f e, ap g e, sum_below-ext n f g (λ i l. same i (λ w. omega arith)))
  | inr ne ↦ ground (arith, sum_below-change n f g k (omega arith) same, same n ne)
]

pub sum_below-le : (n : ℕ) (f : ℕ → ℕ) → ((i : ℕ) → i < n → f i ≤ 1) → sum_below n f ≤ n
sum_below-le zero f h = omega arith
sum_below-le (suc n) f h =
    omega (arith, sum_below-le n f (λ i l. h i (omega arith)), h n (omega arith))

pub sum_below-one : (n : ℕ) (f : ℕ → ℕ) → ((i : ℕ) → i < n → f i ≡ 1) → sum_below n f ≡ n
sum_below-one zero f h = refl
sum_below-one (suc n) f h =
    omega (arith, sum_below-one n f (λ i l. h i (omega arith)), h n (omega arith))

-- If summands of at most one reach the number of indices, each is one.
pub sum_below-full :
    (n : ℕ) (f : ℕ → ℕ) (i : ℕ) → ((k : ℕ) → k < n → f k ≤ 1) → n ≤ sum_below n f → i < n → f i ≡ 1
sum_below-full zero f i small full l = absurd (omega arith)
sum_below-full (suc n) f i small full l =
    let below : (k : ℕ) → k < n → f k ≤ 1 = λ k l'. small k (omega arith) in
    elim (nat-cases i n) [
      | inl e ↦ rw e (omega (arith, sum_below-le n f below, small n (omega arith)))
      | inr ne ↦ sum_below-full n f i below (omega (arith, small n (omega arith))) (omega arith)
    ]

-- A list of numbers below `n` is as long as its counts together.
pub length-eq-sum_count :
    (n : ℕ) (xs : List ℕ)
    → ((a : ℕ) → 0 < count a xs → a < n)
    → length xs ≡ sum_below n (λ a. count a xs)
length-eq-sum_count n [] h = sym (sum_below-zero n (λ a. 0) (λ i l. refl))
length-eq-sum_count n (x ∷ xs) h =
    omega (arith, length-eq-sum_count n xs (λ a p. h a (ground arith)), change, head)
  where
    head : count x (x ∷ xs) ≡ suc (count x xs)
    head = ground arith

    change :
        sum_below n (λ a. count a (x ∷ xs)) + count x xs
        ≡ sum_below n (λ a. count a xs) + count x (x ∷ xs)
    change =
        sum_below-change n (λ a. count a (x ∷ xs)) (λ a. count a xs) x (h x (ground arith))
          (λ i ne. ground arith)
