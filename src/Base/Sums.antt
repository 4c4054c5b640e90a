-- ===== src/Base/Sums.antt =====
-- Finite sums over the numbers below a bound, and how a list without repetition sums.
use mathlib.Core.Logic.{if_pos, if_neg}
use native.Mathlib.Decide.{dec_lt}
use lusid.Base.{
  ℕ, zero, suc, ◌+◌, ◌*◌, ◌≤◌, ◌<◌, ◌≡◌, refl, List, [], ◌∷◌, ◌++◌, ite, arith, All, count, length,
  nat_eq, ℕ_discrete,
}

-- The sum of `f i` for `i < n`.
abbrev pub sum_below : ℕ → (ℕ → ℕ) → ℕ
sum_below zero f = 0
sum_below (suc n) f = sum_below n f + f n

abbrev pub sum_list : List ℕ → (ℕ → ℕ) → ℕ
sum_list [] f = 0
sum_list (i ∷ is) f = f i + sum_list is f

pub sum_below-le :
    (n : ℕ) (f g : ℕ → ℕ) → ((i : ℕ) → i < n → f i ≤ g i) → sum_below n f ≤ sum_below n g
sum_below-le zero f g h = omega arith
sum_below-le (suc n) f g h =
    omega (arith, sum_below-le n f g (λ i l. h i (omega arith)), h n (omega arith))

pub sum_below-eq :
    (n : ℕ) (f g : ℕ → ℕ) → ((i : ℕ) → i < n → f i ≡ g i) → sum_below n f ≡ sum_below n g
sum_below-eq zero f g h = refl
sum_below-eq (suc n) f g h =
    omega (arith, sum_below-eq n f g (λ i l. h i (omega arith)), h n (omega arith))

-- A value that is positive somewhere makes a strict inequality.
pub sum_below-lt :
    (n : ℕ) (f g : ℕ → ℕ) (k : ℕ)
    → ((i : ℕ) → i < n → f i ≤ g i)
    → k < n
    → f k < g k
    → sum_below n f < sum_below n g
sum_below-lt zero f g k h l s = elim l [ ]
sum_below-lt (suc n) f g k h l s = elim (ℕ_discrete k n) [
  | yes e ↦
      let here : f n < g n = subst_lt e s in
      omega (arith, sum_below-le n f g (λ i l. h i (omega arith)), here)
  | no e ↦
      omega
        (arith, sum_below-lt n f g k (λ i l. h i (omega arith)) (omega arith) s, h n (omega arith))
]
  where
    subst_lt : k ≡ n → f k < g k → f n < g n
    subst_lt e s = rw e at s

pub sum_below-add :
    (n : ℕ) (f g : ℕ → ℕ) → sum_below n (λ i. f i + g i) ≡ sum_below n f + sum_below n g
sum_below-add zero f g = omega arith
sum_below-add (suc n) f g = omega (arith, sum_below-add n f g)

pub sum_below-zero : (n : ℕ) → sum_below n (λ i. 0) ≡ 0
sum_below-zero zero = refl
sum_below-zero (suc n) = omega (arith, sum_below-zero n)

sum_below_single_above :
    (n x : ℕ) (f : ℕ → ℕ) → n ≤ x → sum_below n (λ i. ite (ℕ_discrete x i) (f i) 0) ≡ 0
sum_below_single_above zero x f h = refl
sum_below_single_above (suc n) x f h = ground (arith, sum_below_single_above n x f (omega arith))

pub sum_below_single :
    (n x : ℕ) (f : ℕ → ℕ) → x < n → sum_below n (λ i. ite (ℕ_discrete x i) (f i) 0) ≡ f x
sum_below_single zero x f h = elim h [ ]
sum_below_single (suc n) x f h = elim (ℕ_discrete x n) [
  | yes e ↦ rw e (ground (arith, sum_below_single_above n n f (omega arith)))
  | no e ↦ ground (arith, sum_below_single n x f (omega arith))
]

-- A sum over a list of numbers below `n`, counted number by number.
pub sum_list-count :
    (n : ℕ) (l : List ℕ) (f : ℕ → ℕ)
    → All (λ i. i < n) l
    → sum_list l f ≡ sum_below n (λ i. count i l * f i)
sum_list-count n [] f h =
    omega (arith, sum_below-eq n (λ i. 0 * f i) (λ i. 0) (λ i l. omega arith), sum_below-zero n)
sum_list-count n (x ∷ xs) f h =
    let split =
      sum_below-eq n (λ i. count i (x ∷ xs) * f i)
        (λ i. ite (ℕ_discrete x i) (f i) 0 + count i xs * f i) (λ i l. one_more i) in
    omega (
      arith,
      split,
      sum_below-add n (λ i. ite (ℕ_discrete x i) (f i) 0) (λ i. count i xs * f i),
      sum_below_single n x f h.0,
      sum_list-count n xs f h.1,
    )
  where
    one_more : (i : ℕ) → count i (x ∷ xs) * f i ≡ ite (ℕ_discrete x i) (f i) 0 + count i xs * f i
    one_more i = elim (ℕ_discrete x i) [
      | yes here ↦ rw (if_pos _ here) (rw (if_pos _ here) (omega arith))
      | no other ↦ rw (if_neg _ other) (rw (if_neg _ other) (omega arith))
    ]

pub sum_list-append :
    (xs ys : List ℕ) (f : ℕ → ℕ) → sum_list (xs ++ ys) f ≡ sum_list xs f + sum_list ys f
sum_list-append [] ys f = omega arith
sum_list-append (x ∷ xs) ys f = omega (arith, sum_list-append xs ys f)

pub sum_list-zero : (xs : List ℕ) (f : ℕ → ℕ) → ((i : ℕ) → f i ≡ 0) → sum_list xs f ≡ 0
sum_list-zero [] f h = refl
sum_list-zero (x ∷ xs) f h = omega (arith, h x, sum_list-zero xs f h)

sum_list_ones : (xs : List ℕ) → sum_list xs (λ i. 1) ≡ length xs
sum_list_ones [] = refl
sum_list_ones (x ∷ xs) = omega (arith, sum_list_ones xs)

pub sum_below_ones : (n : ℕ) → sum_below n (λ i. 1) ≡ n
sum_below_ones zero = refl
sum_below_ones (suc n) = omega (arith, sum_below_ones n)

-- The length of a list of numbers below `n`, counted number by number.
pub length-count :
    (n : ℕ) (l : List ℕ) → All (λ i. i < n) l → length l ≡ sum_below n (λ i. count i l)
length-count n l h = omega (
  arith,
  sum_list_ones l,
  sum_list-count n l (λ i. 1) h,
  sum_below-eq n (λ i. count i l * 1) (λ i. count i l) (λ i _. omega arith),
)

-- A list of numbers below `n` with no repetition has at most `n` members.
pub length-le : (n : ℕ) (l : List ℕ) → All (λ i. i < n) l → ((i : ℕ) → count i l ≤ 1) → length l ≤ n
length-le n l h once = omega (
  arith,
  length-count n l h,
  sum_below-le n (λ i. count i l) (λ i. 1) (λ i _. once i),
  sum_below_ones n,
)

-- If it has `n` members, then it misses none.
pub count-eq_one :
    (n : ℕ) (l : List ℕ)
    → All (λ i. i < n) l
    → ((i : ℕ) → count i l ≤ 1)
    → length l ≡ n
    → (k : ℕ) → k < n
    → count k l ≡ 1
count-eq_one n l h once full k inside = elim (ℕ_discrete (count k l) 1) [
  | yes e ↦ e
  | no e ↦ absurd (
      omega (
        arith,
        length-count n l h,
        once k,
        sum_below-lt n (λ i. count i l) (λ i. 1) k (λ i _. once i) inside (omega (arith, once k)),
        sum_below_ones n,
      ))
]

-- A list in which no number from `n` on stands.
pub All-of_count : (n : ℕ) (l : List ℕ) → ((i : ℕ) → n ≤ i → count i l ≡ 0) → All (λ i. i < n) l
All-of_count n [] h = tt
All-of_count n (x ∷ xs) h = (inside, All-of_count n xs (λ i le. ground (arith, h i le)))
  where
    inside : x < n
    inside = elim (dec_lt x n) [ yes lt ↦ lt | no ge ↦ absurd (ground (arith, h x (omega arith))) ]

pub count-eq_zero : (n : ℕ) (l : List ℕ) → All (λ i. i < n) l → (i : ℕ) → n ≤ i → count i l ≡ 0
count-eq_zero n [] h i le = refl
count-eq_zero n (x ∷ xs) h i le = ground (arith, count-eq_zero n xs h.1 i le)

pub once_mul-le : (c e : ℕ) → c ≤ 1 → c * e ≤ e
once_mul-le zero e h = omega arith
once_mul-le (suc zero) e h = omega arith
once_mul-le (suc (suc c)) e h = absurd (omega arith)
