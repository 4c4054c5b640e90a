-- ===== src/Base/Lists.antt =====
-- `Vec<T>`: lists measured and indexed by native numbers, under the library's names.
use Prim.Native.Nat.{ℕ, zero, suc, ◌+◌, ◌<◌, ◌≤◌}
use mathlib.Core.Path.{◌≡◌, refl, sym, ap, subst}
use mathlib.Core.Logic.{ite}
use mathlib.Core.Bool.{Bool, true, false}
use mathlib.Core.List.{List, [], ◌∷◌, ◌++◌, map, append_assoc}
use mathlib.Core.Logic.{◌≢◌}
use mathlib.Core.Option.{none-ne-some, Option, none, some}
use native.Mathlib.Decide.{ℕ_discrete}
use native.Mathlib.Omega.{arith}
use lusid.Base.Tests.{Eq}

module _ {ℓ} {A : Type ℓ} where
  abbrev pub length : List A → ℕ
  length [] = 0
  length (x ∷ xs) = suc (length xs)

  abbrev pub get_elem? : List A → ℕ → Option A
  get_elem? [] i = none
  get_elem? (x ∷ xs) zero = some x
  get_elem? (x ∷ xs) (suc i) = get_elem? xs i

  abbrev pub get_or : List A → ℕ → A → A
  get_or [] i d = d
  get_or (x ∷ xs) zero d = x
  get_or (x ∷ xs) (suc i) d = get_or xs i d

  -- A write out of bounds changes nothing; the callers are proved to stay in bounds.
  abbrev pub set : List A → ℕ → A → List A
  set [] i v = []
  set (x ∷ xs) zero v = v ∷ xs
  set (x ∷ xs) (suc i) v = x ∷ set xs i v

  abbrev pub replicate : ℕ → A → List A
  replicate zero a = []
  replicate (suc n) a = a ∷ replicate n a

  abbrev pub take : ℕ → List A → List A
  take zero xs = []
  take (suc n) [] = []
  take (suc n) (x ∷ xs) = x ∷ take n xs

  abbrev pub All {κ} : (A → Type κ) → List A → Type κ
  All P [] = Unit
  All P (x ∷ xs) = P x × All P xs

  pub length-append : (xs ys : List A) → length (xs ++ ys) ≡ length xs + length ys
  length-append [] ys = omega arith
  length-append (x ∷ xs) ys = omega (arith, length-append xs ys)

  pub length-set : (xs : List A) (i : ℕ) (v : A) → length (set xs i v) ≡ length xs
  length-set [] i v = refl
  length-set (x ∷ xs) zero v = refl
  length-set (x ∷ xs) (suc i) v = ap suc (length-set xs i v)

  pub length-replicate : (n : ℕ) (a : A) → length (replicate n a) ≡ n
  length-replicate zero a = refl
  length-replicate (suc n) a = ap suc (length-replicate n a)

  pub get_or-set :
      (xs : List A) (i j : ℕ) (v d : A)
      → i < length xs
      → get_or (set xs i v) j d ≡ ite (ℕ_discrete i j) v (get_or xs j d)
  get_or-set [] i j v d h = elim h [ ]
  get_or-set (x ∷ xs) zero zero v d h = ground arith
  get_or-set (x ∷ xs) zero (suc j) v d h = ground arith
  get_or-set (x ∷ xs) (suc i) zero v d h = ground arith
  get_or-set (x ∷ xs) (suc i) (suc j) v d h = ground (arith, get_or-set xs i j v d (omega arith))

  pub get_elem?-set_self :
      (xs : List A) (i : ℕ) (v : A) {a : A}
      → get_elem? xs i ≡ some a
      → get_elem? (set xs i v) i ≡ some v
  get_elem?-set_self [] i v h = absurd (none-ne-some _ h)
  get_elem?-set_self (x ∷ xs) zero v h = refl
  get_elem?-set_self (x ∷ xs) (suc i) v h = get_elem?-set_self xs i v h

  pub get_elem?-set_ne :
      (xs : List A) (i j : ℕ) (v : A) → i ≢ j → get_elem? (set xs i v) j ≡ get_elem? xs j
  get_elem?-set_ne [] i j v h = refl
  get_elem?-set_ne (x ∷ xs) zero zero v h = absurd (h refl)
  get_elem?-set_ne (x ∷ xs) zero (suc j) v h = refl
  get_elem?-set_ne (x ∷ xs) (suc i) zero v h = refl
  get_elem?-set_ne (x ∷ xs) (suc i) (suc j) v h = get_elem?-set_ne xs i j v (λ e. h (ap suc e))

  pub get_elem?-append_length :
      (xs : List A) (y : A) (ys : List A) → get_elem? (xs ++ y ∷ ys) (length xs) ≡ some y
  get_elem?-append_length [] y ys = refl
  get_elem?-append_length (x ∷ xs) y ys = get_elem?-append_length xs y ys

  pub get_elem?-append_inside :
      (xs ys : List A) (i : ℕ) → i < length xs → get_elem? (xs ++ ys) i ≡ get_elem? xs i
  get_elem?-append_inside [] ys i h = absurd (omega arith)
  get_elem?-append_inside (x ∷ xs) ys zero h = refl
  get_elem?-append_inside (x ∷ xs) ys (suc i) h = get_elem?-append_inside xs ys i (omega arith)

  pub set-append_length :
      (xs : List A) (y v : A) (ys : List A) → set (xs ++ y ∷ ys) (length xs) v ≡ xs ++ v ∷ ys
  set-append_length [] y v ys = refl
  set-append_length (x ∷ xs) y v ys = ap (λ (zs : List A). x ∷ zs) (set-append_length xs y v ys)

  pub length-append_one : (xs : List A) (y : A) → length (xs ++ y ∷ []) ≡ suc (length xs)
  length-append_one [] y = refl
  length-append_one (x ∷ xs) y = ap suc (length-append_one xs y)

  -- A loop over the indices of a vector goes on with one element more behind it.
  pub one_more {κ} :
      (P : ℕ → List A → Type κ) (xs : List A) (y : A) (ys : List A)
      → P (length (xs ++ y ∷ [])) ((xs ++ y ∷ []) ++ ys)
      → P (suc (length xs)) (xs ++ y ∷ ys)
  one_more P xs y ys h =
      subst (λ n. P n (xs ++ y ∷ ys)) (length-append_one xs y)
        (subst (P (length (xs ++ y ∷ []))) (append_assoc xs (y ∷ []) ys) h)

  -- A write where an element was pushed before others followed.
  pub set_pushed :
      (xs : List A) (y v : A) (ys : List A)
      → set ((xs ++ y ∷ []) ++ ys) (length xs) v ≡ xs ++ v ∷ ys
  set_pushed [] y v ys = refl
  set_pushed (x ∷ xs) y v ys = ap (λ (zs : List A). x ∷ zs) (set_pushed xs y v ys)

  -- The same, where the element is written over another.
  pub one_written {κ} :
      (P : ℕ → List A → Type κ) (xs : List A) (y v : A) (ys : List A)
      → P (length (xs ++ v ∷ [])) ((xs ++ v ∷ []) ++ ys)
      → P (suc (length xs)) (set (xs ++ y ∷ ys) (length xs) v)
  one_written P xs y v ys h =
      subst (P (suc (length xs))) (sym (set-append_length xs y v ys)) (one_more P xs v ys h)

  pub get_elem?-replicate : (n i : ℕ) (v : A) → i < n → get_elem? (replicate n v) i ≡ some v
  get_elem?-replicate zero i v h = absurd (omega arith)
  get_elem?-replicate (suc n) zero v h = refl
  get_elem?-replicate (suc n) (suc i) v h = get_elem?-replicate n i v (omega arith)

  pub get_elem?_total : (xs : List A) (i : ℕ) → i < length xs → (a : A) × (get_elem? xs i ≡ some a)
  get_elem?_total [] i h = absurd (omega arith)
  get_elem?_total (x ∷ xs) zero h = (x, refl)
  get_elem?_total (x ∷ xs) (suc i) h = get_elem?_total xs i (omega arith)

  pub get_elem?-inside : (xs : List A) (i : ℕ) {a : A} → get_elem? xs i ≡ some a → i < length xs
  get_elem?-inside [] i h = absurd (none-ne-some _ h)
  get_elem?-inside (x ∷ xs) zero h = omega arith
  get_elem?-inside (x ∷ xs) (suc i) h = omega (arith, get_elem?-inside xs i h)

  pub get_or-replicate : (n i : ℕ) (v : A) → get_or (replicate n v) i v ≡ v
  get_or-replicate zero i v = refl
  get_or-replicate (suc n) zero v = refl
  get_or-replicate (suc n) (suc i) v = get_or-replicate n i v

  pub get_or_beyond : (xs : List A) (i : ℕ) (d : A) → length xs ≤ i → get_or xs i d ≡ d
  get_or_beyond [] i d h = refl
  get_or_beyond (x ∷ xs) zero d h = absurd (omega arith)
  get_or_beyond (x ∷ xs) (suc i) d h = get_or_beyond xs i d (omega arith)

  -- In range the default does not matter.
  pub get_or_inside :
      (xs : List A) (i : ℕ) (d d' : A) → i < length xs → get_or xs i d ≡ get_or xs i d'
  get_or_inside [] i d d' h = elim h [ ]
  get_or_inside (x ∷ xs) zero d d' h = refl
  get_or_inside (x ∷ xs) (suc i) d d' h = get_or_inside xs i d d' (omega arith)

  pub All-append {κ} :
      (Q : A → Type κ) (left right : List A) → All Q left → All Q right → All Q (left ++ right)
  All-append Q (a ∷ left) right (here, later) behind = (here, All-append Q left right later behind)
  All-append Q [] right before behind = behind

  pub All-map {κ μ} :
      (P : A → Type κ) (Q : A → Type μ) (xs : List A) → ((x : A) → P x → Q x) → All P xs → All Q xs
  All-map P Q [] f h = tt
  All-map P Q (x ∷ xs) f h = (f x h.0, All-map P Q xs f h.1)

  module _ ⦃e : Eq A⦄ where
    -- How often an element stands in a list.
    abbrev pub count : A → List A → ℕ
    count a [] = 0
    count a (x ∷ xs) = ite (e.dec x a) (suc (count a xs)) (count a xs)

    abbrev pub contains : List A → A → Bool
    contains [] a = false
    contains (x ∷ xs) a = ite (e.dec x a) true (contains xs a)

    pub count-append :
        (a : A) (left right : List A) → count a (left ++ right) ≡ count a left + count a right
    count-append a (x ∷ left) right = ground (arith, count-append a left right)
    count-append a [] right = omega arith

pub length-map {ℓ κ} :
    {A : Type ℓ} {B : Type κ} (f : A → B) (xs : List A) → length (map f xs) ≡ length xs
length-map f [] = refl
length-map f (x ∷ xs) = ap suc (length-map f xs)

pub map-append {ℓ κ} :
    {A : Type ℓ} {B : Type κ} (f : A → B) (left right : List A)
    → map f (left ++ right) ≡ map f left ++ map f right
map-append f [] right = refl
map-append f (x ∷ left) right = ap (λ ys. f x ∷ ys) (map-append f left right)

-- A write of an element with the same image.
pub map-set_same {ℓ κ} :
    {A : Type ℓ} {B : Type κ} (f : A → B) (xs : List A) (i : ℕ) (v : A) {a : A}
    → get_elem? xs i ≡ some a
    → f v ≡ f a
    → map f (set xs i v) ≡ map f xs
map-set_same f [] i v h same = refl
map-set_same f (x ∷ xs) zero v h same = cc
map-set_same f (x ∷ xs) (suc i) v h same = ap (λ ys. f x ∷ ys) (map-set_same f xs i v h same)

-- An element of a mapped list is one of the list, mapped.
pub get_elem?-map-some {ℓ κ} :
    {A : Type ℓ} {B : Type κ} (f : A → B) (xs : List A) (i : ℕ) {a : A}
    → get_elem? xs i ≡ some a
    → get_elem? (map f xs) i ≡ some (f a)
get_elem?-map-some f [] i h = cc
get_elem?-map-some f (x ∷ xs) zero h = cc
get_elem?-map-some f (x ∷ xs) (suc i) h = get_elem?-map-some f xs i h

pub get_elem?-map_source {ℓ κ} :
    {A : Type ℓ} {B : Type κ} (f : A → B) (xs : List A) (i : ℕ) {b : B}
    → get_elem? (map f xs) i ≡ some b
    → (a : A) × (get_elem? xs i ≡ some a) × (f a ≡ b)
get_elem?-map_source f [] i h = cc
get_elem?-map_source f (x ∷ xs) zero h = (x, refl, cc)
get_elem?-map_source f (x ∷ xs) (suc i) h = get_elem?-map_source f xs i h
