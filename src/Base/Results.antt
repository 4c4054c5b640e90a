-- ===== src/Base/Results.antt =====
-- `Result<T, E>`, and the `?` operator as its bind.
use mathlib.Core.Logic.{◌⊎◌, inl, inr}
use mathlib.Core.Path.{◌≡◌, refl, subst}

pub data Result {ℓ κ} (E : Type κ) (A : Type ℓ) : Type (ℓ ⊔ κ) where
  ok : A → Result E A
  err : E → Result E A

infixl 5 ◌>>=◌ ◌>>◌
abbrev pub ◌>>=◌ {ℓ κ μ} :
    {E : Type κ} {A : Type ℓ} {B : Type μ} → Result E A → (A → Result E B) → Result E B
ok a >>= f = f a
err e >>= f = err e

abbrev pub ◌>>◌ {ℓ κ μ} :
    {E : Type κ} {A : Type ℓ} {B : Type μ} → Result E A → Result E B → Result E B
m >> k = m >>= λ _. k

-- Inversion of a `?` that went on.
pub >>=-eq-ok {ℓ κ μ} :
    {E : Type κ} {A : Type ℓ} {B : Type μ} (first : Result E A) (next : A → Result E B) {end : B}
    → (first >>= next) ≡ ok end
    → (middle : A) × (first ≡ ok middle) × (next middle ≡ ok end)
>>=-eq-ok (err e) next went = cc
>>=-eq-ok (ok middle) next went = (middle, refl, went)

pub ok-injective {ℓ κ} :
    {E : Type κ} {A : Type ℓ} {a b : A} → ◌≡◌ {A = Result E A} (ok a) (ok b) → a ≡ b
ok-injective h = cc

pub ok-ne-err {ℓ κ} :
    {E : Type κ} {A : Type ℓ} {a : A} {e : E} → ¬ (◌≡◌ {A = Result E A} (ok a) (err e))
ok-ne-err h = cc

-- Two chains with equal tails, and a chain regrouped.
pub >>=-congruent {ℓ κ μ} :
    {E : Type κ} {A : Type ℓ} {B : Type μ} (m : Result E A) (f g : A → Result E B)
    → ((a : A) → f a ≡ g a)
    → (m >>= f) ≡ (m >>= g)
>>=-congruent (ok a) f g h = h a
>>=-congruent (err e) f g h = refl

pub >>=-assoc {ℓ κ μ ν} :
    {E : Type κ} {A : Type ℓ} {B : Type μ} {C : Type ν} (m : Result E A) (f : A → Result E B)
    (g : B → Result E C)
    → ((m >>= f) >>= g) ≡ (m >>= λ a. f a >>= g)
>>=-assoc (ok a) f g = refl
>>=-assoc (err e) f g = refl

-- What holds of the outcome that is written out holds of the one that is named.
pub ok_carries {ℓ κ μ} :
    {E : Type κ} {A : Type ℓ} (P : A → Type μ) {a b : A}
    → ◌≡◌ {A = Result E A} (ok a) (ok b)
    → P a
    → P b
ok_carries P h holds = subst P (ok-injective h) holds

abbrev pub map_err {ℓ κ μ} :
    {E : Type κ} {F : Type μ} {A : Type ℓ} → (E → F) → Result E A → Result F A
map_err f (ok a) = ok a
map_err f (err e) = err (f e)

pub map_err-eq-ok {ℓ κ μ} :
    {E : Type κ} {F : Type μ} {A : Type ℓ} (f : E → F) (r : Result E A) {a : A}
    → map_err f r ≡ ok a
    → r ≡ ok a
map_err-eq-ok f (ok a) h = cc
map_err-eq-ok f (err e) h = cc

pub Result-cases {ℓ κ} :
    {E : Type κ} {A : Type ℓ} (r : Result E A) → ((a : A) × (r ≡ ok a)) ⊎ ((e : E) × (r ≡ err e))
Result-cases (ok a) = inl (a, refl)
Result-cases (err e) = inr (e, refl)
