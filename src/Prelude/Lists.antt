-- ===== src/Prelude/Lists.antt =====
-- Lists measured and indexed by native numbers, and predicates on them by recursion.
use Prim.Native.Nat.{ℕ, zero, suc, ◌+◌, ◌<◌}
use mathlib.Core.Path.{◌≡◌, refl, ap}
use mathlib.Core.Logic.{◌≢◌, ◌↔◌, ◌⊎◌, inl, inr}
use mathlib.Core.Bool.{Bool, true, false, ◌||◌, ◌&&◌}
use mathlib.Core.List.{List, [], ◌∷◌, ◌++◌, map}
use mathlib.Core.Option.{Option, none, some}
use native.Mathlib.Omega.{arith}
use yovi_es1c.Prelude.Tests.{if◌then◌else◌}

module _ {ℓ} {A : Type ℓ} where
  abbrev pub length : List A → ℕ
  length [] = 0
  length (x ∷ xs) = suc (length xs)

  abbrev pub get_elem? : List A → ℕ → Option A
  get_elem? [] i = none
  get_elem? (x ∷ xs) zero = some x
  get_elem? (x ∷ xs) (suc i) = get_elem? xs i

  abbrev pub get_or : List A → ℕ → A → A
  get_or [] i d = d
  get_or (x ∷ xs) zero d = x
  get_or (x ∷ xs) (suc i) d = get_or xs i d

  -- A write out of bounds changes nothing.
  abbrev pub set : List A → ℕ → A → List A
  set [] i v = []
  set (x ∷ xs) zero v = v ∷ xs
  set (x ∷ xs) (suc i) v = x ∷ set xs i v

  abbrev pub take : ℕ → List A → List A
  take zero xs = []
  take (suc n) [] = []
  take (suc n) (x ∷ xs) = x ∷ take n xs

  abbrev pub drop : ℕ → List A → List A
  drop zero xs = xs
  drop (suc n) [] = []
  drop (suc n) (x ∷ xs) = drop n xs

  abbrev pub replicate : ℕ → A → List A
  replicate zero a = []
  replicate (suc n) a = a ∷ replicate n a

  -- `Array.prototype.filter`, `some` and `find`, with the test as a Boolean function.
  abbrev pub keep : (A → Bool) → List A → List A
  keep p [] = []
  keep p (x ∷ xs) = let rest = keep p xs in if p x then x ∷ rest else rest

  abbrev pub any : (A → Bool) → List A → Bool
  any p [] = false
  any p (x ∷ xs) = p x || any p xs

  abbrev pub all : (A → Bool) → List A → Bool
  all p [] = true
  all p (x ∷ xs) = p x && all p xs

  pub length-append : (xs ys : List A) → length (xs ++ ys) ≡ length xs + length ys
  length-append [] ys = omega arith
  length-append (x ∷ xs) ys = omega (arith, length-append xs ys)

  pub length-set : (xs : List A) (i : ℕ) (v : A) → length (set xs i v) ≡ length xs
  length-set [] i v = refl
  length-set (x ∷ xs) zero v = refl
  length-set (x ∷ xs) (suc i) v = ap suc (length-set xs i v)

  pub get_elem?-set_self :
      (xs : List A) (i : ℕ) (v : A) → i < length xs → get_elem? (set xs i v) i ≡ some v
  get_elem?-set_self [] i v h = elim h [ ]
  get_elem?-set_self (x ∷ xs) zero v h = refl
  get_elem?-set_self (x ∷ xs) (suc i) v h = get_elem?-set_self xs i v (omega arith)

  pub get_elem?-set_ne :
      (xs : List A) (i j : ℕ) (v : A) → i ≢ j → get_elem? (set xs i v) j ≡ get_elem? xs j
  get_elem?-set_ne [] i j v h = refl
  get_elem?-set_ne (x ∷ xs) zero zero v h = absurd (h refl)
  get_elem?-set_ne (x ∷ xs) zero (suc j) v h = refl
  get_elem?-set_ne (x ∷ xs) (suc i) zero v h = refl
  get_elem?-set_ne (x ∷ xs) (suc i) (suc j) v h = get_elem?-set_ne xs i j v (λ e. h (ap suc e))

  pub get_elem?-eq-get_or :
      (xs : List A) (i : ℕ) (d : A) → i < length xs → get_elem? xs i ≡ some (get_or xs i d)
  get_elem?-eq-get_or [] i d h = elim h [ ]
  get_elem?-eq-get_or (x ∷ xs) zero d h = refl
  get_elem?-eq-get_or (x ∷ xs) (suc i) d h = get_elem?-eq-get_or xs i d (omega arith)

  -- Writing by slices, `s.slice(0, i) + v + s.slice(i + 1)`, is writing in place.
  pub take-drop-set :
      (xs : List A) (i : ℕ) (v : A)
      → i < length xs
      → take i xs ++ (v ∷ drop (suc i) xs) ≡ set xs i v
  take-drop-set [] i v h = elim h [ ]
  take-drop-set (x ∷ xs) zero v h = refl
  take-drop-set (x ∷ xs) (suc i) v h = ap (◌∷◌ x) (take-drop-set xs i v (omega arith))

module _ {ℓ κ} {A : Type ℓ} (P : A → Type κ) where
  abbrev pub All : List A → Type κ
  All [] = Unit
  All (x ∷ xs) = P x × All xs

  pub All-append : (xs ys : List A) → All xs → All ys → All (xs ++ ys)
  All-append [] ys h k = k
  All-append (x ∷ xs) ys (p, h) k = (p, All-append xs ys h k)

  pub All-set : (xs : List A) (i : ℕ) (v : A) → All xs → P v → All (set xs i v)
  All-set [] i v h p = tt
  All-set (x ∷ xs) zero v (q, h) p = (p, h)
  All-set (x ∷ xs) (suc i) v (q, h) p = (q, All-set xs i v h p)

  pub All-get_or : (xs : List A) (i : ℕ) (d : A) → All xs → P d → P (get_or xs i d)
  All-get_or [] i d h p = p
  All-get_or (x ∷ xs) zero d (q, h) p = q
  All-get_or (x ∷ xs) (suc i) d (q, h) p = All-get_or xs i d h p

-- Membership by recursion.
infix 4 ◌∈◌
abbrev pub ◌∈◌ : {A : Type 0} → A → List A → Type 0
a ∈ [] = ⊥
a ∈ (x ∷ xs) = (a ≡ x) ⊎ (a ∈ xs)

pub mem-append : {A : Type 0} (a : A) (xs ys : List A) → (a ∈ (xs ++ ys)) ↔ ((a ∈ xs) ⊎ (a ∈ ys))
mem-append a [] ys = (λ h. inr h, λ h. elim h [ inl n ↦ absurd n | inr m ↦ m ])
mem-append a (x ∷ xs) ys =
    let (to, from) = mem-append a xs ys in
    (
      λ h. elim h [
        | inl e ↦ inl (inl e)
        | inr m ↦ elim (to m) [ inl k ↦ inl (inr k) | inr k ↦ inr k ]
      ],
      λ h. elim h [
        | inl k ↦ elim k [ inl e ↦ inl e | inr m ↦ inr (from (inl m)) ]
        | inr k ↦ inr (from (inr k))
      ],
    )

pub mem-keep :
    {A : Type 0} (p : A → Bool) (a : A) (xs : List A) → (a ∈ keep p xs) ↔ ((a ∈ xs) × (p a ≡ true))
mem-keep p a [] = (λ h. absurd h, λ h. h.0)
mem-keep p a (x ∷ xs) = ground (arith, mem-keep p a xs)

pub mem-map : {A B : Type 0} (f : A → B) (a : A) (xs : List A) → a ∈ xs → f a ∈ map f xs
mem-map f a [] m = m
mem-map f a (x ∷ xs) m = elim m [ inl e ↦ inl (ap f e) | inr k ↦ inr (mem-map f a xs k) ]

pub mem-map_inv :
    {A B : Type 0} (f : A → B) (b : B) (xs : List A) → b ∈ map f xs → (a : A) × (a ∈ xs) × (b ≡ f a)
mem-map_inv f b [] m = absurd m
mem-map_inv f b (x ∷ xs) m = elim m [
  | inl e ↦ (x, inl refl, e)
  | inr k ↦ let (a, h, e) = mem-map_inv f b xs k in (a, inr h, e)
]

pub get_elem?-mem : {A : Type 0} (xs : List A) (i : ℕ) (a : A) → get_elem? xs i ≡ some a → a ∈ xs
get_elem?-mem [] i a e = cc
get_elem?-mem (x ∷ xs) zero a e = inl (cc)
get_elem?-mem (x ∷ xs) (suc i) a e = inr (get_elem?-mem xs i a e)

pub mem-nil_of_length : {A : Type 0} (xs : List A) → length xs ≡ 0 → (a : A) → ¬ (a ∈ xs)
mem-nil_of_length [] h a m = m
mem-nil_of_length (x ∷ xs) h a m = absurd (omega arith)
