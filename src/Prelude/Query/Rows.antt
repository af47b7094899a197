-- ===== src/Prelude/Query/Rows.antt =====
-- Queries of tables as lists of rows, and which rows they leave.
use Prim.Native.Nat.{ℕ, ◌+◌}
use mathlib.Core.Path.{◌≡◌, refl, sym, ap, ◌∙◌, subst}
use mathlib.Core.Logic.{◌⊎◌, inl, inr}
use mathlib.Core.Bool.{Bool, true, false, ◌||◌}
use mathlib.Core.List.{List, [], ◌∷◌, ◌++◌}
use mathlib.Core.Option.{Option, none, some}
use native.Mathlib.Omega.{arith}
use yovi_es1c.Prelude.Tests.{if◌then◌else◌, Bool-cases}
use yovi_es1c.Prelude.Lists.{All, any, ◌∈◌}

module _ {A : Type 0} where
  -- The first row that the test picks out.
  unfoldable pub find : (A → Bool) → List A → Option A
  find p [] = none
  find p (x ∷ xs) = let rest = find p xs in if p x then some x else rest

  -- UPDATE … SET … WHERE.
  unfoldable pub update_where : (A → Bool) → (A → A) → List A → List A
  update_where p f [] = []
  update_where p f (x ∷ xs) = (if p x then f x else x) ∷ update_where p f xs

  -- The row count of an UPDATE, and SELECT COUNT(*).
  unfoldable pub count_where : (A → Bool) → List A → ℕ
  count_where p [] = 0
  count_where p (x ∷ xs) = (if p x then 1 else 0) + count_where p xs

  -- Every row of an updated table is an old row, updated or as it was.
  pub All-update_where {κ} :
      (P : A → Type κ) (p : A → Bool) (f : A → A) (xs : List A)
      → ((x : A) → P x → P (f x))
      → All P xs
      → All P (update_where p f xs)
  unfolding update_where
  All-update_where P p f [] keeps h = tt
  All-update_where P p f (x ∷ xs) keeps (q, h) = (go (p x), All-update_where P p f xs keeps h)
    where
      go : (b : Bool) → P (if b then f x else x)
      go true = keeps x q
      go false = q

  pub All-mem {κ} : (P : A → Type κ) (xs : List A) (x : A) → All P xs → x ∈ xs → P x
  All-mem P (y ∷ xs) x (q, h) m = elim m [ inl e ↦ subst P (sym e) q | inr k ↦ All-mem P xs x h k ]
  All-mem P [] x h m = absurd m

  pub All-of_mem {κ} : (P : A → Type κ) (xs : List A) → ((x : A) → x ∈ xs → P x) → All P xs
  All-of_mem P [] h = tt
  All-of_mem P (x ∷ xs) h = (h x (inl refl), All-of_mem P xs (λ y m. h y (inr m)))

  -- An update makes no new rows.
  pub any-update_where :
      (q p : A → Bool) (f : A → A) (xs : List A)
      → ((x : A) → q (f x) ≡ q x)
      → any q (update_where p f xs) ≡ any q xs
  unfolding update_where
  any-update_where q p f [] same = refl
  any-update_where q p f (x ∷ xs) same = ground (arith, same x, any-update_where q p f xs same)

  pub any-append : (q : A → Bool) (xs ys : List A) → any q (xs ++ ys) ≡ (any q xs || any q ys)
  any-append q [] ys = refl
  any-append q (x ∷ xs) ys = ground (arith, any-append q xs ys)

  pub any-mem : (q : A → Bool) (xs : List A) (x : A) → x ∈ xs → q x ≡ true → any q xs ≡ true
  any-mem q [] x m h = absurd m
  any-mem q (y ∷ xs) x m h = elim m [
    | inl e ↦ let h' : q y ≡ true = ap q (sym e) ∙ h in rw h'
    | inr k ↦ let rest = any-mem q xs x k h in ground arith
  ]

  -- ORDER BY: `before x y` says that `x` may stand before `y`.
  abbrev pub place_by : (A → A → Bool) → A → List A → List A
  place_by before x [] = x ∷ []
  place_by before x (y ∷ ys) =
      let rest = place_by before x ys in if before x y then x ∷ y ∷ ys else y ∷ rest

  unfoldable pub sort_by : (A → A → Bool) → List A → List A
  sort_by before [] = []
  sort_by before (x ∷ xs) = place_by before x (sort_by before xs)

  any-place_by :
      (q : A → Bool) (before : A → A → Bool) (x : A) (xs : List A)
      → any q (place_by before x xs) ≡ any q (x ∷ xs)
  any-place_by q before x [] = refl
  any-place_by q before x (y ∷ ys) = ground (arith, any-place_by q before x ys)

  -- Sorting keeps the rows.
  pub any-sort_by :
      (q : A → Bool) (before : A → A → Bool) (xs : List A) → any q (sort_by before xs) ≡ any q xs
  unfolding sort_by
  any-sort_by q before [] = refl
  any-sort_by q before (x ∷ xs) =
      any-place_by q before x (sort_by before xs) ∙ ap (λ b. q x || b) (any-sort_by q before xs)

  -- DELETE … WHERE.
  unfoldable pub delete_where : (A → Bool) → List A → List A
  delete_where p [] = []
  delete_where p (x ∷ xs) = let rest = delete_where p xs in if p x then rest else x ∷ rest

  pub any-none : (q : A → Bool) (xs : List A) → All (λ x. q x ≡ false) xs → any q xs ≡ false
  any-none q [] h = refl
  any-none q (x ∷ xs) (e, h) = ground (arith, any-none q xs h)

  pub any-witness :
      (q : A → Bool) (xs : List A) → any q xs ≡ true → (x : A) × (x ∈ xs) × (q x ≡ true)
  any-witness q [] e = absurd (let f : false ≡ true = e in cc)
  any-witness q (x ∷ xs) e = elim (Bool-cases (q x)) [
    | inl h ↦ (x, inl refl, h)
    | inr h ↦ let (y, m, k) = any-witness q xs (rw h at e) in (y, inr m, k)
  ]

  pub All-delete_where {κ} :
      (P : A → Type κ) (p : A → Bool) (xs : List A) → All P xs → All P (delete_where p xs)
  unfolding delete_where
  All-delete_where P p [] h = tt
  All-delete_where P p (x ∷ xs) (q, h) = elim (Bool-cases (p x)) [
    | inl e ↦ rw e (All-delete_where P p xs h)
    | inr e ↦ rw e (q, All-delete_where P p xs h)
  ]

  -- A row after a deletion was there before, and the test does not pick it.
  pub mem-delete_where :
      (p : A → Bool) (xs : List A) (y : A) → y ∈ delete_where p xs → (y ∈ xs) × (p y ≡ false)
  unfolding delete_where
  mem-delete_where p [] y m = absurd m
  mem-delete_where p (x ∷ xs) y m = elim (Bool-cases (p x)) [
    | inl e ↦ let r = mem-delete_where p xs y (rw e at m) in (inr r.0, r.1)
    | inr e ↦ elim (rw e at m) [
      | inl k ↦ (inl k, ap p k ∙ e)
      | inr k ↦ let r = mem-delete_where p xs y k in (inr r.0, r.1)
    ]
  ]

  -- A row after an update is an old row that the test does not pick, or the update of one.
  pub mem-update_where :
      (p : A → Bool) (f : A → A) (xs : List A) (y : A)
      → y ∈ update_where p f xs
      → (x : A) × (x ∈ xs) × (((y ≡ x) × (p x ≡ false)) ⊎ ((y ≡ f x) × (p x ≡ true)))
  unfolding update_where
  mem-update_where p f [] y m = absurd m
  mem-update_where p f (x ∷ xs) y m = elim m [
    | inl e ↦ elim (Bool-cases (p x)) [
      | inl h ↦ (x, inl refl, inr (e ∙ rw h, h))
      | inr h ↦ (x, inl refl, inl (e ∙ rw h, h))
    ]
    | inr k ↦ let (z, i, r) = mem-update_where p f xs y k in (z, inr i, r)
  ]
