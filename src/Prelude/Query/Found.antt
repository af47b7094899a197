-- ===== src/Prelude/Query/Found.antt =====
-- Which row is found first after a query.
use mathlib.Core.Path.{◌≡◌, refl}
use mathlib.Core.Logic.{inl, inr}
use mathlib.Core.Bool.{Bool, true, false}
use mathlib.Core.List.{List, [], ◌∷◌, ◌++◌}
use mathlib.Core.Option.{none, some}
use native.Mathlib.Omega.{arith}
use yovi_es1c.Prelude.Tests.{Bool-cases}
use yovi_es1c.Prelude.Lists.{All, any, ◌∈◌}
use yovi_es1c.Prelude.Query.Rows.{find, update_where}

module _ {A : Type 0} where
  pub find-mem : (p : A → Bool) (xs : List A) (x : A) → find p xs ≡ some x → (x ∈ xs) × (p x ≡ true)
  unfolding find
  find-mem p [] x e = cc
  find-mem p (y ∷ xs) x e = ground (arith, find-mem p xs x)

  pub find-none : (p : A → Bool) (xs : List A) → find p xs ≡ none → All (λ x. p x ≡ false) xs
  unfolding find
  find-none p [] e = tt
  find-none p (x ∷ xs) e = elim (Bool-cases (p x)) [
    | inl h ↦ absurd (let f : some x ≡ none = rw h at e in cc)
    | inr h ↦ (h, find-none p xs (rw h at e))
  ]

  -- A row that is appended is found when it is the first that passes the test, and else it does not
  -- matter.
  pub find-snoc :
      (p : A → Bool) (xs : List A) (x : A)
      → any p xs ≡ false
      → p x ≡ true
      → find p (xs ++ x ∷ []) ≡ some x
  unfolding find
  find-snoc p [] x h k = rw k
  find-snoc p (y ∷ xs) x h k = elim (Bool-cases (p y)) [
    | inl e ↦ absurd (let f : true ≡ false = rw e at h in cc)
    | inr e ↦ rw e (find-snoc p xs x (rw e at h) k)
  ]

  pub find-snoc_other :
      (p : A → Bool) (xs : List A) (x : A) → p x ≡ false → find p (xs ++ x ∷ []) ≡ find p xs
  unfolding find
  find-snoc_other p [] x k = rw k
  find-snoc_other p (y ∷ xs) x k = rw (find-snoc_other p xs x k)

  pub find-updated :
      (p : A → Bool) (f : A → A) (xs : List A)
      → ((x : A) → p (f x) ≡ p x)
      → any p xs ≡ true
      → (y : A) × (find p (update_where p f xs) ≡ some (f y))
  unfolding find update_where
  find-updated p f [] same h = absurd (let g : false ≡ true = h in cc)
  find-updated p f (x ∷ xs) same h = elim (Bool-cases (p x)) [
    | inl e ↦ (x, rw (e, same x, e))
    | inr e ↦ let (y, k) = find-updated p f xs same (rw e at h) in (y, rw (e, e) k)
  ]

  pub find-updated_other :
      (q p : A → Bool) (f : A → A) (xs : List A)
      → ((x : A) → p x ≡ true → (q x ≡ false) × (q (f x) ≡ false))
      → find q (update_where p f xs) ≡ find q xs
  unfolding find update_where
  find-updated_other q p f [] apart = refl
  find-updated_other q p f (x ∷ xs) apart = elim (Bool-cases (p x)) [
    | inl e ↦ rw (e, (apart x e).0, (apart x e).1) (find-updated_other q p f xs apart)
    | inr e ↦ rw (e, find-updated_other q p f xs apart)
  ]
