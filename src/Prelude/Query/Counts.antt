-- ===== src/Prelude/Query/Counts.antt =====
-- How many rows a test picks out after a query.
use Prim.Native.Nat.{◌+◌, ◌≤◌, ◌<◌}
use mathlib.Core.Path.{◌≡◌, refl, sym, ap, ◌∙◌}
use mathlib.Core.Logic.{inl, inr}
use mathlib.Core.Bool.{Bool, true, false}
use mathlib.Core.List.{List, [], ◌∷◌, ◌++◌}
use native.Mathlib.Omega.{arith}
use yovi_es1c.Prelude.Tests.{Bool-cases}
use yovi_es1c.Prelude.Lists.{All, any, ◌∈◌}
use yovi_es1c.Prelude.Query.Rows.{update_where, count_where, delete_where, All-mem, All-of_mem}

module _ {A : Type 0} where
  pub count_where-append :
      (q : A → Bool) (xs ys : List A)
      → count_where q (xs ++ ys) ≡ count_where q xs + count_where q ys
  unfolding count_where
  count_where-append q [] ys = omega arith
  count_where-append q (x ∷ xs) ys = omega (arith, count_where-append q xs ys)

  -- An update that makes no row count counts no more rows than before.
  pub count_where-update_le :
      (q p : A → Bool) (f : A → A) (xs : List A)
      → ((x : A) → q (f x) ≡ true → q x ≡ true)
      → count_where q (update_where p f xs) ≤ count_where q xs
  unfolding count_where update_where
  count_where-update_le q p f [] down = omega arith
  count_where-update_le q p f (x ∷ xs) down =
      ground (arith, down x, count_where-update_le q p f xs down)

  -- One that takes a counted row out counts fewer.
  pub count_where-update_lt :
      (q p : A → Bool) (f : A → A) (xs : List A) (y : A)
      → ((x : A) → q (f x) ≡ false)
      → y ∈ xs
      → q y ≡ true
      → p y ≡ true
      → count_where q (update_where p f xs) < count_where q xs
  unfolding count_where update_where
  count_where-update_lt q p f [] y out m c t = absurd m
  count_where-update_lt q p f (x ∷ xs) y out m c t = elim m [
    | inl e ↦
        let c' : q x ≡ true = ap q (sym e) ∙ c in
        let t' : p x ≡ true = ap p (sym e) ∙ t in
        let rest = count_where-update_le q p f xs (λ z h. absurd (let k = out z in cc)) in
        ground (arith, out x)
    | inr k ↦ let rest = count_where-update_lt q p f xs y out k c t in ground (arith, out x)
  ]

  pub count_where-none : (q : A → Bool) (xs : List A) → any q xs ≡ false → count_where q xs ≡ 0
  unfolding count_where
  count_where-none q [] e = refl
  count_where-none q (x ∷ xs) e = ground (arith, count_where-none q xs)

  pub count_where-snoc_le :
      (q : A → Bool) (xs : List A) (x : A)
      → count_where q xs ≤ 1
      → (q x ≡ true → any q xs ≡ false)
      → count_where q (xs ++ x ∷ []) ≤ 1
  unfolding count_where
  count_where-snoc_le q xs x h fresh = elim (Bool-cases (q x)) [
    | inl e ↦
        let z = count_where-none q xs (fresh e) in
        rw (count_where-append q xs (x ∷ []), e, z) (omega arith)
    | inr e ↦ rw (count_where-append q xs (x ∷ []), e) (omega arith)
  ]

  zero-none : (q : A → Bool) (xs : List A) → count_where q xs ≡ 0 → All (λ x. q x ≡ false) xs
  unfolding count_where
  zero-none q [] e = tt
  zero-none q (x ∷ xs) e = elim (Bool-cases (q x)) [
    | inl t ↦ ground arith
    | inr f ↦ let e' = rw f at e in (f, zero-none q xs (omega arith))
  ]

  pub mem-counted :
      (q : A → Bool) (xs : List A) (x : A) → x ∈ xs → q x ≡ true → 1 ≤ count_where q xs
  unfolding count_where
  mem-counted q [] x m h = absurd m
  mem-counted q (y ∷ xs) x m h = elim m [
    | inl e ↦ let h' : q y ≡ true = ap q (sym e) ∙ h in rw h' (omega arith)
    | inr k ↦ let rest = mem-counted q xs x k h in ground arith
  ]

  -- At most one row is counted: it is the only one that passes the test.
  pub counted_once :
      (q : A → Bool) (xs : List A) (x : A)
      → count_where q xs ≤ 1
      → x ∈ xs
      → q x ≡ true
      → All (λ y. q y ≡ true → y ≡ x) xs
  unfolding count_where
  counted_once q [] x c m h = tt
  counted_once q (y ∷ xs) x c m h = elim m [
    | inl e ↦
        let h' : q y ≡ true = ap q (sym e) ∙ h in
        let c' = rw h' at c in
        let none_left = zero-none q xs (omega arith) in
        (λ k. sym e, All-of_mem _ xs (λ z i k. absurd (let no = All-mem _ xs z none_left i in cc)))
    | inr i ↦
        let one = mem-counted q xs x i h in
        (λ k. absurd (let c' = rw k at c in omega arith), counted_once q xs x (ground arith) i h)
  ]

  pub count_where-delete_le :
      (q p : A → Bool) (xs : List A) → count_where q (delete_where p xs) ≤ count_where q xs
  unfolding count_where delete_where
  count_where-delete_le q p [] = omega arith
  count_where-delete_le q p (x ∷ xs) = ground (arith, count_where-delete_le q p xs)
