-- ===== src/Prelude/Text.antt =====
-- Text as a list of UTF-16 code units: `split` and `join` by a separator of one unit.
use Prim.Native.Nat.{ℕ}
use mathlib.Core.Path.{◌≡◌, refl, ap}
use mathlib.Core.Logic.{◌≢◌}
use mathlib.Core.List.{List, [], ◌∷◌, ◌++◌}
use native.Mathlib.Omega.{arith}
use yovi_es1c.Prelude.Tests.{◌==◌, if◌then◌else◌}
use yovi_es1c.Prelude.Lists.{All}

abbrev pub Text : Type 0
Text = List ℕ

abbrev pub push_head : ℕ → List Text → List Text
push_head c [] = (c ∷ []) ∷ []
push_head c (r ∷ rs) = (c ∷ r) ∷ rs

-- `s.split(sep)`; the result is never empty.
unfoldable pub split : ℕ → Text → List Text
split sep [] = [] ∷ []
split sep (c ∷ s) = let rest = split sep s in if c == sep then [] ∷ rest else push_head c rest

-- `rows.join(sep)`.
unfoldable pub join : ℕ → List Text → Text
join sep [] = []
join sep (r ∷ []) = r
join sep (r ∷ s ∷ rs) = r ++ (sep ∷ join sep (s ∷ rs))

-- The text holds no separator.
abbrev pub Without : ℕ → Text → Type 0
Without sep = All (λ c. c ≢ sep)

push_head-All :
    (sep c : ℕ) (rs : List Text)
    → c ≢ sep
    → All (Without sep) rs
    → All (Without sep) (push_head c rs)
push_head-All sep c [] ne h = ((ne, tt), tt)
push_head-All sep c (r ∷ rs) ne (h, k) = ((ne, h), k)

-- No part of a split text holds the separator.
pub split-Without : (sep : ℕ) (s : Text) → All (Without sep) (split sep s)
unfolding split
split-Without sep [] = (tt, tt)
split-Without sep (c ∷ s) = ground (arith, split-Without sep s, push_head-All sep c (split sep s))

split-append : (sep : ℕ) (r s : Text) → Without sep r → split sep (r ++ (sep ∷ s)) ≡ r ∷ split sep s
unfolding split
split-append sep [] s h = ground arith
split-append sep (c ∷ r) s (ne, h) = ground (arith, split-append sep r s h)

split_of_Without : (sep : ℕ) (r : Text) → Without sep r → split sep r ≡ r ∷ []
unfolding split
split_of_Without sep [] h = refl
split_of_Without sep (c ∷ r) (ne, h) = ground (arith, split_of_Without sep r h)

-- Splitting what was joined gives the rows back.
pub split-join :
    (sep : ℕ) (rs : List Text) → rs ≢ [] → All (Without sep) rs → split sep (join sep rs) ≡ rs
unfolding join
split-join sep [] ne h = absurd (ne refl)
split-join sep (r ∷ []) ne (h, k) = split_of_Without sep r h
split-join sep (r ∷ s ∷ rs) ne (h, k) =
    rw (split-append sep r (join sep (s ∷ rs)) h) (ap (◌∷◌ r) (split-join sep (s ∷ rs) (λ e. cc) k))

join-push_head :
    (sep c : ℕ) (rs : List Text) → rs ≢ [] → join sep (push_head c rs) ≡ c ∷ join sep rs
unfolding join
join-push_head sep c [] ne = absurd (ne refl)
join-push_head sep c (r ∷ []) ne = refl
join-push_head sep c (r ∷ s ∷ rs) ne = refl

join-nil : (sep : ℕ) (rs : List Text) → rs ≢ [] → join sep ([] ∷ rs) ≡ sep ∷ join sep rs
unfolding join
join-nil sep [] ne = absurd (ne refl)
join-nil sep (r ∷ rs) ne = refl

push_head-ne-nil : (c : ℕ) (rs : List Text) → push_head c rs ≢ []
push_head-ne-nil c [] e = cc
push_head-ne-nil c (r ∷ rs) e = cc

pub split-ne-nil : (sep : ℕ) (s : Text) → split sep s ≢ []
unfolding split
split-ne-nil sep [] e = cc
split-ne-nil sep (c ∷ s) e = ground (arith, push_head-ne-nil c (split sep s))

-- Joining what was split gives the text back.
pub join-split : (sep : ℕ) (s : Text) → join sep (split sep s) ≡ s
unfolding split
join-split sep [] = unfold join in refl
join-split sep (c ∷ s) = ground (
  arith,
  join-split sep s,
  split-ne-nil sep s,
  join-nil sep (split sep s),
  join-push_head sep c (split sep s),
)
