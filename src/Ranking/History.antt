-- ===== src/Ranking/History.antt =====
-- gameservice/src/services/RankingService.ts: the ranking of a player is the end of the player's history.
use yovi_es1c.Prelude.{
  ℕ, ◌≡◌, refl, sym, ap, ◌∙◌, inl, inr, ◌+◌, Bool, true, false, ◌==◌, ==_iff, if◌then◌else◌,
  Bool-cases, Option-cases, Option, some, none, List, [], ◌∷◌, ◌++◌, any, arith, keep, length,
}
use mathlib.Core.Path.{subst}
use yovi_es1c.Prelude.Int.{ℤ, eq_ℤ, leb_ℤ}
use yovi_es1c.Prelude.Query.{find, find-updated, find-updated_other, find-snoc, find-snoc_other}
use yovi_es1c.Ranking.Service.{
  PlayerRanking, HistoryRow, Rankings, RankingUpdateInput, RatingChange, NewRating, default_rating,
  get_by_user_id, current_row, changed_row, new_row, upsert, apply_rating_change, rate, max_ℤ,
  resolve_opponent_rating, is_local, apply_rating_update, get_k_factor,
}

-- Where a history of ratings leads from a rating, if each entry starts where the last one ended.
unfoldable pub chain : ℤ → List HistoryRow → Option ℤ
chain r [] = some r
chain r (h ∷ hs) =
    let rest = chain h.rating_after hs in if eq_ℤ h.rating_before r then rest else none

abbrev pub history_of : Rankings → ℕ → List HistoryRow
history_of db user_id = keep (λ h. h.user_id == user_id) db.history

abbrev pub row_of : Rankings → ℕ → PlayerRanking
row_of db user_id = current_row user_id (get_by_user_id db user_id)

-- The row of a player, or the one that stands for it, agrees with the history.
pub record Agrees (db : Rankings) (user_id : ℕ) : Type 0 where
  pub ends : chain default_rating (history_of db user_id) ≡ some (row_of db user_id).elo_rating
  pub counts : length (history_of db user_id) ≡ (row_of db user_id).games_played
  pub peak : leb_ℤ (row_of db user_id).elo_rating (row_of db user_id).peak_rating ≡ true

some_inj : {A : Type 0} {x y : A} → some x ≡ some y → x ≡ y
some_inj e = cc

eq_ℤ_refl : (a : ℤ) → eq_ℤ a a ≡ true
eq_ℤ_refl a = (==_iff _ _).1 refl

leb_max : (a b : ℤ) → leb_ℤ b (max_ℤ a b) ≡ true
leb_max a b = elim (Bool-cases (leb_ℤ a b)) [
  | inl h ↦ rw h (ground arith)
  | inr h ↦ rw h (ground arith)
]

chain-snoc :
    (r : ℤ) (hs : List HistoryRow) (h : HistoryRow) (x : ℤ)
    → chain r hs ≡ some x
    → h.rating_before ≡ x
    → chain r (hs ++ h ∷ []) ≡ some h.rating_after
unfolding chain
chain-snoc r [] h x e k =
    let k' : h.rating_before ≡ r = k ∙ sym (some_inj e) in rw (ap (λ b. eq_ℤ b r) k', eq_ℤ_refl r)
chain-snoc r (g ∷ hs) h x e k = elim (Bool-cases (eq_ℤ g.rating_before r)) [
  | inl same ↦ rw same (chain-snoc g.rating_after hs h x (rw same at e) k)
  | inr other ↦ absurd (let f : none ≡ some x = rw other at e in cc)
]

find-upsert_self :
    (ps : List PlayerRanking) (change : RatingChange) (now : ℕ)
    → (p : PlayerRanking) × (find (λ p. p.user_id == change.user_id) (upsert ps change now)
        ≡ some p)
      × (p.elo_rating ≡ change.rating_after)
      × (p.games_played ≡ change.games_played_after)
      × (p.peak_rating ≡ change.peak_rating)
unfolding upsert
find-upsert_self ps change now = elim (Bool-cases (any mine ps)) [
  | inl h ↦
      let (p, e) = find-updated mine (changed_row change now) ps (λ x. refl) h in
      (changed_row change now p, rw h e, refl, refl, refl)
  | inr h ↦ (
    new_row change now,
    rw h (find-snoc mine ps (new_row change now) h ((==_iff _ _).1 refl)),
    refl,
    refl,
    refl,
  )
]
  where
    mine : PlayerRanking → Bool
    mine p = p.user_id == change.user_id

find-upsert_other :
    (ps : List PlayerRanking) (change : RatingChange) (now user_id : ℕ)
    → (change.user_id == user_id) ≡ false
    → find (λ p. p.user_id == user_id) (upsert ps change now) ≡ find (λ p. p.user_id == user_id) ps
unfolding upsert
find-upsert_other ps change now user_id other = elim (Bool-cases (any mine ps)) [
  | inl h ↦ rw h (
      find-updated_other (λ p. p.user_id == user_id) mine (changed_row change now) ps
        (λ x k. apart x k))
  | inr h ↦ rw h (find-snoc_other (λ p. p.user_id == user_id) ps (new_row change now) other)
]
  where
    mine : PlayerRanking → Bool
    mine p = p.user_id == change.user_id

    apart :
        (x : PlayerRanking)
        → (x.user_id == change.user_id) ≡ true
        → ((x.user_id == user_id) ≡ false) × ((x.user_id == user_id) ≡ false)
    apart x k =
        let e : (x.user_id == user_id) ≡ false =
          ap (λ i. i == user_id) ((==_iff _ _).0 k) ∙ other in
        (e, e)

keep-snoc_in :
    (q : HistoryRow → Bool) (hs : List HistoryRow) (h : HistoryRow)
    → q h ≡ true
    → keep q (hs ++ h ∷ []) ≡ keep q hs ++ h ∷ []
keep-snoc_in q [] h k = rw k
keep-snoc_in q (g ∷ hs) h k = elim (Bool-cases (q g)) [
  | inl e ↦ rw (e, keep-snoc_in q hs h k)
  | inr e ↦ rw (e, keep-snoc_in q hs h k)
]

keep-snoc_out :
    (q : HistoryRow → Bool) (hs : List HistoryRow) (h : HistoryRow)
    → q h ≡ false
    → keep q (hs ++ h ∷ []) ≡ keep q hs
keep-snoc_out q [] h k = rw k
keep-snoc_out q (g ∷ hs) h k = rw (keep-snoc_out q hs h k)

length-snoc : (hs : List HistoryRow) (h : HistoryRow) → length (hs ++ h ∷ []) ≡ length hs + 1
length-snoc [] h = omega arith
length-snoc (g ∷ hs) h = omega (arith, length-snoc hs h)

entry : RatingChange → HistoryRow
entry change = record {
  user_id = change.user_id;
  match_id = change.match_id;
  rating_before = change.rating_before;
  rating_after = change.rating_after;
  delta = change.delta;
}

change-Agrees_self :
    (db : Rankings) (change : RatingChange) (now : ℕ)
    → Agrees db change.user_id
    → change.rating_before ≡ (row_of db change.user_id).elo_rating
    → change.games_played_after ≡ (row_of db change.user_id).games_played + 1
    → leb_ℤ change.rating_after change.peak_rating ≡ true
    → Agrees (apply_rating_change db change now) change.user_id
unfolding apply_rating_change get_by_user_id entry
change-Agrees_self db change now a before games peak =
    let (p, found, elo, played, top) = find-upsert_self db.players change now in
    let row : row_of (apply_rating_change db change now) change.user_id ≡ p =
      ap (current_row change.user_id) found in
    let more : history_of (apply_rating_change db change now) change.user_id
        ≡ history_of db change.user_id ++ entry change ∷ [] =
      keep-snoc_in (λ h. h.user_id == change.user_id) db.history (entry change)
        ((==_iff _ _).1 refl) in
    record {
      ends =
          ap (chain default_rating) more
          ∙ chain-snoc default_rating (history_of db change.user_id) (entry change) _ a.ends before
          ∙ ap some (sym (ap (λ (x : PlayerRanking). x.elo_rating) row ∙ elo));
      counts =
          ap length more
          ∙ length-snoc (history_of db change.user_id) (entry change)
          ∙ ap (λ (n : ℕ). n + 1) a.counts
          ∙ sym (ap (λ (x : PlayerRanking). x.games_played) row ∙ played ∙ games);
      peak = rw (row, elo, top) peak;
    }

change-Agrees_other :
    (db : Rankings) (change : RatingChange) (now user_id : ℕ)
    → (change.user_id == user_id) ≡ false
    → Agrees db user_id
    → Agrees (apply_rating_change db change now) user_id
unfolding apply_rating_change get_by_user_id entry
change-Agrees_other db change now user_id other a =
    let row : row_of (apply_rating_change db change now) user_id ≡ row_of db user_id =
      ap (current_row user_id) (find-upsert_other db.players change now user_id other) in
    let as_before : history_of (apply_rating_change db change now) user_id ≡ history_of db user_id =
      keep-snoc_out (λ h. h.user_id == user_id) db.history (entry change) other in
    record {
      ends =
          ap (chain default_rating) as_before
          ∙ a.ends
          ∙ ap some (sym (ap (λ (x : PlayerRanking). x.elo_rating) row));
      counts =
          ap length as_before ∙ a.counts ∙ sym (ap (λ (x : PlayerRanking). x.games_played) row);
      peak = rw row a.peak;
    }

rate-Agrees :
    (calculate : NewRating) (db : Rankings) (input : RankingUpdateInput) (opponent : ℤ)
    (now user_id : ℕ)
    → Agrees db user_id
    → Agrees (rate calculate db input opponent now).0 user_id
unfolding rate
rate-Agrees calculate db input opponent now user_id a =
    elim (Bool-cases (input.user_id == user_id)) [
      | inl same ↦
          let e : input.user_id ≡ user_id = (==_iff _ _).0 same in
          subst (Agrees (rate calculate db input opponent now).0) e (
            change-Agrees_self db _ now (subst (Agrees db) (sym e) a) refl refl (
              leb_max (row_of db input.user_id).peak_rating (
                calculate (row_of db input.user_id).elo_rating opponent input.result
                  (get_k_factor (row_of db input.user_id).games_played))))
      | inr other ↦ change-Agrees_other db _ now user_id other a
    ]

pub update-Agrees :
    (calculate : NewRating) (db : Rankings) (input : RankingUpdateInput) (now user_id : ℕ)
    → Agrees db user_id
    → Agrees (apply_rating_update calculate db input now).0 user_id
unfolding apply_rating_update
update-Agrees calculate db input now user_id a = elim (Bool-cases (is_local input.mode)) [
  | inl h ↦ rw (h, apply_rating_update) a
  | inr h ↦ elim (Option-cases (resolve_opponent_rating input)) [
    | inl e ↦ rw (h, e, apply_rating_update) a
    | inr (opponent, e) ↦
        rw (h, e, apply_rating_update) (rate-Agrees calculate db input opponent now user_id a)
  ]
]

unfoldable pub run : NewRating → Rankings → List (RankingUpdateInput × ℕ) → Rankings
run calculate db [] = db
run calculate db ((input, now) ∷ inputs) =
    run calculate (apply_rating_update calculate db input now).0 inputs

abbrev pub no_rows : Rankings
no_rows = record { players = []; history = [] }

from-Agrees :
    (calculate : NewRating) (db : Rankings) (inputs : List (RankingUpdateInput × ℕ)) (user_id : ℕ)
    → Agrees db user_id
    → Agrees (run calculate db inputs) user_id
unfolding run
from-Agrees calculate db [] user_id a = a
from-Agrees calculate db ((input, now) ∷ inputs) user_id a =
    from-Agrees calculate (apply_rating_update calculate db input now).0 inputs user_id
      (update-Agrees calculate db input now user_id a)

-- After any rating updates from empty tables, whatever the formula of the ratings: the history of a
-- player leads from 1200, each entry starting where the last one ended, to the rating in the player's
-- row; the games played are the entries of the history; and the peak is not below the rating. A
-- player without a row has 1200 and no games.
pub run-Agrees :
    (calculate : NewRating) (inputs : List (RankingUpdateInput × ℕ)) (user_id : ℕ)
    → Agrees (run calculate no_rows inputs) user_id
unfolding chain get_by_user_id find
run-Agrees calculate inputs user_id =
    from-Agrees calculate no_rows inputs user_id
      (record { ends = refl; counts = refl; peak = refl })
