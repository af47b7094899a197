-- ===== src/Ranking/Service.antt =====
-- gameservice/src/types/ranking.ts, services/RankingService.ts and repositories/RankingRepository.ts:
-- the tables player_rankings and ranking_history as lists of rows. The floating-point value of
-- calculateNewRating is a parameter, and an update is one step.
use Prim.Native.String.{String}
use yovi_es1c.Prelude.{
  ℕ, ◌+◌, Bool, true, false, ◌&&◌, ◌||◌, ◌==◌, ltb, if◌then◌else◌, Option, none, some, List, [],
  ◌∷◌, ◌++◌, any, length, take, drop,
}
use yovi_es1c.Prelude.Int.{ℤ, pos, ◌-ℤ◌, ltb_ℤ, leb_ℤ, eq_ℤ}
use yovi_es1c.Prelude.Query.{find, update_where, count_where, sort_by}

pub data MatchMode : Type 0 where
  bot_mode online_mode local_mode : MatchMode

pub data MatchDifficulty : Type 0 where
  easy medium hard impossible : MatchDifficulty

pub data MatchResult : Type 0 where
  win loss : MatchResult

pub record PlayerRanking : Type 0 where
  pub user_id : ℕ
  pub username : Option String
  pub elo_rating : ℤ
  pub games_played : ℕ
  pub peak_rating : ℤ
  pub last_updated : ℕ

pub record HistoryRow : Type 0 where
  pub user_id : ℕ
  pub match_id : ℕ
  pub rating_before : ℤ
  pub rating_after : ℤ
  pub delta : ℤ

pub record Rankings : Type 0 where
  pub players : List PlayerRanking
  pub history : List HistoryRow

pub record RankingUpdateInput : Type 0 where
  pub user_id : ℕ
  pub match_id : ℕ
  pub mode : MatchMode
  pub result : MatchResult
  pub username : Option String
  pub difficulty : Option MatchDifficulty
  pub opponent_rating : Option ℤ

pub record RatingChange : Type 0 where
  pub user_id : ℕ
  pub username : Option String
  pub match_id : ℕ
  pub rating_before : ℤ
  pub rating_after : ℤ
  pub delta : ℤ
  pub games_played_after : ℕ
  pub peak_rating : ℤ

-- A TypeError, null, or the ratings before and after with their difference.
pub data UpdateAnswer : Type 0 where
  type_error no_update : UpdateAnswer
  updated : ℤ → ℤ → ℤ → UpdateAnswer

abbrev pub default_rating : ℤ
default_rating = pos 1200

unfoldable pub get_k_factor : ℕ → ℕ
get_k_factor games_played = if ltb games_played 30 then 40 else 20

unfoldable pub get_opponent_rating_for_bot : MatchDifficulty → ℤ
get_opponent_rating_for_bot easy = pos 1000
get_opponent_rating_for_bot medium = pos 1300
get_opponent_rating_for_bot hard = pos 1600
get_opponent_rating_for_bot impossible = pos 1900

unfoldable pub get_by_user_id : Rankings → ℕ → Option PlayerRanking
get_by_user_id db user_id = find (λ p. p.user_id == user_id) db.players

abbrev pub rating_or_default : Option PlayerRanking → ℤ
rating_or_default none = default_rating
rating_or_default (some p) = p.elo_rating

unfoldable pub get_opponent_rating_for_user : Rankings → ℕ → ℤ
get_opponent_rating_for_user db user_id = rating_or_default (get_by_user_id db user_id)

unfoldable pub resolve_opponent_rating : RankingUpdateInput → Option ℤ
resolve_opponent_rating input = elim input.mode [
  | bot_mode ↦ elim input.difficulty [
    | none ↦ none
    | some difficulty ↦ some (get_opponent_rating_for_bot difficulty)
  ]
  | online_mode ↦ input.opponent_rating
  | local_mode ↦ input.opponent_rating
]

abbrev pub coalesce : Option String → Option String → Option String
coalesce none old = old
coalesce (some new) old = some new

abbrev pub changed_row : RatingChange → ℕ → PlayerRanking → PlayerRanking
changed_row change now p = record p {
  username = coalesce change.username p.username;
  elo_rating = change.rating_after;
  games_played = change.games_played_after;
  peak_rating = change.peak_rating;
  last_updated = now;
}

abbrev pub new_row : RatingChange → ℕ → PlayerRanking
new_row change now = record {
  user_id = change.user_id;
  username = change.username;
  elo_rating = change.rating_after;
  games_played = change.games_played_after;
  peak_rating = change.peak_rating;
  last_updated = now;
}

-- INSERT INTO player_rankings … ON CONFLICT (user_id) DO UPDATE.
unfoldable pub upsert : List PlayerRanking → RatingChange → ℕ → List PlayerRanking
upsert players change now =
    if any (λ p. p.user_id == change.user_id) players
    then update_where (λ p. p.user_id == change.user_id) (changed_row change now) players
    else players ++ new_row change now ∷ []

unfoldable pub apply_rating_change : Rankings → RatingChange → ℕ → Rankings
apply_rating_change db change now = record {
  players = upsert db.players change now;
  history =
      db.history
      ++ record {
        user_id = change.user_id;
        match_id = change.match_id;
        rating_before = change.rating_before;
        rating_after = change.rating_after;
        delta = change.delta;
      }
        ∷ [];
}

-- The row that stands for a player without one.
abbrev pub current_row : ℕ → Option PlayerRanking → PlayerRanking
current_row user_id none = record {
  user_id = user_id;
  username = none;
  elo_rating = default_rating;
  games_played = 0;
  peak_rating = default_rating;
  last_updated = 0;
}
current_row user_id (some p) = p

abbrev pub max_ℤ : ℤ → ℤ → ℤ
max_ℤ a b = if leb_ℤ a b then b else a

-- calculateNewRating: the current rating, the opponent's, the result and the K factor.
abbrev pub NewRating : Type 0
NewRating = ℤ → ℤ → MatchResult → ℕ → ℤ

-- applyRatingUpdate once the opponent's rating is known.
unfoldable pub rate : NewRating → Rankings → RankingUpdateInput → ℤ → ℕ → Rankings × UpdateAnswer
rate calculate db input opponent now =
    let current = current_row input.user_id (get_by_user_id db input.user_id) in
    let new =
      calculate current.elo_rating opponent input.result (get_k_factor current.games_played) in
    let delta = new -ℤ current.elo_rating in
    (
      apply_rating_change db
          (record {
            user_id = input.user_id;
            username = input.username;
            match_id = input.match_id;
            rating_before = current.elo_rating;
            rating_after = new;
            delta = delta;
            games_played_after = current.games_played + 1;
            peak_rating = max_ℤ current.peak_rating new;
          })
          now,
      updated current.elo_rating new delta,
    )

abbrev pub is_local : MatchMode → Bool
is_local bot_mode = false
is_local online_mode = false
is_local local_mode = true

unfoldable pub apply_rating_update :
    NewRating → Rankings → RankingUpdateInput → ℕ → Rankings × UpdateAnswer
apply_rating_update calculate db input now =
    if is_local input.mode then (db, no_update) else elim (resolve_opponent_rating input) [
      | none ↦ (db, type_error)
      | some opponent ↦ rate calculate db input opponent now
    ]

-- `ORDER BY elo_rating DESC, games_played DESC, user_id ASC`.
abbrev pub ahead : PlayerRanking → PlayerRanking → Bool
ahead a b =
    ltb_ℤ b.elo_rating a.elo_rating
    || (eq_ℤ a.elo_rating b.elo_rating
        && (ltb b.games_played a.games_played
            || ((a.games_played == b.games_played) && ltb a.user_id b.user_id)))

-- RANK(): one more than the number of rows that stand before.
unfoldable pub rank_of : List PlayerRanking → PlayerRanking → ℕ
rank_of players p = count_where (λ q. ahead q p) players + 1

unfoldable pub ranked_rows : List PlayerRanking → List PlayerRanking → List (ℕ × PlayerRanking)
ranked_rows players [] = []
ranked_rows players (p ∷ ps) = (rank_of players p, p) ∷ ranked_rows players ps

unfoldable pub get_leaderboard : Rankings → ℕ → ℕ → ℕ × List (ℕ × PlayerRanking)
get_leaderboard db limit offset = (
  length db.players,
  ranked_rows db.players (take limit (drop offset (sort_by ahead db.players))),
)

unfoldable pub get_user_ranking : Rankings → ℕ → Option (ℕ × PlayerRanking)
get_user_ranking db user_id = elim (get_by_user_id db user_id) [
  | none ↦ none
  | some p ↦ some (rank_of db.players p, p)
]
