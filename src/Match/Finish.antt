-- ===== src/Match/Finish.antt =====
-- gameservice/src/services/MatchService.ts: finishMatch, with applyRankingSafely. The metrics are left
-- out, and an error of the ranking leaves it as it was.
use Prim.Native.String.{String}
use yovi_es1c.Prelude.{[], ◌∷◌, ℕ, if◌then◌else◌, Option, none, some, not}
use yovi_es1c.Prelude.Text.{Text}
use yovi_es1c.Prelude.Words.{text_eq}
use yovi_es1c.Prelude.Maps.{string_eq, same}
use yovi_es1c.Prelude.Int.{ℤ}
use yovi_es1c.Ranking.Service.{
  MatchMode, bot_mode, online_mode, local_mode, MatchDifficulty, easy, medium, hard, impossible,
  MatchResult, win, loss, Rankings, RankingUpdateInput, NewRating, get_opponent_rating_for_user,
  apply_rating_update, is_local,
}
use yovi_es1c.Match.Service.{Match, Matches, get_match_by_id, finish_match_row}

-- A level by its name; the ratings know no other one.
unfoldable pub difficulty_of : Text → Option MatchDifficulty
difficulty_of name =
    if same name (b'e' ∷ b'a' ∷ b's' ∷ b'y' ∷ [])
    then some easy
    else if same name (b'm' ∷ b'e' ∷ b'd' ∷ b'i' ∷ b'u' ∷ b'm' ∷ [])
    then some medium
    else if same name (b'h' ∷ b'a' ∷ b'r' ∷ b'd' ∷ [])
    then some hard
    else if same name (b'i' ∷ b'm' ∷ b'p' ∷ b'o' ∷ b's' ∷ b's' ∷ b'i' ∷ b'b' ∷ b'l' ∷ b'e' ∷ [])
    then some impossible
    else none

unfoldable pub result_of : String → MatchResult
result_of winner = if same winner "USER" then win else loss

-- `opponentRating`, in an online match whose opponent is known.
unfoldable pub opponent_rating_of : Rankings → MatchMode → Option ℕ → Option ℤ
opponent_rating_of rankings bot_mode opponent = none
opponent_rating_of rankings online_mode none = none
opponent_rating_of rankings online_mode (some user_id) =
    some (get_opponent_rating_for_user rankings user_id)
opponent_rating_of rankings local_mode opponent = none

abbrev pub rating_input : Rankings → Match → String → Option ℕ → Option String → RankingUpdateInput
rating_input rankings match winner opponent username = record {
  user_id = match.user_id;
  match_id = match.id;
  mode = match.mode;
  result = result_of winner;
  username = username;
  difficulty = elim match.mode [
    | bot_mode ↦ difficulty_of match.difficulty
    | online_mode ↦ none
    | local_mode ↦ none
  ];
  opponent_rating = opponent_rating_of rankings match.mode opponent;
}

unfoldable pub apply_ranking_safely :
    NewRating → Matches → Rankings → ℕ → String → Option ℕ → Option String → ℕ → Rankings
apply_ranking_safely calculate db rankings match_id winner opponent username now =
    elim (get_match_by_id db match_id) [
      | none ↦ rankings
      | some match ↦
          if not match.ranked
          then rankings
          else if is_local match.mode
          then rankings
          else (apply_rating_update calculate rankings
              (rating_input rankings match winner opponent username) now).0
    ]

unfoldable pub finish_match :
    NewRating → Matches → Rankings → ℕ → String → Option ℕ → Option String → ℕ → Matches × Rankings
finish_match calculate db rankings match_id winner opponent username now =
    let finished = finish_match_row db match_id winner in
    (
      finished,
      apply_ranking_safely calculate finished rankings match_id winner opponent username now,
    )
