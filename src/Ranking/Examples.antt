-- ===== src/Ranking/Examples.antt =====
-- A player who wins against a bot and loses online, by a formula that moves the rating by 16.
use yovi_es1c.Prelude.{none, some, [], ◌∷◌}
use yovi_es1c.Prelude.Int.{pos, ◌+ℤ◌, ◌-ℤ◌}
use yovi_es1c.Ranking.Service.{
  RankingUpdateInput, win, loss, bot_mode, online_mode, medium, NewRating,
}
use yovi_es1c.Ranking.History.{Agrees, run, no_rows, run-Agrees}

abbrev by_16 : NewRating
by_16 current opponent win k = current +ℤ pos 16
by_16 current opponent loss k = current -ℤ pos 16

abbrev won : RankingUpdateInput
won = record {
  user_id = 7;
  match_id = 1;
  mode = bot_mode;
  result = win;
  username = none;
  difficulty = some medium;
  opponent_rating = none;
}

abbrev lost : RankingUpdateInput
lost = record {
  user_id = 7;
  match_id = 2;
  mode = online_mode;
  result = loss;
  username = none;
  difficulty = none;
  opponent_rating = some (pos 1250);
}

run-Agrees_example : Agrees (run by_16 no_rows ((won, 10) ∷ (lost, 20) ∷ [])) 7
run-Agrees_example = run-Agrees by_16 ((won, 10) ∷ (lost, 20) ∷ []) 7
