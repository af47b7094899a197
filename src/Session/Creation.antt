-- ===== src/Session/Creation.antt =====
-- What createSession of OnlineSessionService.ts saves.
use yovi_es1c.Prelude.{ℕ, ◌≡◌, refl, sym, ap, ◌∙◌, inl, inr, Option-cases, some, none, List}
use yovi_es1c.Rules.{MatchRules, CellDraw, resolve_rules_for_match}
use yovi_es1c.Board.Layout.{Symbol, black, red}
use yovi_es1c.Session.State.{SessionState, PlayerState}
use yovi_es1c.Session.Transitions.{NewSession, SessionPlayer, initial_state}
use yovi_es1c.Session.Store.{SessionStore}
use yovi_es1c.Session.Service.{
  Config, Service, get_state, logged, save_state, count_event, session_created,
}
use yovi_es1c.Session.Stored.{store-save_state}
use yovi_es1c.Session.Handlers.{create_session}

module _ (S : SessionStore) (cfg : Config) where
  -- What createSession saves.
  pub record Created (sv sv' : Service S cfg) (n : NewSession) (s : SessionState) : Type 0 where
    pub resolved : NewSession
    pub timeout : ℕ
    pub at : ℕ
    pub same_id : resolved.match_id ≡ n.match_id
    pub same_size : resolved.size ≡ n.size
    pub same_players : resolved.players ≡ n.players
    pub state : s ≡ initial_state resolved timeout at
    pub saved : sv'.store ≡ S.write sv.store s

  abbrev fresh : NewSession → MatchRules → ℕ → SessionState
  fresh n rules now = initial_state (record n { rules = rules }) cfg.turn_timeout_sec now

  pair_inj : (p q : Service S cfg × SessionState) → some p ≡ some q → p ≡ q
  pair_inj p q e = cc

  pub create_session-Created :
      (sv sv' : Service S cfg) (n : NewSession) (draws : List CellDraw) (now : ℕ) (s : SessionState)
      → create_session S cfg sv n draws now ≡ some (sv', s)
      → Created sv sv' n s
  unfolding create_session
  create_session-Created sv sv' n draws now s e =
      elim (Option-cases (resolve_rules_for_match n.size n.rules draws)) [
        | inl r ↦ absurd (let f : none ≡ some (sv', s) = rw (r, create_session) at e in cc)
        | inr (rules, r) ↦
            let f = rw (r, create_session) at e in
            let g =
              pair_inj
                (
                  logged S cfg (save_state S cfg sv (fresh n rules now))
                      (count_event session_created),
                  fresh n rules now,
                )
                (sv', s) f in
            record {
              resolved = record n { rules = rules };
              timeout = cfg.turn_timeout_sec;
              at = now;
              same_id = refl;
              same_size = refl;
              same_players = refl;
              state = sym (ap (λ (x : Service S cfg × SessionState). x.1) g);
              saved =
                  sym (ap (λ (x : Service S cfg × SessionState). x.0.store) g)
                  ∙ store-save_state S cfg sv (fresh n rules now)
                  ∙ ap (λ (x : Service S cfg × SessionState). S.write sv.store x.1) g;
            }
      ]

  -- The new session is stored under its id.
  pub Created-stored :
      (sv sv' : Service S cfg) (n : NewSession) (s : SessionState)
      → Created sv sv' n s
      → get_state S cfg sv' n.match_id ≡ some s
  unfolding initial_state
  Created-stored sv sv' n s c =
      let own : s.match_id ≡ n.match_id =
        ap (λ (x : SessionState). x.match_id) c.state ∙ c.same_id in
      ap (λ (x : S.Store). S.read x n.match_id) c.saved
      ∙ ap (S.read (S.write sv.store s)) (sym own)
      ∙ S.read-write_self sv.store s

  abbrev seat : SessionPlayer → Symbol → PlayerState
  seat p symbol = record { user_id = p.user_id; username = p.username; symbol = symbol }

  -- The first of the two users has black, the second red.
  pub Created-players :
      (sv sv' : Service S cfg) (n : NewSession) (s : SessionState)
      → Created sv sv' n s
      → s.players ≡ (seat n.players.0 black, seat n.players.1 red)
  unfolding initial_state
  Created-players sv sv' n s c =
      ap (λ (x : SessionState). x.players) c.state
      ∙ ap (λ (x : SessionPlayer × SessionPlayer). (seat x.0 black, seat x.1 red)) c.same_players
