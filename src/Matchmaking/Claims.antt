-- ===== src/Matchmaking/Claims.antt =====
-- Claims: when a pair is claimed, what that changes, and whom a candidate is matched with.
use Prim.Native.String.{String}
use mathlib.Core.Path.{subst}
use yovi_es1c.Rules.{BlockedCell, MatchRules, normalize_match_rules}
use yovi_es1c.Prelude.{
  ◌≢◌, ◌≤◌, ◌⊎◌, ◌&&◌, Bool, ℕ, ◌+◌, ◌*◌, ◌≡◌, ◌↔◌, refl, sym, ap, ◌∙◌, inl, inr, true, false, ◌==◌,
  leb, Bool-cases, Option, some, none, List, [], ◌∷◌, ◌∈◌, keep, mem-keep, is_some, arith,
}
use yovi_es1c.Prelude.Maps.{nat_eq, lookup, remove, lookup-remove_self, lookup-remove_ne}
use yovi_es1c.Matchmaking.Queue.{
  OnlineQueueEntry, Queue, enqueue, is_claimed, is_queued, claim_pair,
}
use yovi_es1c.Matchmaking.Service.{
  OnlineMatchAssignment, Matchmaking, same_bool, same_cells, are_rules_compatible, is_rival,
  claim_first, assign, try_match_candidate,
}

some_inj : {A : Type 0} {x y : A} → some x ≡ some y → x ≡ y
some_inj e = cc

-- A pair is claimed exactly when both are queued and neither is claimed.
pub claim_pair_iff :
    (q : Queue) (a b : OnlineQueueEntry)
    → ((claim_pair q a b).1 ≡ true) ↔ (
        (is_claimed q a.user_id ≡ false)
        × (is_claimed q b.user_id ≡ false)
        × (is_queued q a.user_id ≡ true)
        × (is_queued q b.user_id ≡ true))
unfolding claim_pair
claim_pair_iff q a b = ground arith

-- What a claim leaves: both are claimed, and neither is queued.
pub record Taken (q : Queue) (a b : ℕ) : Type 0 where
  pub a_claimed : is_claimed q a ≡ true
  pub b_claimed : is_claimed q b ≡ true
  pub a_left : is_queued q a ≡ false
  pub b_left : is_queued q b ≡ false

gone_twice : (q : Queue) (a b : ℕ) → is_some (lookup a (remove b (remove a q.queue))) ≡ false
gone_twice q a b = elim (Bool-cases (b == a)) [
  | inl e ↦
      let same_user : b ≡ a = ground arith in
      rw (same_user, lookup-remove_self a (remove a q.queue)) refl
  | inr e ↦
      rw (lookup-remove_ne b a (remove a q.queue) (ground arith), lookup-remove_self a q.queue) refl
]

abbrev after_claim : Queue → OnlineQueueEntry → OnlineQueueEntry → Queue
after_claim q a b = record {
  queue = remove b.user_id (remove a.user_id q.queue);
  claimed = b.user_id ∷ a.user_id ∷ q.claimed;
}

claim_pair-after :
    (q : Queue) (a b : OnlineQueueEntry)
    → (claim_pair q a b).1 ≡ true
    → (claim_pair q a b).0 ≡ after_claim q a b
unfolding claim_pair
claim_pair-after q a b h =
    let (c, d, e, f) = (claim_pair_iff q a b).0 h in rw (claim_pair, c, d, e, f) refl

after_claim-Taken :
    (q : Queue) (a b : OnlineQueueEntry) → Taken (after_claim q a b) a.user_id b.user_id
unfolding is_claimed is_queued
after_claim-Taken q a b = record {
  a_claimed = ground arith;
  b_claimed = ground arith;
  a_left = gone_twice q a.user_id b.user_id;
  b_left = rw (lookup-remove_self b.user_id (remove a.user_id q.queue)) refl;
}

-- After a pair is claimed, both users are claimed and neither is queued.
pub claim_pair-Taken :
    (q : Queue) (a b : OnlineQueueEntry)
    → (claim_pair q a b).1 ≡ true
    → Taken (claim_pair q a b).0 a.user_id b.user_id
claim_pair-Taken q a b h =
    subst (λ (r : Queue). Taken r a.user_id b.user_id) (sym (claim_pair-after q a b h))
      (after_claim-Taken q a b)

-- Nobody can be claimed together with a claimed user, on either side.
claimed-refused :
    (q : Queue) (x other : OnlineQueueEntry)
    → is_claimed q x.user_id ≡ true
    → ((claim_pair q x other).1 ≡ false) × ((claim_pair q other x).1 ≡ false)
unfolding claim_pair
claimed-refused q x other h = ground arith

-- When a pair is claimed, and either user of it joins the queue again, then no pair with that user
-- can be claimed, as the first or as the second of the pair and with anybody: the claim of the
-- earlier match is still there.
pub claim_pair-rejoined :
    (q : Queue) (a b again other : OnlineQueueEntry)
    → (claim_pair q a b).1 ≡ true
    → (again.user_id ≡ a.user_id) ⊎ (again.user_id ≡ b.user_id)
    → ((claim_pair (enqueue (claim_pair q a b).0 again) again other).1 ≡ false)
      × ((claim_pair (enqueue (claim_pair q a b).0 again) other again).1 ≡ false)
unfolding enqueue is_claimed
claim_pair-rejoined q a b again other h which =
    let taken = claim_pair-Taken q a b h in
    let still : is_claimed (claim_pair q a b).0 again.user_id ≡ true = elim which [
      | inl e ↦ ap (is_claimed (claim_pair q a b).0) e ∙ taken.a_claimed
      | inr e ↦ ap (is_claimed (claim_pair q a b).0) e ∙ taken.b_claimed
    ] in
    claimed-refused (enqueue (claim_pair q a b).0 again) again other still

-- The skill bands differ by at most this much.
abbrev pub Near : ℕ → ℕ → ℕ → Type 0
Near range a b = (a ≤ b + range) × (b ≤ a + range)

-- What a match with a human gives: the rival is another candidate with a skill band at most one away,
-- or two once the candidate has waited for twenty seconds, and with the same rules; and both are
-- taken.
pub record Paired (self : OnlineQueueEntry) (candidates : List OnlineQueueEntry) (now : ℕ)
    (q : Queue) (rival : OnlineQueueEntry) : Type 0 where
  pub among : rival ∈ candidates
  pub another : rival.user_id ≢ self.user_id
  pub near :
      Near 1 rival.skill_band self.skill_band
      ⊎ ((self.joined_at + 20 * 1000 ≤ now) × Near 2 rival.skill_band self.skill_band)
  pub same_rules : normalize_match_rules rival.rules ≡ normalize_match_rules self.rules
  pub taken : Taken q self.user_id rival.user_id

cell_eq : {c d : BlockedCell} → c.row ≡ d.row → c.col ≡ d.col → c ≡ d
cell_eq {c} {d} row col =
    ap (λ (n : ℕ). record { row = n; col = c.col }) row
    ∙ ap (λ (n : ℕ). record { row = d.row; col = n }) col

same_cells-eq : (cs ds : List BlockedCell) → same_cells cs ds ≡ true → cs ≡ ds
unfolding same_cells
same_cells-eq [] [] h = refl
same_cells-eq [] (d ∷ ds) h = absurd (cc)
same_cells-eq (c ∷ cs) [] h = absurd (cc)
same_cells-eq (c ∷ cs) (d ∷ ds) h =
    let row : c.row ≡ d.row = ground arith in
    let col : c.col ≡ d.col = ground arith in
    let rest : same_cells cs ds ≡ true = ground arith in
    let first : c ≡ d = cell_eq row col in
    ap (λ (x : BlockedCell). x ∷ cs) first ∙ ap (◌∷◌ d) (same_cells-eq cs ds rest)

and_true : (a b : Bool) → (a && b) ≡ true → (a ≡ true) × (b ≡ true)
and_true true true h = (refl, refl)
and_true true false h = absurd (cc)
and_true false b h = absurd (cc)

same_bool-eq : (a b : Bool) → same_bool a b ≡ true → a ≡ b
same_bool-eq true true h = refl
same_bool-eq true false h = absurd (cc)
same_bool-eq false true h = absurd (cc)
same_bool-eq false false h = refl

rules_eq :
    {a b : MatchRules}
    → a.pie_rule.enabled ≡ b.pie_rule.enabled
    → a.honey.enabled ≡ b.honey.enabled
    → a.honey.blocked_cells ≡ b.honey.blocked_cells
    → a ≡ b
rules_eq {a} {b} pie honey cells =
    let build : Bool → Bool → List BlockedCell → MatchRules = λ p h cs. record {
      pie_rule = record { enabled = p };
      honey = record { enabled = h; blocked_cells = cs };
    } in
    ap (λ (p : Bool). build p a.honey.enabled a.honey.blocked_cells) pie
    ∙ ap (λ (h : Bool). build b.pie_rule.enabled h a.honey.blocked_cells) honey
    ∙ ap (λ (cs : List BlockedCell). build b.pie_rule.enabled b.honey.enabled cs) cells

-- Compatible rules are the same once they are normalized.
are_rules_compatible-eq :
    (l r : MatchRules)
    → are_rules_compatible l r ≡ true
    → normalize_match_rules l ≡ normalize_match_rules r
unfolding are_rules_compatible
are_rules_compatible-eq l r h =
    let a = normalize_match_rules l in
    let b = normalize_match_rules r in
    let (pie, rest) = and_true _ _ h in
    let (honey, cells) = and_true _ _ rest in
    rules_eq (same_bool-eq a.pie_rule.enabled b.pie_rule.enabled pie)
      (same_bool-eq a.honey.enabled b.honey.enabled honey)
      (same_cells-eq a.honey.blocked_cells b.honey.blocked_cells cells)

module _ (self rival : OnlineQueueEntry) (now : ℕ) (h : is_rival self now rival ≡ true) where
  is_rival-another : rival.user_id ≢ self.user_id
  unfolding is_rival
  is_rival-another = ground arith

  is_rival-Near :
      Near 1 rival.skill_band self.skill_band
      ⊎ ((self.joined_at + 20 * 1000 ≤ now) × Near 2 rival.skill_band self.skill_band)
  unfolding is_rival
  is_rival-Near = elim (Bool-cases (leb (self.joined_at + 20 * 1000) now)) [
    | inl late ↦ inr (ground arith, ground arith)
    | inr early ↦ inl (ground arith)
  ]

  is_rival-compatible : are_rules_compatible self.rules rival.rules ≡ true
  unfolding is_rival
  is_rival-compatible = ground arith

claim_first-claimed :
    (q : Queue) (self : OnlineQueueEntry) (rivals : List OnlineQueueEntry) (r : OnlineQueueEntry)
    → (claim_first q self rivals).1 ≡ some r
    → (r ∈ rivals) × Taken (claim_first q self rivals).0 self.user_id r.user_id
unfolding claim_first
claim_first-claimed q self [] r e = absurd (cc)
claim_first-claimed q self (rival ∷ rivals) r e = elim (Bool-cases (claim_pair q self rival).1) [
  | inl c ↦
      let same_rival : rival ≡ r = some_inj (rw (c, claim_first) at e) in
      rw (c, claim_first)
        (
          inl (sym same_rival),
          subst (λ (x : OnlineQueueEntry). Taken (claim_pair q self rival).0 self.user_id x.user_id)
              same_rival (claim_pair-Taken q self rival c),
        )
  | inr c ↦
      let (m, t) = claim_first-claimed q self rivals r (rw (c, claim_first) at e) in
      rw (c, claim_first) (inr m, t)
]

assign-human :
    (mm : Matchmaking) (self : OnlineQueueEntry) (r : Queue × Option OnlineQueueEntry)
    (match_id : String) (timeout_sec now : ℕ) (a : OnlineMatchAssignment) (b : OnlineQueueEntry)
    → (assign mm self r match_id timeout_sec now).1 ≡ some a
    → a.player_b ≡ some b
    → (r.1 ≡ some b) × ((assign mm self r match_id timeout_sec now).0.repository ≡ r.0)
unfolding assign
assign-human mm self (q, some rival) match_id timeout_sec now a b e f =
    (ap (λ (x : OnlineMatchAssignment). x.player_b) (some_inj e) ∙ f, refl)
assign-human mm self (q, none) match_id timeout_sec now a b e f =
    elim (Bool-cases (leb (self.joined_at + timeout_sec * 1000) now)) [
      | inl w ↦
          let g = some_inj (rw w at e) in
          absurd (let k = ap (λ (x : OnlineMatchAssignment). x.player_b) g ∙ f in cc)
      | inr w ↦ absurd (let g = rw w at e in cc)
    ]

-- When a candidate is matched with another player, that player is another candidate of those that
-- were given. Their skill bands differ by at most one, or by at most two when the first has waited for
-- at least twenty seconds, and their normalized rules are equal. Afterwards both are claimed and neither
-- is queued.
pub try_match_candidate-Paired :
    (mm : Matchmaking) (self : OnlineQueueEntry) (candidates : List OnlineQueueEntry)
    (match_id : String) (timeout_sec now : ℕ) (a : OnlineMatchAssignment) (b : OnlineQueueEntry)
    → (try_match_candidate mm self candidates match_id timeout_sec now).1 ≡ some a
    → a.player_b ≡ some b
    → Paired self candidates now
        (try_match_candidate mm self candidates match_id timeout_sec now).0.repository
        b
unfolding try_match_candidate
try_match_candidate-Paired mm self candidates match_id timeout_sec now a b e f =
    let rivals = keep (is_rival self now) candidates in
    let (g, h) =
      assign-human mm self (claim_first mm.repository self rivals) match_id timeout_sec now a b e
        f in
    let (m, t) = claim_first-claimed mm.repository self rivals b g in
    let (among, compatible) = (mem-keep (is_rival self now) b candidates).0 m in
    record {
      among = among;
      another = is_rival-another self b now compatible;
      near = is_rival-Near self b now compatible;
      same_rules =
          sym (
            are_rules_compatible-eq self.rules b.rules (is_rival-compatible self b now compatible));
      taken = subst (λ (q : Queue). Taken q self.user_id b.user_id) (sym h) t;
    }
