-- ===== src/Board/Winner/Explore.antt =====
-- The `while` loop of checkWinner: its invariant, and that the fuel lasts.
use yovi_es1c.Prelude.{
  ℕ, zero, suc, ◌+◌, ◌≤◌, ◌≡◌, refl, ◌⊎◌, inl, inr, Bool, true, false, ◌||◌, Bool-cases, List, [],
  ◌∷◌, arith, length, ◌∈◌,
}
use yovi_es1c.Prelude.Text.{Text}
use yovi_es1c.Board.Layout.{Symbol}
use yovi_es1c.Board.Coords.{Cell, Coords, coords_from_row_col, neighbors_of}
use yovi_es1c.Board.Winner.{
  cells_of, Frontier, Touches, Outcome, untouched, touches_all, push_neighbors, touch, explore,
}
use yovi_es1c.Board.Winner.Adjacency.{OnBoard, Adjacent}
use yovi_es1c.Board.Winner.Sides.{
  OnA, OnB, OnC, x_test, x_test_iff, y_test, y_test_iff, z_test, z_test_iff,
}
use yovi_es1c.Board.Winner.Neighbors.{neighbors_of-Leads, neighbors_of_complete}
use yovi_es1c.Board.Winner.Connection.{Stone, Linked, here, step, TouchesAll, Linked-Stone}
use yovi_es1c.Board.Winner.Visits.{
  fresh_count, fresh_count-le, Grows, push_neighbors-Grows, push_neighbors_covers,
}

module _ (layout : Text) (size : ℕ) (symbol : Symbol) (start : Cell) (seen : List Cell) where
  abbrev Chain : Cell → Type 0
  Chain q = Linked layout size symbol start q

  -- A set flag has a reached cell on its side.
  record Sides (t : Touches) : Type 0 where
    pub side_a : t.a ≡ true → (q : Cell) × Chain q × OnA size q
    pub side_b : t.b ≡ true → (q : Cell) × Chain q × OnB q
    pub side_c : t.c ≡ true → (q : Cell) × Chain q × OnC q

  -- A cell that was taken from the queue: its sides are flagged and its neighbours are visited.
  record Done (visited : List Cell) (t : Touches) (q : Cell) : Type 0 where
    pub flag_a : OnA size q → t.a ≡ true
    pub flag_b : OnB q → t.b ≡ true
    pub flag_c : OnC q → t.c ≡ true
    pub closed : (r : Cell) → Adjacent q r → Stone layout size symbol r → r ∈ visited

  record Inv (queue visited : List Cell) (t : Touches) : Type 0 where
    pub sides : Sides t
    pub queued : (q : Cell) → q ∈ queue → Chain q × (q ∈ visited)
    pub done : (q : Cell) → Chain q → q ∈ visited → (q ∈ queue) ⊎ Done visited t q
    pub known : (q : Cell) → q ∈ visited → (q ∈ seen) ⊎ Chain q
    pub keeps : (q : Cell) → q ∈ seen → q ∈ visited
    pub begun : start ∈ visited
    pub undecided : touches_all t ≡ false

  -- What the loop returns: a win has its chain; otherwise the chain of the start cell is visited
  -- and does not touch all sides.
  pub record Explored (o : Outcome) : Type 0 where
    pub win : o.won ≡ true → TouchesAll layout size symbol start
    pub known : (q : Cell) → q ∈ o.visited → (q ∈ seen) ⊎ Chain q
    pub keeps : (q : Cell) → q ∈ seen → q ∈ o.visited
    pub covers : o.won ≡ false → (q : Cell) → Chain q → q ∈ o.visited
    pub lost : o.won ≡ false → ¬ TouchesAll layout size symbol start

  -- With an empty queue every reached cell is visited.
  chain-visited :
      {visited : List Cell} {t : Touches} → Inv [] visited t → (q : Cell) → Chain q → q ∈ visited
  chain-visited i q here = i.begun
  chain-visited {visited} {t} i q (step {q = p} l a s) = elim (i.done p l (chain-visited i p l)) [
    | inl n ↦ absurd n
    | inr d ↦ d.closed q a s
  ]

  finished :
      {visited : List Cell} {t : Touches}
      → Inv [] visited t
      → (q : Cell) → Chain q
      → Done visited t q
  finished i q l = elim (i.done q l (chain-visited i q l)) [ inl n ↦ absurd n | inr d ↦ d ]

  Inv-end :
      {visited : List Cell} {t : Touches}
      → Inv [] visited t
      → Explored (record { won = false; visited = visited })
  Inv-end {visited} {t} i = record {
    win = λ e. cc;
    known = i.known;
    keeps = i.keeps;
    covers = λ e. chain-visited i;
    lost = λ e w.
        let fa = (finished i w.a w.to_a).flag_a w.last_row in
        let fb = (finished i w.b w.to_b).flag_b w.first_col in
        let fc = (finished i w.c w.to_c).flag_c w.diagonal in let u = i.undecided in ground arith;
  }

  or-true : (a b : Bool) → (a || b) ≡ true → (a ≡ true) ⊎ (b ≡ true)
  or-true a b e = ground arith

  or-left : (a b : Bool) → a ≡ true → (a || b) ≡ true
  or-left a b e = ground arith

  or-right : (a b : Bool) → b ≡ true → (a || b) ≡ true
  or-right a b e = ground arith

  module _ (stone : Stone layout size symbol start) (row col : ℕ) (queue visited : List Cell)
      (t : Touches) (i : Inv ((row, col) ∷ queue) visited t) where
    reached : Chain (row, col)
    reached = (i.queued (row, col) (inl refl)).0

    on_board : OnBoard size (row, col)
    on_board = (Linked-Stone stone reached).0

    abbrev coords : Coords
    coords = coords_from_row_col row col size

    abbrev flags : Touches
    flags = touch layout size symbol coords t

    abbrev before : Frontier
    before = record { queue = queue; visited = visited }

    abbrev after : Frontier
    after = push_neighbors layout size symbol (neighbors_of coords) before

    abbrev Near : Cell → Type 0
    Near q = Adjacent (row, col) q × OnBoard size q

    grown : Grows layout size symbol Near before after
    grown =
        push_neighbors-Grows layout size symbol Near (λ q n. n.1) (neighbors_of coords) before
          (neighbors_of-Leads size row col on_board)

    Sides-touch : Sides flags
    unfolding touch
    Sides-touch = record {
      side_a = λ e. elim (or-true _ _ e) [
        | inl new ↦ ((row, col), reached, x_test size row col on_board new)
        | inr old ↦ i.sides.side_a old
      ];
      side_b = λ e. elim (or-true _ _ e) [
        | inl new ↦ ((row, col), reached, y_test size row col on_board new)
        | inr old ↦ i.sides.side_b old
      ];
      side_c = λ e. elim (or-true _ _ e) [
        | inl new ↦ ((row, col), reached, z_test size row col on_board new)
        | inr old ↦ i.sides.side_c old
      ];
    }

    Done-keeps : (q : Cell) → Done visited t q → Done after.visited flags q
    unfolding touch
    Done-keeps q d = record {
      flag_a = λ o. or-right _ _ (d.flag_a o);
      flag_b = λ o. or-right _ _ (d.flag_b o);
      flag_c = λ o. or-right _ _ (d.flag_c o);
      closed = λ r a s. grown.visited_keeps r (d.closed r a s);
    }

    Done-taken : Done after.visited flags (row, col)
    unfolding touch
    Done-taken = record {
      flag_a = λ o. or-left _ _ (x_test_iff size row col on_board o);
      flag_b = λ o. or-left _ _ (y_test_iff size row col on_board o);
      flag_c = λ o. or-left _ _ (z_test_iff size row col on_board o);
      closed = λ r a s.
          let (n, m, e) = neighbors_of_complete size row col on_board r a s.0 in
          push_neighbors_covers layout size symbol Near (λ q n. n.1) (neighbors_of coords) before n
            r (neighbors_of-Leads size row col on_board) m e s.1;
    }

    Inv-round : touches_all flags ≡ false → Inv after.queue after.visited flags
    Inv-round open_still = record {
      sides = Sides-touch;
      queued = λ q m. elim (grown.queue_new q m) [
        | inl old ↦ let (l, v) = i.queued q (inr old) in (l, grown.visited_keeps q v)
        | inr (v, near, s) ↦ (step reached near.0 (near.1, s), v)
      ];
      done = λ q l m. elim (grown.visited_new q m) [
        | inl old ↦ elim (i.done q l old) [
          | inl waits ↦ elim waits [
            | inl e ↦ inr (rw e Done-taken)
            | inr later ↦ inl (grown.queue_keeps q later)
          ]
          | inr d ↦ inr (Done-keeps q d)
        ]
        | inr (n, c, s) ↦ inl n
      ];
      known = λ q m. elim (grown.visited_new q m) [
        | inl old ↦ i.known q old
        | inr (n, near, s) ↦ inr (step reached near.0 (near.1, s))
      ];
      keeps = λ q m. grown.visited_keeps q (i.keeps q m);
      begun = grown.visited_keeps start i.begun;
      undecided = open_still;
    }

    -- When all flags are set the chain touches all sides.
    touched : touches_all flags ≡ true → TouchesAll layout size symbol start
    touched e =
        let (qa, la, oa) = Sides-touch.side_a (ground arith) in
        let (qb, lb, ob) = Sides-touch.side_b (ground arith) in
        let (qc, lc, oc) = Sides-touch.side_c (ground arith) in
        record {
          a = qa;
          b = qb;
          c = qc;
          to_a = la;
          to_b = lb;
          to_c = lc;
          last_row = oa;
          first_col = ob;
          diagonal = oc;
        }

    Explored-won : touches_all flags ≡ true → Explored (record { won = true; visited = visited })
    Explored-won e = record {
      win = λ _. touched e;
      known = i.known;
      keeps = i.keeps;
      covers = λ f. cc;
      lost = λ f. cc;
    }

  -- Each round lowers (length of the queue) + (cells that are not visited).
  explore-Explored :
      Stone layout size symbol start
      → (fuel : ℕ) (queue visited : List Cell) (t : Touches) → Inv queue visited t
      → length queue + fresh_count visited (cells_of size) ≤ fuel
      → Explored (explore layout size symbol fuel queue visited t)
  unfolding explore
  explore-Explored stone zero [] visited t i m = Inv-end i
  explore-Explored stone zero (p ∷ queue) visited t i m = absurd (omega arith)
  explore-Explored stone (suc fuel) [] visited t i m = Inv-end i
  explore-Explored stone (suc fuel) ((row, col) ∷ queue) visited t i m =
      elim (Bool-cases (touches_all (flags stone row col queue visited t i))) [
        | inl e ↦ rw e (Explored-won stone row col queue visited t i e)
        | inr e ↦ rw e (
            explore-Explored stone fuel _ _ _ (Inv-round stone row col queue visited t i e)
              (let d = (grown stone row col queue visited t i).measured in omega arith))
      ]

  pub start-Explored :
      Stone layout size symbol start
      → ((q : Cell) → Chain q → ¬ (q ∈ seen))
      → Explored (
          explore layout size symbol
            (suc (length (cells_of size)))
            (start ∷ [])
            (start ∷ seen)
            untouched)
  start-Explored stone apart =
      explore-Explored stone _ _ _ untouched
        (record {
          sides = record { side_a = λ e. cc; side_b = λ e. cc; side_c = λ e. cc };
          queued = λ q m. elim m [ inl e ↦ (rw e here, inl e) | inr n ↦ absurd n ];
          done = λ q l m. elim m [ inl e ↦ inl (inl e) | inr old ↦ absurd (apart q l old) ];
          known = λ q m. elim m [ inl e ↦ inr (rw e here) | inr old ↦ inl old ];
          keeps = λ q m. inr m;
          begun = inl refl;
          undecided = refl;
        })
        (omega (arith, fresh_count-le (start ∷ seen) (cells_of size)))
