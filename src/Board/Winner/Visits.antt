-- ===== src/Board/Winner/Visits.antt =====
-- The visited set, the cells of the board, and what one round of pushes does.
use yovi_es1c.Prelude.{
  ℕ, zero, suc, ◌+◌, ◌≤◌, ◌<◌, ◌≡◌, refl, sym, ◌↔◌, ◌⊎◌, inl, inr, true, false, if◌then◌else◌,
  Bool-cases, Option, none, some, List, [], ◌∷◌, ◌++◌, arith, length, All, ◌∈◌, mem-append,
  length-append,
}
use mathlib.Core.Path.{subst}
use yovi_es1c.Prelude.Text.{Text}
use yovi_es1c.Board.Layout.{Symbol}
use yovi_es1c.Board.Coords.{Cell, Coords, next_cell}
use yovi_es1c.Board.Winner.{
  cell_eq, has, has_symbol, row_cells, cells_of, Frontier, push_cell, push_neighbors,
}
use yovi_es1c.Board.Winner.Adjacency.{OnBoard}

cell_eq_iff : (p q : Cell) → (cell_eq p q ≡ true) ↔ (p ≡ q)
cell_eq_iff p q = ground arith

pub has→mem : (v : List Cell) (p : Cell) → has v p ≡ true → p ∈ v
unfolding has
has→mem [] p h = cc
has→mem (q ∷ v) p h = ground (arith, has→mem v p)

pub mem→has : (v : List Cell) (p : Cell) → p ∈ v → has v p ≡ true
unfolding has
mem→has [] p h = absurd h
mem→has (q ∷ v) p h = ground (arith, mem→has v p)

mem-row_cells : (row n : ℕ) (p : Cell) → (p ∈ row_cells row n) ↔ ((p.0 ≡ row) × (p.1 < n))
unfolding row_cells
mem-row_cells row zero p = (λ h. absurd h, λ h. absurd (omega arith))
mem-row_cells row (suc n) p =
    ground (arith, mem-append p (row_cells row n) ((row, n) ∷ []), mem-row_cells row n p)

-- The loops run over exactly the cells of the board.
pub mem-cells_of : (size : ℕ) (p : Cell) → (p ∈ cells_of size) ↔ OnBoard size p
unfolding cells_of
mem-cells_of zero p = (λ h. absurd h, λ h. absurd (omega arith))
mem-cells_of (suc row) p = ground (
  arith,
  mem-append p (cells_of row) (row_cells row (suc row)),
  mem-row_cells row (suc row) p,
  mem-cells_of row p,
)

-- The cells of a list that are not visited.
pub fresh_count : List Cell → List Cell → ℕ
fresh_count v [] = 0
fresh_count v (p ∷ ps) = (if has v p then 0 else 1) + fresh_count v ps

pub fresh_count-le : (v ps : List Cell) → fresh_count v ps ≤ length ps
unfolding fresh_count
fresh_count-le v [] = omega arith
fresh_count-le v (p ∷ ps) = ground (arith, fresh_count-le v ps)

fresh_count_mono : (q : Cell) (v ps : List Cell) → fresh_count (q ∷ v) ps ≤ fresh_count v ps
unfolding fresh_count has
fresh_count_mono q v [] = omega arith
fresh_count_mono q v (p ∷ ps) = ground (arith, fresh_count_mono q v ps)

-- Visiting a new cell of the list leaves one less.
fresh_count-cons :
    (q : Cell) (v ps : List Cell)
    → q ∈ ps
    → has v q ≡ false
    → fresh_count (q ∷ v) ps + 1 ≤ fresh_count v ps
unfolding fresh_count has
fresh_count-cons q v [] m h = absurd m
fresh_count-cons q v (p ∷ ps) m h = ground (arith, fresh_count-cons q v ps, fresh_count_mono q v ps)

module _ (layout : Text) (size : ℕ) (symbol : Symbol) (P : Cell → Type 0) where
  -- What pushes do to the queue and the visited set: new cells are in both, hold the symbol and
  -- satisfy `P`; the queue and the cells that are not visited do not grow together.
  pub record Grows (f g : Frontier) : Type 0 where
    pub visited_keeps : (q : Cell) → q ∈ f.visited → q ∈ g.visited
    pub queue_keeps : (q : Cell) → q ∈ f.queue → q ∈ g.queue
    pub visited_new :
        (q : Cell)
        → q ∈ g.visited
        → (q ∈ f.visited) ⊎ ((q ∈ g.queue) × P q × (has_symbol layout symbol q ≡ true))
    pub queue_new :
        (q : Cell)
        → q ∈ g.queue
        → (q ∈ f.queue) ⊎ ((q ∈ g.visited) × P q × (has_symbol layout symbol q ≡ true))
    pub measured :
        length g.queue + fresh_count g.visited (cells_of size)
        ≤ length f.queue + fresh_count f.visited (cells_of size)

  Grows-refl : (f : Frontier) → Grows f f
  Grows-refl f = record {
    visited_keeps = λ q m. m;
    queue_keeps = λ q m. m;
    visited_new = λ q m. inl m;
    queue_new = λ q m. inl m;
    measured = omega arith;
  }

  Grows-trans : (f g h : Frontier) → Grows f g → Grows g h → Grows f h
  Grows-trans f g h a b = record {
    visited_keeps = λ q m. b.visited_keeps q (a.visited_keeps q m);
    queue_keeps = λ q m. b.queue_keeps q (a.queue_keeps q m);
    visited_new = λ q m. elim (b.visited_new q m) [
      | inl k ↦ elim (a.visited_new q k) [
        | inl old ↦ inl old
        | inr (n, c, e) ↦ inr (b.queue_keeps q n, c, e)
      ]
      | inr n ↦ inr n
    ];
    queue_new = λ q m. elim (b.queue_new q m) [
      | inl k ↦ elim (a.queue_new q k) [
        | inl old ↦ inl old
        | inr (n, c, e) ↦ inr (b.visited_keeps q n, c, e)
      ]
      | inr n ↦ inr n
    ];
    measured = omega (arith, a.measured, b.measured);
  }

  module _ (on_board : (q : Cell) → P q → OnBoard size q) where
    -- A pushed cell.
    Grows-push :
        (f : Frontier) (p : Cell)
        → P p
        → has f.visited p ≡ false
        → has_symbol layout symbol p ≡ true
        → Grows f (record { queue = f.queue ++ p ∷ []; visited = p ∷ f.visited })
    Grows-push f p hp new s = record {
      visited_keeps = λ q m. inr m;
      queue_keeps = λ q m. (mem-append q f.queue (p ∷ [])).1 (inl m);
      visited_new = λ q m. elim m [
        | inl e ↦ inr ((mem-append q f.queue (p ∷ [])).1 (inr (inl e)), subst P (sym e) hp, rw e s)
        | inr old ↦ inl old
      ];
      queue_new = λ q m. elim ((mem-append q f.queue (p ∷ [])).0 m) [
        | inl old ↦ inl old
        | inr k ↦ elim k [ inl e ↦ inr (inl e, subst P (sym e) hp, rw e s) | inr n ↦ absurd n ]
      ];
      measured = omega (
        arith,
        length-append f.queue (p ∷ []),
        fresh_count-cons p f.visited (cells_of size) ((mem-cells_of size p).1 (on_board p hp)) new,
      );
    }

    push_cell-Grows :
        (o : Option Cell) (f : Frontier)
        → ((q : Cell) → o ≡ some q → P q)
        → Grows f (push_cell layout size symbol o f)
    unfolding push_cell
    push_cell-Grows none f h = Grows-refl f
    push_cell-Grows (some p) f h = elim (Bool-cases (has f.visited p)) [
      | inl old ↦ rw old (Grows-refl f)
      | inr new ↦ elim (Bool-cases (has_symbol layout symbol p)) [
        | inl s ↦ rw (new, s) (Grows-push f p (h p refl) new s)
        | inr s ↦ rw (new, s) (Grows-refl f)
      ]
    ]

    pub push_neighbors-Grows :
        (ns : List Coords) (f : Frontier)
        → All (λ n. (q : Cell) → next_cell size n ≡ some q → P q) ns
        → Grows f (push_neighbors layout size symbol ns f)
    unfolding push_neighbors
    push_neighbors-Grows [] f h = Grows-refl f
    push_neighbors-Grows (n ∷ ns) f (h, k) =
        let g = push_cell layout size symbol (next_cell size n) f in
        Grows-trans f g _ (push_cell-Grows (next_cell size n) f h) (push_neighbors-Grows ns g k)

    push_cell_covers :
        (q : Cell) (f : Frontier)
        → has_symbol layout symbol q ≡ true
        → q ∈ (push_cell layout size symbol (some q) f).visited
    unfolding push_cell
    push_cell_covers q f s = elim (Bool-cases (has f.visited q)) [
      | inl old ↦ rw old (has→mem f.visited q old)
      | inr new ↦ rw (new, s) (inl refl)
    ]

    -- A listed neighbour that holds the symbol is visited afterwards.
    pub push_neighbors_covers :
        (ns : List Coords) (f : Frontier) (n : Coords) (q : Cell)
        → All (λ n. (q : Cell) → next_cell size n ≡ some q → P q) ns
        → n ∈ ns
        → next_cell size n ≡ some q
        → has_symbol layout symbol q ≡ true
        → q ∈ (push_neighbors layout size symbol ns f).visited
    unfolding push_neighbors
    push_neighbors_covers [] f n q h m e s = absurd m
    push_neighbors_covers (n' ∷ ns) f n q (h, k) m e s =
        let g = push_cell layout size symbol (next_cell size n') f in
        let cover : n ≡ n' → q ∈ g.visited = λ same. rw (← same, e) (push_cell_covers q f s) in
        elim m [
          | inl same ↦ (push_neighbors-Grows ns g k).visited_keeps q (cover same)
          | inr later ↦ push_neighbors_covers ns g n q k later e s
        ]
