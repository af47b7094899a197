-- ===== src/Board/Winner/Search.antt =====
-- The search decides the game: checkWinner finds a chain that connects the three sides exactly when
-- there is one, and resolveWinner asks for black first.
use yovi_es1c.Prelude.{
  ℕ, suc, ◌≡◌, refl, sym, ◌↔◌, inl, inr, Bool, true, false, if◌then◌else◌, Bool-cases, some, none,
  List, [], ◌∷◌, arith, length, All, ◌∈◌,
}
use mathlib.Core.Path.{subst}
use yovi_es1c.Prelude.Text.{Text}
use yovi_es1c.Board.Layout.{Symbol, black, red}
use yovi_es1c.Board.Coords.{Cell}
use yovi_es1c.Board.Winner.{
  has, has_symbol, cells_of, untouched, Outcome, explore, scan, check_winner, resolve_winner,
}
use yovi_es1c.Board.Winner.Adjacency.{OnBoard}
use yovi_es1c.Board.Winner.Connection.{
  Stone, Linked, TouchesAll, Wins, Linked-Stone, Linked-trans, Linked-symm, TouchesAll-Linked,
}
use yovi_es1c.Board.Winner.Visits.{has→mem, mem→has, mem-cells_of}
use yovi_es1c.Board.Winner.Explore.{Explored, start-Explored}

module _ (layout : Text) (size : ℕ) (symbol : Symbol) where
  abbrev Here : Cell → Type 0
  Here p = Stone layout size symbol p

  -- The visited cells are whole chains, none of which touches all sides.
  record Settled (visited : List Cell) : Type 0 where
    pub stones : (q : Cell) → q ∈ visited → Here q
    pub whole : (q r : Cell) → q ∈ visited → Linked layout size symbol q r → r ∈ visited
    pub lost : (q : Cell) → q ∈ visited → ¬ TouchesAll layout size symbol q

  module _ (p : Cell) (stone : Here p) (visited : List Cell) (s : Settled visited) where
    apart : has visited p ≡ false → (q : Cell) → Linked layout size symbol p q → ¬ (q ∈ visited)
    apart new q l m = let again = mem→has visited p (s.whole q p m (Linked-symm stone l)) in cc

    Settled-Explored :
        (o : Outcome) → Explored layout size symbol p visited o → o.won ≡ false → Settled o.visited
    Settled-Explored o x missed = record {
      stones =
          λ q m. elim (x.known q m) [ inl old ↦ s.stones q old | inr l ↦ Linked-Stone stone l ];
      whole = λ q r m l. elim (x.known q m) [
        | inl old ↦ x.keeps r (s.whole q r old l)
        | inr k ↦ x.covers missed r (Linked-trans k l)
      ];
      lost = λ q m w. elim (x.known q m) [
        | inl old ↦ s.lost q old w
        | inr k ↦ x.lost missed (TouchesAll-Linked k w)
      ];
    }

  -- What the loops over the cells decide.
  record Scanned (ps : List Cell) (b : Bool) : Type 0 where
    pub win : b ≡ true → Wins layout size symbol
    pub lost : b ≡ false → (q : Cell) → q ∈ ps → Here q → ¬ TouchesAll layout size symbol q

  Scanned-won :
      (p : Cell) (ps : List Cell) → Here p → TouchesAll layout size symbol p → Scanned ps true
  Scanned-won p ps st w = record {
    win = λ _. record { start = p; stone = st; touches = w };
    lost = λ e. cc;
  }

  Scanned-cons :
      (p : Cell) (ps : List Cell) (b : Bool)
      → (Here p → ¬ TouchesAll layout size symbol p)
      → Scanned ps b
      → Scanned (p ∷ ps) b
  Scanned-cons p ps b h r = record {
    win = r.win;
    lost = λ e q m st. elim m [
      | inl same ↦ subst (λ c. Here c → ¬ TouchesAll layout size symbol c) (sym same) h st
      | inr later ↦ r.lost e q later st
    ];
  }

  -- One round that starts a search at `p`.
  abbrev search_at : Cell → List Cell → Outcome
  search_at p visited =
      explore layout size symbol (suc (length (cells_of size))) (p ∷ []) (p ∷ visited) untouched

  searched :
      (p : Cell) (ps visited : List Cell) (st : Here p) (s : Settled visited)
      → has visited p ≡ false
      → (Settled (search_at p visited).visited
          → Scanned ps (scan layout size symbol ps (search_at p visited).visited))
      → Scanned (p ∷ ps) (
          if (search_at p visited).won
          then true
          else scan layout size symbol ps (search_at p visited).visited)
  searched p ps visited st s new rest =
      let x = start-Explored layout size symbol p visited st (apart p st visited s new) in
      elim (Bool-cases (search_at p visited).won) [
        | inl e ↦ rw e (Scanned-won p (p ∷ ps) st (x.win e))
        | inr e ↦
            rw e
              (Scanned-cons p ps _ (λ _. x.lost e) (rest (Settled-Explored p st visited s _ x e)))
      ]

  scan-Scanned :
      (ps visited : List Cell)
      → All (OnBoard size) ps
      → Settled visited
      → Scanned ps (scan layout size symbol ps visited)
  unfolding scan
  scan-Scanned [] visited on s = record { win = λ e. cc; lost = λ e q m. absurd m }
  scan-Scanned (p ∷ ps) visited (o, on) s = elim (Bool-cases (has_symbol layout symbol p)) [
    | inr other ↦
        rw other
          (Scanned-cons p ps _ (λ st. absurd (differs other st.1)) (scan-Scanned ps visited on s))
    | inl mine ↦ elim (Bool-cases (has visited p)) [
      | inl old ↦
          rw (mine, old)
            (Scanned-cons p ps _ (λ st. s.lost p (has→mem visited p old))
              (scan-Scanned ps visited on s))
      | inr new ↦
          rw (mine, new)
            (searched p ps visited (o, mine) s new
              (scan-Scanned ps (search_at p visited).visited on))
    ]
  ]
    where
      differs : {b : Bool} → b ≡ false → b ≡ true → ⊥
      differs h k = cc

  cells-OnBoard : (ps : List Cell) → ((p : Cell) → p ∈ ps → OnBoard size p) → All (OnBoard size) ps
  cells-OnBoard [] h = tt
  cells-OnBoard (p ∷ ps) h = (h p (inl refl), cells-OnBoard ps (λ q m. h q (inr m)))

  check_winner-Scanned : Scanned (cells_of size) (check_winner layout size symbol)
  unfolding check_winner
  check_winner-Scanned =
      scan-Scanned (cells_of size) [] (cells-OnBoard (cells_of size) (λ p. (mem-cells_of size p).0))
        (record { stones = λ q m. absurd m; whole = λ q r m. absurd m; lost = λ q m. absurd m })

  -- The search answers true exactly when a chain of adjacent stones of the colour touches the
  -- last row, the first column and the diagonal, for every layout and every size.
  pub check_winner_iff : (check_winner layout size symbol ≡ true) ↔ Wins layout size symbol
  check_winner_iff = (
    check_winner-Scanned.win,
    λ w. elim (Bool-cases (check_winner layout size symbol)) [
      | inl e ↦ e
      | inr e ↦ absurd (
          check_winner-Scanned.lost e w.start ((mem-cells_of size w.start).1 w.stone.0) w.stone
            w.touches)
    ],
  )

-- The winner is black exactly when black's stones connect the three sides, red exactly when red's
-- do and black's do not, and nobody exactly when neither do.
pub resolve_winner_iff :
    (layout : Text) (size : ℕ)
    → ((resolve_winner layout size ≡ some black) ↔ Wins layout size black)
      × ((resolve_winner layout size ≡ some red)
          ↔ ((¬ Wins layout size black) × Wins layout size red))
      × ((resolve_winner layout size ≡ none)
          ↔ ((¬ Wins layout size black) × (¬ Wins layout size red)))
unfolding resolve_winner
resolve_winner_iff layout size =
    let (b, b') = check_winner_iff layout size black in
    let (r, r') = check_winner_iff layout size red in
    (
      (λ e. b (ground arith), λ w. ground (arith, b' w)),
      (
        (λ e. (λ w. ground (arith, b' w), r (ground arith))),
        λ w. elim (Bool-cases (check_winner layout size black)) [
          | inl e ↦ absurd (w.0 (b e))
          | inr e ↦ rw (e, r' w.1)
        ],
      ),
      (
        (λ e. (λ w. ground (arith, b' w), λ w. ground (arith, r' w))),
        λ w. elim (Bool-cases (check_winner layout size black)) [
          | inl e ↦ absurd (w.0 (b e))
          | inr e ↦ elim (Bool-cases (check_winner layout size red)) [
            | inl f ↦ absurd (w.1 (r f))
            | inr f ↦ rw (e, f)
          ]
        ],
      ),
    )
