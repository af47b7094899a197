-- ===== src/Match/Fallback.antt =====
-- gameservice/src/services/MatchService.ts, pickFallbackLayout: the first free cell.
use yovi_es1c.Prelude.{
  ℕ, zero, suc, ◌≡◌, ◌≢◌, ◌↔◌, refl, sym, ap, ◌∙◌, inl, inr, ◌+◌, ◌≤◌, ◌<◌, ◌==◌, ==_iff,
  Bool-cases, Option-cases, Option, some, none, List, arith, get_elem?,
}
use mathlib.Core.Path.{subst}
use yovi_es1c.Prelude.Text.{Text}
use yovi_es1c.Board.Layout.{dot, rows_of, cell_of_row, get_cell, set_cell}
use yovi_es1c.Match.Layouts.{
  Position, free_col, free_cell, pick_fallback_layout, next_symbol_for_layout,
}
use yovi_es1c.Match.Shape.{Inside, set_layout_cell-eq-set_cell}

some_inj : {A : Type 0} {x y : A} → some x ≡ some y → x ≡ y
some_inj e = cc

-- What the inner loop finds is free and in its range.
free_col-found :
    (row : Option Text) (col n c : ℕ)
    → free_col row col n ≡ some c
    → (cell_of_row row c ≡ some dot) × (c < col + n)
unfolding free_col
free_col-found row col zero c e = absurd (let f : none ≡ some c = e in cc)
free_col-found row col (suc n) c e = elim (Option-cases (cell_of_row row col)) [
  | inl h ↦
      let r = free_col-found row (suc col) n c (rw (h, free_col) at e) in (r.0, omega (arith, r.1))
  | inr (x, h) ↦ elim (Bool-cases (x == dot)) [
    | inl k ↦
        let same : col ≡ c = some_inj (rw (h, k, free_col) at e) in
        (ap (cell_of_row row) (sym same) ∙ h ∙ ap some ((==_iff x dot).0 k), omega arith)
    | inr k ↦
        let r = free_col-found row (suc col) n c (rw (h, k, free_col) at e) in
        (r.0, omega (arith, r.1))
  ]
]

-- And when it finds nothing, no cell of its range is free.
free_col-none :
    (row : Option Text) (col n j : ℕ)
    → free_col row col n ≡ none
    → col ≤ j
    → j < col + n
    → cell_of_row row j ≢ some dot
unfolding free_col
free_col-none row col zero j e lo hi f = absurd (omega arith)
free_col-none row col (suc n) j e lo hi f = elim (Bool-cases (col == j)) [
  | inl same ↦
      let f' : cell_of_row row col ≡ some dot = ap (cell_of_row row) ((==_iff col j).0 same) ∙ f in
      absurd (let g : some col ≡ none = rw (f', free_col) at e in cc)
  | inr other ↦ elim (Option-cases (cell_of_row row col)) [
    | inl h ↦ free_col-none row (suc col) n j (rw (h, free_col) at e) (ground arith) (omega arith) f
    | inr (x, h) ↦ elim (Bool-cases (x == dot)) [
      | inl k ↦ absurd (let g : some col ≡ none = rw (h, k, free_col) at e in cc)
      | inr k ↦
          free_col-none row (suc col) n j (rw (h, k, free_col) at e) (ground arith) (omega arith) f
    ]
  ]
]

free_cell-found :
    (rows : List Text) (row n : ℕ) (p : Position)
    → free_cell rows row n ≡ some p
    → (cell_of_row (get_elem? rows p.row) p.col ≡ some dot) × (p.row < row + n) × (p.col ≤ p.row)
unfolding free_cell
free_cell-found rows row zero p e = absurd (let f : none ≡ some p = e in cc)
free_cell-found rows row (suc n) p e =
    elim (Option-cases (free_col (get_elem? rows row) 0 (suc row))) [
      | inl h ↦
          let r = free_cell-found rows (suc row) n p (rw (h, free_cell) at e) in
          (r.0, omega (arith, r.1), r.2)
      | inr (c, h) ↦
          let r = free_col-found (get_elem? rows row) 0 (suc row) c h in
          let same = some_inj (rw (h, free_cell) at e) in
          let row_is : row ≡ p.row = ap (λ (q : Position). q.row) same in
          let col_is : c ≡ p.col = ap (λ (q : Position). q.col) same in
          (
            subst (λ i. cell_of_row (get_elem? rows i) p.col ≡ some dot) row_is
                (subst (λ i. cell_of_row (get_elem? rows row) i ≡ some dot) col_is r.0),
            omega arith,
            omega (arith, r.1),
          )
    ]

free_cell-none :
    (rows : List Text) (row n j col : ℕ)
    → free_cell rows row n ≡ none
    → row ≤ j
    → j < row + n
    → col ≤ j
    → cell_of_row (get_elem? rows j) col ≢ some dot
unfolding free_cell
free_cell-none rows row zero j col e lo hi le f = absurd (omega arith)
free_cell-none rows row (suc n) j col e lo hi le f =
    elim (Option-cases (free_col (get_elem? rows row) 0 (suc row))) [
      | inl h ↦ elim (Bool-cases (row == j)) [
        | inl same ↦
            let is : row ≡ j = (==_iff row j).0 same in
            free_col-none (get_elem? rows row) 0 (suc row) col h (omega arith) (omega arith)
              (ap (λ i. cell_of_row (get_elem? rows i) col) is ∙ f)
        | inr other ↦
            free_cell-none rows (suc row) n j col (rw (h, free_cell) at e) (ground arith)
              (omega arith) le f
      ]
      | inr (c, h) ↦ absurd (let g = rw (h, free_cell) at e in cc)
    ]

-- What the fallback does to a board: it writes the next symbol on a free cell.
pub record Fills (size : ℕ) (current layout : Text) : Type 0 where
  pub cell : Position
  pub inside : Inside size cell
  pub was_free : get_cell current cell.row cell.col ≡ some dot
  pub filled : layout ≡ set_cell current cell.row cell.col (next_symbol_for_layout current)

-- The fallback gives a layout exactly when the layout has a free cell among its first rows, and that is
-- the layout with the next symbol on such a cell.
pub pick_fallback_layout-Fills :
    (size : ℕ) (current : Text)
    → ((layout : Text)
        → pick_fallback_layout size current ≡ some layout
        → Fills size current layout)
      × ((pick_fallback_layout size current ≡ none)
          ↔ ((p : Position) → Inside size p → get_cell current p.row p.col ≢ some dot))
unfolding pick_fallback_layout get_cell
pick_fallback_layout-Fills size current = elim (Option-cases (free_cell (rows_of current) 0 size)) [
  | inl e ↦
      rw (e, pick_fallback_layout)
        (
          λ layout h. absurd (let f : none ≡ some layout = h in cc),
          (
            λ h p v.
                free_cell-none (rows_of current) 0 size p.row p.col e (omega arith)
                  (omega (arith, v.row_lt)) v.col_le,
            λ h. refl,
          ),
        )
  | inr (p, e) ↦
      let r = free_cell-found (rows_of current) 0 size p e in
      let v : Inside size p = record { row_lt = omega (arith, r.1); col_le = r.2 } in
      rw (e, pick_fallback_layout)
        (
          λ layout h. record {
            cell = p;
            inside = v;
            was_free = r.0;
            filled =
                sym (some_inj h)
                ∙ set_layout_cell-eq-set_cell current p.row p.col (next_symbol_for_layout current);
          },
          (λ h. cc, λ h. absurd (h p v r.0)),
        )
]
