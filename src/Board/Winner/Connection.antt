-- ===== src/Board/Winner/Connection.antt =====
-- What it means to win: one chain of stones of a colour touches all three sides of the board.
use yovi_es1c.Prelude.{ℕ, ◌+◌, ◌≡◌, true}
use yovi_es1c.Prelude.Text.{Text}
use yovi_es1c.Board.Layout.{Symbol}
use yovi_es1c.Board.Coords.{Cell}
use yovi_es1c.Board.Winner.{has_symbol}
use yovi_es1c.Board.Winner.Adjacency.{OnBoard, Adjacent, Adjacent-symm}

-- A cell of the board that holds the symbol.
abbrev pub Stone : Text → ℕ → Symbol → Cell → Type 0
Stone layout size symbol p = OnBoard size p × (has_symbol layout symbol p ≡ true)

-- The second cell is reached from the first over adjacent stones.
pub data Linked (layout : Text) (size : ℕ) (symbol : Symbol) (p : Cell) : Cell → Type 0 where
  here : Linked layout size symbol p p
  step :
      {q r : Cell}
      → Linked layout size symbol p q
      → Adjacent q r
      → Stone layout size symbol r
      → Linked layout size symbol p r

-- The chain of `p` touches the last row, the first column and the diagonal.
pub record TouchesAll (layout : Text) (size : ℕ) (symbol : Symbol) (p : Cell) : Type 0 where
  pub a : Cell
  pub b : Cell
  pub c : Cell
  pub to_a : Linked layout size symbol p a
  pub to_b : Linked layout size symbol p b
  pub to_c : Linked layout size symbol p c
  pub last_row : a.0 + 1 ≡ size
  pub first_col : b.1 ≡ 0
  pub diagonal : c.0 ≡ c.1

pub record Wins (layout : Text) (size : ℕ) (symbol : Symbol) : Type 0 where
  pub start : Cell
  pub stone : Stone layout size symbol start
  pub touches : TouchesAll layout size symbol start

module _ {layout : Text} {size : ℕ} {symbol : Symbol} where
  pub Linked-Stone :
      {p q : Cell}
      → Stone layout size symbol p
      → Linked layout size symbol p q
      → Stone layout size symbol q
  Linked-Stone h here = h
  Linked-Stone h (step l a s) = s

  pub Linked-trans :
      {p q r : Cell}
      → Linked layout size symbol p q
      → Linked layout size symbol q r
      → Linked layout size symbol p r
  Linked-trans l here = l
  Linked-trans l (step m a s) = step (Linked-trans l m) a s

  pub Linked-symm :
      {p q : Cell}
      → Stone layout size symbol p
      → Linked layout size symbol p q
      → Linked layout size symbol q p
  Linked-symm h here = here
  Linked-symm h (step {q} {r} l a s) =
      Linked-trans (step here (Adjacent-symm q r a) (Linked-Stone h l)) (Linked-symm h l)

  pub TouchesAll-Linked :
      {p q : Cell}
      → Linked layout size symbol p q
      → TouchesAll layout size symbol q
      → TouchesAll layout size symbol p
  TouchesAll-Linked l t = record {
    a = t.a;
    b = t.b;
    c = t.c;
    to_a = Linked-trans l t.to_a;
    to_b = Linked-trans l t.to_b;
    to_c = Linked-trans l t.to_c;
    last_row = t.last_row;
    first_col = t.first_col;
    diagonal = t.diagonal;
  }
