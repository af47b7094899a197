-- ===== src/Board.antt =====
-- The board of a session: the private board methods of
-- gameservice/src/services/OnlineSessionService.ts. A layout is the text of the rows joined by `/`,
-- row i with i + 1 cells, each `B`, `R` or `.`.
pub mod Layout
pub mod Cells
pub mod Stones
pub mod Triangle
pub mod Coords
pub mod Winner
pub mod Recolour
pub mod Examples
