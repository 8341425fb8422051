-- ===== src/Prelude/Rects.antt =====
-- Windows on a terminal, as curses is asked for them.
use Prim.Native.Nat.{ℕ}
use eltex_courses_homeworks.Prelude.Int.{ℤ, pos, ◌+ℤ◌, ◌≤ℤ◌}

-- The arguments of `newwin` and `subwin`, which are `int`s.
pub record Rect : Type 0 where
  pub height : ℕ
  pub width : ℤ
  pub top : ℤ
  pub left : ℤ

-- `struct winsize`: the rows and the columns.
pub record Size : Type 0 where
  pub rows : ℕ
  pub columns : ℕ

-- The rectangle lies on the terminal.
abbrev pub OnTerminal : ℕ → ℕ → Rect → Type 0
OnTerminal max_y max_x r =
    (pos 0 ≤ℤ r.top)
    × (pos 0 ≤ℤ r.left)
    × (pos 0 ≤ℤ r.width)
    × (r.top +ℤ pos r.height ≤ℤ pos max_y)
    × (r.left +ℤ r.width ≤ℤ pos max_x)
