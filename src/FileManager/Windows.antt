-- ===== src/FileManager/Windows.antt =====
-- The windows of file_manager/: what Init_main_win of init_windows.c and `main` of main_scandir.c ask
-- curses for, and the handler of SIGWINCH.
use eltex_courses_homeworks.Prelude.{ℕ, ◌-◌, ◌/◌, ◌≤◌, ◌≡◌, Option, none, some, arith}
use eltex_courses_homeworks.Prelude.Int.{pos, sub_ℕ, ◌+ℤ◌, ◌≤ℤ◌}
use eltex_courses_homeworks.Prelude.Rects.{Rect, Size, OnTerminal}

-- `w_half` and `w_dir` of a panel.
pub record Halves : Type 0 where
  pub w_half : Rect
  pub w_dir : Rect

-- Init_main_win on a terminal of `max_y` rows, at least 1, and `max_x` columns. `w_dir` is the first
-- row of `w_half`.
abbrev pub half_windows : ℕ → ℕ → ℕ → Halves
half_windows max_y max_x x_coor = record {
  w_half = record { height = max_y - 1; width = pos (max_x / 2); top = pos 0; left = pos x_coor };
  w_dir = record { height = 1; width = pos (max_x / 2); top = pos 0; left = pos x_coor };
}

pub record Windows : Type 0 where
  pub left : Halves
  pub right : Halves
  pub help_bar : Rect

abbrev pub windows : ℕ → ℕ → Windows
windows max_y max_x = record {
  left = half_windows max_y max_x 0;
  right = half_windows max_y max_x (max_x / 2);
  help_bar = record { height = 1; width = pos max_x; top = sub_ℕ max_y 1; left = pos 0 };
}

-- `sig_winch`: what it hands to `resizeterm`, which is not initialised where `ioctl` fails.
unfoldable pub sig_winch : Option Size → Size → Size
sig_winch none garbage = garbage
sig_winch (some size) garbage = size

-- How the windows lie: the halves side by side, at most one column being left, and the bar below
-- them on the last row.
pub record AreLaidOut (max_y max_x : ℕ) (w : Windows) : Type 0 where
  pub left : OnTerminal max_y max_x w.left.w_half
  pub right : OnTerminal max_y max_x w.right.w_half
  pub left_dir : OnTerminal max_y max_x w.left.w_dir
  pub right_dir : OnTerminal max_y max_x w.right.w_dir
  pub help_bar : OnTerminal max_y max_x w.help_bar
  pub side_by_side : w.left.w_half.left +ℤ w.left.w_half.width ≡ w.right.w_half.left
  pub to_the_end : pos max_x ≤ℤ w.right.w_half.left +ℤ w.right.w_half.width +ℤ pos 1
  pub below : w.left.w_half.top +ℤ pos w.left.w_half.height ≡ w.help_bar.top
  pub to_the_bottom : w.help_bar.top +ℤ pos w.help_bar.height ≡ pos max_y

-- On a terminal of two rows and two columns or more, so that curses is asked for no window of 0
-- rows or columns, the windows lie so.
windows-AreLaidOut :
    (max_y max_x : ℕ) → 2 ≤ max_y → 2 ≤ max_x → AreLaidOut max_y max_x (windows max_y max_x)
unfolding ◌+ℤ◌
windows-AreLaidOut max_y max_x rows columns = record {
  left = ground arith;
  right = ground arith;
  left_dir = ground arith;
  right_dir = ground arith;
  help_bar = ground arith;
  side_by_side = ground arith;
  to_the_end = ground arith;
  below = ground arith;
  to_the_bottom = ground arith;
}
