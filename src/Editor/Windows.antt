-- ===== src/Editor/Windows.antt =====
-- The windows of text editor/: what `main` of main.c and InitHelp of interactive.c ask curses for.
-- Colours and panels are left out.
use eltex_courses_homeworks.Prelude.{
  ℕ, ◌+◌, ◌/◌, ◌≤◌, ◌<◌, ◌≡◌, ◌↔◌, refl, Option, none, some, List, [], ◌∷◌, codes, length, All,
  ◌==◌, if◌then◌else◌, arith,
}
use eltex_courses_homeworks.Prelude.Rects.{Rect, Size, OnTerminal}
use eltex_courses_homeworks.Prelude.Int.{pos, sub_ℕ, ◌+ℤ◌, ◌≤ℤ◌}

-- `sig_winch`: what it hands to `resizeterm`, which is not initialised where `ioctl` fails.
unfoldable pub sig_winch : Option Size → Size → Size
sig_winch none garbage = garbage
sig_winch (some size) garbage = size

-- A text and where it is put in its window.
pub record Label : Type 0 where
  pub line : ℕ
  pub column : ℕ
  pub text : List ℕ

pub record Pane : Type 0 where
  pub rect : Rect
  pub labels : List Label

abbrev label : ℕ → ℕ → List ℕ → Label
label line column text = record { line = line; column = column; text = text }

-- `cmd_mode` and `ins_mode`
abbrev pub cmd_mode : List ℕ
cmd_mode = codes "Command mode"

abbrev pub ins_mode : List ℕ
ins_mode = codes "insert mode"

-- `w_statusbar`. Differences wrap below 0, and are negative as an `int`. A window of 0 columns is one
-- up to the right edge.
abbrev pub status_pane : ℕ → ℕ → Pane
status_pane max_y max_x = record {
  rect = record {
    height = 1;
    width = if max_x == length ins_mode then pos max_x else sub_ℕ max_x (length ins_mode);
    top = sub_ℕ max_y 1;
    left = pos 0;
  };
  labels = label 0 0 (codes "Press 'h' for help") ∷ [];
}

-- `w_mode[0]` and `w_mode[1]`: both have the width of `ins_mode`.
abbrev pub mode_pane : List ℕ → ℕ → ℕ → Pane
mode_pane text max_y max_x = record {
  rect = record {
    height = 1;
    width = pos (length ins_mode);
    top = sub_ℕ max_y 1;
    left = sub_ℕ max_x (length ins_mode);
  };
  labels = label 0 0 text ∷ [];
}

-- `w_help`, as InitHelp makes it.
abbrev pub help_pane : ℕ → ℕ → Pane
help_pane max_y max_x = record {
  rect = record {
    height = 9;
    width = pos 40;
    top = sub_ℕ (max_y / 2) (9 / 2);
    left = sub_ℕ (max_x / 2) (40 / 2);
  };
  labels =
      label 0 2 (codes "Use next keys for manage text editor:")
      ∷ label 2 1 (codes "If you in comand mode:")
      ∷ label 3 0 (codes "i - insert mode")
      ∷ label 4 0 (codes "s - save file")
      ∷ label 5 0 (codes "q - quite")
      ∷ label 6 1 (codes "If you in insert mode:")
      ∷ label 7 0 (codes "esc - return in comand mode")
      ∷ [];
}

-- The panes on a terminal of `max_y` rows and `max_x` columns.
pub record Panes : Type 0 where
  pub status : Pane
  pub help : Pane
  pub command : Pane
  pub insert : Pane

abbrev pub panes : ℕ → ℕ → Panes
panes max_y max_x = record {
  status = status_pane max_y max_x;
  help = help_pane max_y max_x;
  command = mode_pane cmd_mode max_y max_x;
  insert = mode_pane ins_mode max_y max_x;
}

-- A text stays within its window.
abbrev pub Fits : Rect → Label → Type 0
Fits r l = (l.line < r.height) × (pos (l.column + length l.text) ≤ℤ r.width)

help-OnTerminal :
    (max_y max_x : ℕ)
    → OnTerminal max_y max_x (help_pane max_y max_x).rect ↔ (9 ≤ max_y) × (40 ≤ max_x)
unfolding ◌+ℤ◌
help-OnTerminal max_y max_x = (ground arith, ground arith)

-- How the panes lie: the status bar and the window of the mode fill the last row, the help is on the
-- terminal just where that has 9 rows and 40 columns, and the texts fit but for that of the command
-- mode.
pub record AreLaidOut (max_y max_x : ℕ) (p : Panes) : Type 0 where
  pub help : OnTerminal max_y max_x p.help.rect ↔ (9 ≤ max_y) × (40 ≤ max_x)
  pub status : OnTerminal max_y max_x p.status.rect
  pub insert : OnTerminal max_y max_x p.insert.rect
  pub side_by_side : p.status.rect.left +ℤ p.status.rect.width ≡ p.insert.rect.left
  pub to_the_end : p.insert.rect.left +ℤ p.insert.rect.width ≡ pos max_x
  pub same_place : p.command.rect ≡ p.insert.rect
  pub help_fits : All (Fits p.help.rect) p.help.labels
  pub insert_fits : All (Fits p.insert.rect) p.insert.labels
  pub command_too_long : ¬ All (Fits p.command.rect) p.command.labels

-- On a terminal of at least 1 row and 12 columns, the status bar and the windows of the two modes
-- lie on it, side by side, and fill the last row; the window of the help lies on it just where it
-- has at least 9 rows and 40 columns; the texts of the help and of the insert mode fit into their
-- windows, and that of the command mode does not.
pub panes-AreLaidOut :
    (max_y max_x : ℕ) → 1 ≤ max_y → 12 ≤ max_x → AreLaidOut max_y max_x (panes max_y max_x)
unfolding ◌+ℤ◌
panes-AreLaidOut max_y max_x rows columns = record {
  help = help-OnTerminal max_y max_x;
  status = ground arith;
  insert = ground arith;
  side_by_side = ground arith;
  to_the_end = ground arith;
  same_place = refl;
  help_fits = ground arith;
  insert_fits = ground arith;
  command_too_long = λ h. ground (arith, h);
}
