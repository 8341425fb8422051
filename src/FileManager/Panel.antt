-- ===== src/FileManager/Panel.antt =====
-- file_manager/common.h, and RenderingListDir and CoordControl of file_manager/read_dir.c.
-- A window is its height and the text drawn on its rows: colours, the width of the terminal and
-- the refreshes are left out. The `unsigned int` fields wrap at 2 ^ 32.
use eltex_courses_homeworks.Prelude.{
  ℕ, zero, suc, ◌+◌, ◌-◌, Bool, true, false, ◌&&◌, Option, List, [], ◌∷◌, ◌++◌, ltb, leb, ◌==◌,
  if◌then◌else◌, inc32, dec32, sub32, get_elem?, Outcome, done, ◌>>=◌, deref,
}

-- The object types of `d_type`; `DT_EXEC` is the program's own.
abbrev pub dt_dir : ℕ
dt_dir = 4

abbrev pub dt_reg : ℕ
dt_reg = 8

abbrev pub dt_exec : ℕ
dt_exec = 16

-- `struct dirent`: `name_room` is the size of the storage that holds `d_name`.
pub record Dirent : Type 0 where
  pub d_name : List ℕ
  pub name_room : ℕ
  pub d_type : ℕ

-- One row of a window: its number, whether it is drawn bold, and its text.
pub record Row : Type 0 where
  pub line : ℕ
  pub bold : Bool
  pub text : List ℕ

pub record Window : Type 0 where
  pub height : ℕ
  pub rows : List Row

-- `struct PmPanel`. `work_room` is the size of the storage that `work_dir` points into, and
-- `work_entry` the index of the object in `name_list` whose name that storage is, if it is one.
pub record PmPanel : Type 0 where
  pub w_half : Window
  pub w_dir : List ℕ
  pub y : ℕ
  pub x : ℕ
  pub selected_obj : ℕ
  pub list_begin : ℕ
  pub list_end : ℕ
  pub dir_num : ℕ
  pub size : ℕ
  pub name_list : List Dirent
  pub work_dir : List ℕ
  pub work_room : ℕ
  pub work_entry : Option ℕ
  pub active : Bool

-- What the loop of `RenderingListDir` prints for one object.
unfoldable pub draw_entry : ℕ → Dirent → Row
draw_entry i e =
    if e.d_type == dt_dir
    then record { line = i; bold = false; text = b'/' ∷ e.d_name }
    else if e.d_type == dt_exec
    then record { line = i; bold = true; text = e.d_name ++ (b'*' ∷ []) }
    else record { line = i; bold = false; text = e.d_name }

-- `werase`
abbrev pub werase : Window → Window
werase w = record w { rows = [] }

-- `mvwprintw` draws nothing below the last row.
unfoldable pub mvwprintw : Window → Row → Window
mvwprintw w r = if ltb r.line w.height then record w { rows = w.rows ++ (r ∷ []) } else w

-- `box` draws over the first and the last row.
unfoldable pub inside : ℕ → List Row → List Row
inside h [] = []
inside h (r ∷ rs) = if ltb 0 r.line && ltb (r.line + 1) h then r ∷ inside h rs else inside h rs

abbrev pub box : Window → Window
box w = record w { rows = inside w.height w.rows }

-- The loop of `RenderingListDir`, `n` rounds before `cnt` reaches `dir_num`.
unfoldable pub draw_from : ℕ → List Dirent → ℕ → ℕ → Window → Outcome Window
unfolding mvwprintw draw_entry
draw_from zero names cnt i w = done w
draw_from (suc n) names cnt i w = do
  e ← deref (get_elem? names cnt)
  draw_from n names (cnt + 1) (i + 1) (mvwprintw w (draw_entry i e))

-- `cwd` is what `getcwd` writes.
unfoldable pub rendering_list_dir : List ℕ → PmPanel → Outcome PmPanel
rendering_list_dir cwd win = do
  w ← draw_from (win.dir_num - win.list_begin) win.name_list win.list_begin 0 (werase win.w_half)
  done (record win { w_half = box w; w_dir = cwd })

-- The cursor has reached the bottom of a list that is longer than the screen.
unfoldable pub at_bottom : PmPanel → PmPanel
at_bottom win =
    let q = record win {
      list_begin = inc32 win.list_begin;
      list_end = inc32 win.list_end;
      y = sub32 win.size 1;
    } in
    if leb win.dir_num win.selected_obj
    then record q { y = 1; selected_obj = 1; list_begin = 0; list_end = win.size }
    else q

-- The cursor has left the top of a list that is longer than the screen.
unfoldable pub at_top : PmPanel → PmPanel
at_top win =
    if ltb 0 win.selected_obj
    then record win { list_begin = dec32 win.list_begin; list_end = dec32 win.list_end; y = 1 }
    else record win {
      y = sub32 win.size 1;
      list_begin = sub32 win.dir_num win.size;
      list_end = sub32 win.dir_num 1;
      selected_obj = sub32 win.dir_num 1;
    }

-- The whole list is on the screen.
unfoldable pub within_screen : PmPanel → PmPanel
within_screen win =
    if ltb win.y 1
    then record win { y = sub32 win.dir_num 1; selected_obj = sub32 win.dir_num 1 }
    else if leb win.dir_num win.y
    then record win { y = 1; list_end = win.dir_num; selected_obj = 1 }
    else win

unfoldable pub coord_control : List ℕ → PmPanel → Outcome PmPanel
unfolding at_bottom at_top within_screen
coord_control cwd win =
    if ltb win.size win.dir_num
    then if leb win.size win.y
      then rendering_list_dir cwd (at_bottom win)
      else if ltb win.y 1
      then rendering_list_dir cwd (at_top win)
      else done win
    else done (within_screen win)
