-- ===== src/FileManager/Keys.antt =====
-- `main` of file_manager/main_scandir.c, Init_main_win and TryExec: the start, and a key press.
use eltex_courses_homeworks.Prelude.{
  ℕ, ◌+◌, ◌-◌, Bool, true, false, Option, none, some, List, [], ◌∷◌, ◌==◌, if◌then◌else◌, inc32,
  dec32, length, get_elem?, Outcome, done, exit, fault, ◌>>=◌, deref, exit_failure,
}
use eltex_courses_homeworks.FileManager.Panel.{PmPanel, dt_exec, rendering_list_dir, coord_control}
use eltex_courses_homeworks.FileManager.Listing.{
  FileSystem, Status, ok, refused, chdir_or_stay, list_dir,
}

-- What `fork` returns.
pub data Fork : Type 0 where
  child failed parent : Fork

-- `getch`. ENTER comes with what `fork` would return, should the program call it.
pub data Key : Type 0 where
  up down tab quit other : Key
  enter : Fork → Key

-- The variables of `main`, and the current directory of the process.
pub record Manager : Type 0 where
  pub left : PmPanel
  pub right : PmPanel
  pub cwd : List ℕ

-- `TryExec`: the child calls `execl` without the null pointer that ends its arguments, which is
-- undefined; the parent waits for it.
abbrev pub try_exec : Fork → Outcome Status
try_exec child = fault
try_exec failed = done refused
try_exec parent = done ok

abbrev pub path_max : ℕ
path_max = 4096

-- `Init_main_win` on a panel that is not initialised, with its `work_dir` and `active`.
abbrev pub init_main_win : ℕ → List ℕ → ℕ → Bool → PmPanel
init_main_win max_y dir room active = record {
  w_half = record { height = max_y - 1; rows = [] };
  w_dir = [];
  y = 0;
  x = 0;
  selected_obj = 0;
  list_begin = 0;
  list_end = 0;
  dir_num = 0;
  size = 0;
  name_list = [];
  work_dir = dir;
  work_room = room;
  work_entry = none;
  active = active;
}

-- `main` before its loop: `argc`, the rows of the terminal, the current directory and $HOME.
unfoldable pub start : FileSystem → ℕ → ℕ → List ℕ → Option (List ℕ) → Outcome Manager
start fs argc max_y cwd home =
    if argc == 1
    then (do
      dir ← deref home
      (_, right, cwd₁) ← list_dir fs cwd (init_main_win max_y dir (length dir + 1) false)
      right' ← rendering_list_dir cwd₁ right
      (_, left, cwd₂) ← list_dir fs cwd₁ (init_main_win max_y cwd path_max true)
      left' ← rendering_list_dir cwd₂ left
      done (record { left = left'; right = right'; cwd = cwd₂ }))
    else exit exit_failure

-- KEY_UP and KEY_DOWN on the active panel. The type of the selected object is read for its colour.
unfoldable pub key_up : List ℕ → PmPanel → Outcome PmPanel
key_up cwd win = do
  e ← deref (get_elem? win.name_list win.selected_obj)
  coord_control cwd (record win { y = dec32 win.y; selected_obj = dec32 win.selected_obj })

unfoldable pub key_down : List ℕ → PmPanel → Outcome PmPanel
key_down cwd win = do
  e ← deref (get_elem? win.name_list win.selected_obj)
  coord_control cwd (record win { y = inc32 win.y; selected_obj = inc32 win.selected_obj })

-- After a call of `ListDir`: a refusal ends the `switch`.
abbrev pub after_listing : Status → PmPanel → List ℕ → Outcome (PmPanel × List ℕ)
after_listing refused win cwd = done (win, cwd)
after_listing ok win cwd = do
  win' ← rendering_list_dir cwd (record win { selected_obj = 1 })
  done (win', cwd)

-- ENTER on an object that is taken for a directory: the panel and the current directory.
unfoldable pub open_selected : FileSystem → List ℕ → PmPanel → Outcome (PmPanel × List ℕ)
open_selected fs cwd win = do
  e ← deref (get_elem? win.name_list win.selected_obj)
  (st, win', cwd') ← list_dir fs cwd (record win {
    work_dir = e.d_name;
    work_room = e.name_room;
    work_entry = some win.selected_obj;
  })
  after_listing st win' cwd'

-- ENTER on the left panel runs an executable object.
unfoldable pub enter_left : FileSystem → Fork → List ℕ → PmPanel → Outcome (PmPanel × List ℕ)
enter_left fs f cwd win = do
  e ← deref (get_elem? win.name_list win.selected_obj)
  (if e.d_type == dt_exec
      then (do _ ← try_exec f; win' ← rendering_list_dir cwd win; done (win', cwd))
      else open_selected fs cwd win)

-- One pass through the loop of `main`: `none` once it has ended.
unfoldable pub press : FileSystem → Manager → Key → Outcome (Option Manager)
press fs m quit = done none
press fs m other = done (some m)
press fs m up =
    if m.left.active
    then (do win ← key_up m.cwd m.left; done (some (record m { left = win })))
    else (do win ← key_up m.cwd m.right; done (some (record m { right = win })))
press fs m down =
    if m.left.active
    then (do win ← key_down m.cwd m.left; done (some (record m { left = win })))
    else (do win ← key_down m.cwd m.right; done (some (record m { right = win })))
press fs m tab =
    if m.left.active
    then done (
        some (record m {
          left = record (m.left) { active = false };
          cwd = chdir_or_stay fs m.cwd m.right.work_dir;
        }))
    else done (
        some (record m {
          left = record (m.left) { active = true };
          cwd = chdir_or_stay fs m.cwd m.left.work_dir;
        }))
press fs m (enter f) =
    if m.left.active
    then (do
      (win, cwd') ← enter_left fs f m.cwd m.left
      done (some (record m { left = win; cwd = cwd' })))
    else (do
      (win, cwd') ← open_selected fs m.cwd m.right
      done (some (record m { right = win; cwd = cwd' })))

-- The loop of `main` over the keys that are typed.
unfoldable pub session : FileSystem → Manager → List Key → Outcome (Option Manager)
session fs m [] = done (some m)
session fs m (k ∷ ks) = do
  r ← press fs m k
  elim r [ none ↦ done none | some m' ↦ session fs m' ks ]
