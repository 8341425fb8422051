-- ===== src/FileManager/Tests.antt =====
-- Runs of file_manager/ on a screen with room for two of the four objects of a directory.
use eltex_courses_homeworks.Prelude.{
  ℕ, zero, suc, ◌≡◌, refl, ap, true, some, none, List, [], ◌∷◌, codes, done, arith,
}
use mathlib.Core.Option
use eltex_courses_homeworks.FileManager.Panel.{Dirent, Window, PmPanel, dt_dir, dt_reg, draw_entry}
use eltex_courses_homeworks.FileManager.Listing.{FileSystem, list_dir}
use eltex_courses_homeworks.FileManager.Listing.Kept.{Overflows}
use eltex_courses_homeworks.FileManager.Listing.Laws.{Lists, Ended, list_dir_lem}
use eltex_courses_homeworks.FileManager.Keys.{
  start, parent, Key, up, down, tab, other, enter, Manager, key_up, key_down, press, session,
}
use eltex_courses_homeworks.FileManager.Cursor.{Inv, IsShown}
use eltex_courses_homeworks.FileManager.Cursor.Moves.{key_up-key_down}
use eltex_courses_homeworks.FileManager.Looks.{mark, session_desk}
use eltex_courses_homeworks.FileManager.Highlights.{Waits, fresh, session_desk-IsMarked}
use eltex_courses_homeworks.FileManager.Unmarked.{keys_of, unmarked}
use eltex_courses_homeworks.FileManager.Session.{move_all, cursors, Good, Follows, session_refines}
use eltex_courses_homeworks.FileManager.Opening.{Pressed, press-Valid}
use eltex_courses_homeworks.FileManager.Starting.{AllFound}
use eltex_courses_homeworks.FileManager.Running.{start-Waits}

abbrev entry : List ℕ → ℕ → Dirent
entry name kind = record { d_name = name; name_room = 256; d_type = kind }

abbrev entries : List Dirent
entries =
    entry (codes ".") dt_dir
    ∷ entry (codes "..") dt_dir
    ∷ entry (codes "bin") dt_dir
    ∷ entry (codes "notes") dt_reg
    ∷ []

abbrev fs : FileSystem
fs = record {
  chdir = λ cwd path. some path;
  scandir = λ cwd path. some entries;
  lstat = λ cwd path. some 16877;
}

fs-Lists : Lists fs
fs-Lists = record { two = λ cwd path names e. ground arith; few = λ cwd path names e. ground arith }

abbrev root : List ℕ
root = codes "/"

abbrev screen : Window
screen = record {
  height = 5;
  rows =
      draw_entry 1 (entry (codes "..") dt_dir)
      ∷ draw_entry 2 (entry (codes "bin") dt_dir)
      ∷ draw_entry 3 (entry (codes "notes") dt_reg)
      ∷ [];
}

abbrev panel : PmPanel
panel = record {
  w_half = screen;
  w_dir = root;
  y = 1;
  x = 1;
  selected_obj = 1;
  list_begin = 0;
  list_end = 3;
  dir_num = 4;
  size = 3;
  name_list = entries;
  work_dir = root;
  work_room = 4096;
  work_entry = none;
  active = true;
}

panel-Inv : Inv panel
panel-Inv = record {
  listed = refl;
  few = omega arith;
  two = omega arith;
  tall = refl;
  low = omega arith;
  room = omega arith;
  at = refl;
  below = omega arith;
  above = omega arith;
  in_list = omega arith;
  scrolled = λ h. omega arith;
  still = λ h. omega arith;
}

panel-IsShown : IsShown panel
unfolding draw_entry
panel-IsShown zero e low high at = absurd (omega arith)
panel-IsShown (suc zero) e low high at = ap (Option.map (draw_entry 1)) at
panel-IsShown (suc (suc zero)) e low high at = ap (Option.map (draw_entry 2)) at
panel-IsShown (suc (suc (suc zero))) e low high at = ap (Option.map (draw_entry 3)) at
panel-IsShown (suc (suc (suc (suc k)))) e low high at = absurd (omega arith)

abbrev manager : Manager
manager = record { left = panel; right = panel; cwd = root }

manager-Good : Good manager
manager-Good = record {
  left = panel-Inv;
  right = panel-Inv;
  left_shown = panel-IsShown;
  right_shown = panel-IsShown;
}

abbrev keys : List Key
keys = down ∷ down ∷ down ∷ tab ∷ up ∷ other ∷ []

session_refines_example :
    (m' : Manager) × (session fs manager keys ≡ done (some m'))
    × Follows manager m' (move_all 4 4 (cursors manager) keys)
session_refines_example =
    session_refines fs keys manager manager-Good (tt, (tt, (tt, (tt, (tt, (tt, tt))))))

press-Valid_example : Pressed fs manager (enter parent) (press fs manager (enter parent))
press-Valid_example =
    press-Valid fs manager (enter parent) fs-Lists (record { left = panel-Inv; right = panel-Inv })

list_dir_lem_example : Ended (Overflows fs root panel) panel (list_dir fs root panel)
list_dir_lem_example = list_dir_lem fs root panel fs-Lists panel-Inv

abbrev typed : List Dirent
typed =
    entry (codes ".") dt_dir
    ∷ entry (codes "..") dt_dir
    ∷ entry (codes "bin") dt_dir
    ∷ entry (codes "notes") dt_dir
    ∷ []

-- The keys, each with a row on which drawing leaves the cursor, and then ENTER.
abbrev keys_at : List (ℕ × Key)
keys_at =
    (3, down) ∷ (0, down) ∷ (1, down) ∷ (2, tab) ∷ (3, up) ∷ (0, other) ∷ (1, enter parent) ∷ []

session_desk-IsMarked_example :
    Waits fs (mark (fresh 0 3 manager)) keys_at (session_desk fs (mark (fresh 0 3 manager)) keys_at)
    × (unmarked (session_desk fs (mark (fresh 0 3 manager)) keys_at)
        ≡ session fs manager (keys_of keys_at))
session_desk-IsMarked_example = session_desk-IsMarked fs 0 3 keys_at manager fs-Lists manager-Good

entries-AllFound : AllFound fs root entries
entries-AllFound = ((16877, refl), ((16877, refl), ((16877, refl), ((16877, refl), tt))))

start-Waits_example :
    (m : Manager) × (start fs 1 24 root (some (codes "/home")) ≡ done m)
    × Good m
    × (m.left.active ≡ true)
    × Waits fs (mark (fresh 0 3 m)) keys_at (session_desk fs (mark (fresh 0 3 m)) keys_at)
    × (unmarked (session_desk fs (mark (fresh 0 3 m)) keys_at) ≡ session fs m (keys_of keys_at))
start-Waits_example =
    start-Waits fs 24 root (codes "/home") entries entries 0 3 keys_at fs-Lists entries-AllFound
      entries-AllFound (omega arith) (omega arith) refl refl refl refl

key_up-key_down_example :
    (q r : PmPanel) × (key_down root panel ≡ done q)
    × (key_up root q ≡ done r)
    × (r.selected_obj ≡ panel.selected_obj)
    × (r.name_list ≡ entries)
key_up-key_down_example = key_up-key_down root {p = panel} panel-Inv
