-- ===== src/FileManager/Running.antt =====
-- The whole of `main` of file_manager/main_scandir.c, from its start over any keys.
use eltex_courses_homeworks.Prelude.{
  ℕ, ◌≤◌, ◌<◌, ◌^◌, ◌≡◌, true, false, some, List, codes, str_eq, done,
}
use eltex_courses_homeworks.FileManager.Panel.{Dirent}
use eltex_courses_homeworks.FileManager.Listing.{FileSystem, chdir_or_stay}
use eltex_courses_homeworks.FileManager.Listing.Laws.{Lists}
use eltex_courses_homeworks.FileManager.Keys.{Key, Manager, start, session}
use eltex_courses_homeworks.FileManager.Looks.{mark, session_desk}
use eltex_courses_homeworks.FileManager.Session.{Good}
use eltex_courses_homeworks.FileManager.Starting.{AllFound, start-Good}
use eltex_courses_homeworks.FileManager.Unmarked.{keys_of, unmarked}
use eltex_courses_homeworks.FileManager.Highlights.{Waits, fresh, session_desk-IsMarked}

-- Without arguments, on a terminal of 5 to 2 ^ 31 - 1 rows, over a file system whose listings hold
-- from 2 to 2 ^ 31 - 1 objects, where neither $HOME nor the current directory is "..", both can be
-- listed and all that these two listings name is found: main reaches its loop with two valid panels
-- whose windows show their lists, the left one active. From there, for any sequence of keys, the
-- loop with its marks does to the panels what it does without them, and where it waits for a key
-- the panels are valid and marked as `IsMarked` says; it has ended only on a q, the program exits
-- only with a failure, on an ENTER, and it is undefined only on an ENTER on an object ".." whose
-- name has no room for that of the directory reached, or, on the left panel, in the child that is
-- to become an executable object.
pub start-Waits :
    (fs : FileSystem) (max_y : ℕ) (cwd home : List ℕ) (at_home here : List Dirent)
    (at_left at_right : ℕ) (ks : List (ℕ × Key))
    → Lists fs
    → AllFound fs (chdir_or_stay fs cwd home) at_home
    → AllFound fs (chdir_or_stay fs (chdir_or_stay fs cwd home) cwd) here
    → 5 ≤ max_y
    → max_y < 2 ^ 31
    → str_eq home (codes "..") ≡ false
    → str_eq cwd (codes "..") ≡ false
    → fs.scandir cwd home ≡ some at_home
    → fs.scandir (chdir_or_stay fs cwd home) cwd ≡ some here
    → (m : Manager) × (start fs 1 max_y cwd (some home) ≡ done m)
      × Good m
      × (m.left.active ≡ true)
      × Waits fs
          (mark (fresh at_left at_right m))
          ks
          (session_desk fs (mark (fresh at_left at_right m)) ks)
      × (unmarked (session_desk fs (mark (fresh at_left at_right m)) ks)
          ≡ session fs m (keys_of ks))
start-Waits fs max_y cwd home at_home here at_left at_right ks lists found found' tall low plain
      plain' hit hit' =
    let (m, run, good, active) =
      start-Good fs max_y cwd home at_home here lists found found' tall low plain plain' hit hit' in
    let (waits, same) = session_desk-IsMarked fs at_left at_right ks m lists good in
    (m, run, good, active, waits, same)
