-- ===== src/FileManager/Starting.antt =====
-- The start of `main` of file_manager/main_scandir.c.
use eltex_courses_homeworks.Prelude.{
  ℕ, ◌+◌, ◌≤◌, ◌<◌, ◌^◌, ◌≡◌, refl, Bool, true, false, some, List, [], ◌∷◌, length, codes, str_eq,
  done, arith, All,
}
use mathlib.Core.Path.{subst}
use eltex_courses_homeworks.FileManager.Panel.{Dirent, PmPanel, rendering_list_dir}
use eltex_courses_homeworks.FileManager.Listing.{
  FileSystem, ok, chdir_or_stay, set_type, classify, climb, opened, list_dir,
}
use eltex_courses_homeworks.FileManager.Listing.Laws.{Lists, Fresh, Ended, list_dir_any}
use eltex_courses_homeworks.FileManager.Keys.{Manager, path_max, init_main_win, start}
use eltex_courses_homeworks.FileManager.Cursor.{Inv, IsShown, rendering_lem}
use eltex_courses_homeworks.FileManager.Cursor.Moves.{Inv-redrawn}
use eltex_courses_homeworks.FileManager.Session.{Good}

-- Every object of a listing is found in the directory.
abbrev pub AllFound : FileSystem → List ℕ → List Dirent → Type 0
AllFound fs cwd = All (λ e. (mode : ℕ) × (fs.lstat cwd e.d_name ≡ some mode))

classify-AllFound :
    (fs : FileSystem) (cwd : List ℕ) (es : List Dirent)
    → AllFound fs cwd es
    → (ts : List Dirent) × (classify fs cwd es ≡ done ts)
unfolding classify
classify-AllFound fs cwd [] found = ([], refl)
classify-AllFound fs cwd (e ∷ es) found =
    let (mode, hit) = found.0 in
    let (ts, run) = classify-AllFound fs cwd es found.1 in
    (set_type mode e ∷ ts, rw (hit, classify, run) refl)

-- ListDir opens a directory that is there and is not "..".
list_dir-ok :
    (fs : FileSystem) (cwd : List ℕ) (p : PmPanel) (names : List Dirent)
    → AllFound fs (chdir_or_stay fs cwd p.work_dir) names
    → str_eq p.work_dir (codes "..") ≡ false
    → fs.scandir cwd p.work_dir ≡ some names
    → (typed : List Dirent) × (list_dir fs cwd p
        ≡ done (ok, opened p names typed, chdir_or_stay fs cwd p.work_dir))
unfolding list_dir climb
list_dir-ok fs cwd p names found plain hit =
    let (typed, run) = classify-AllFound fs (chdir_or_stay fs cwd p.work_dir) names found in
    (typed, rw (plain, hit, list_dir, run) refl)

-- A panel of `main` that has been opened and drawn.
record Opened (fs : FileSystem) (cwd : List ℕ) (p : PmPanel) : Type 0 where
  pub q : PmPanel
  pub w : PmPanel
  pub run : list_dir fs cwd p ≡ done (ok, q, chdir_or_stay fs cwd p.work_dir)
  pub drawn : rendering_list_dir (chdir_or_stay fs cwd p.work_dir) q ≡ done w
  pub valid : Inv w
  pub shown : IsShown w
  pub active : w.active ≡ p.active

init_main_win-Opened :
    (fs : FileSystem) (cwd : List ℕ) (max_y : ℕ) (dir : List ℕ) (room : ℕ) (active : Bool)
    (names : List Dirent)
    → Lists fs
    → AllFound fs (chdir_or_stay fs cwd dir) names
    → 5 ≤ max_y
    → max_y < 2 ^ 31
    → str_eq dir (codes "..") ≡ false
    → fs.scandir cwd dir ≡ some names
    → Opened fs cwd (init_main_win max_y dir room active)
init_main_win-Opened fs cwd max_y dir room active names lists found tall low plain hit =
    let p = init_main_win max_y dir room active in
    let (typed, run) = list_dir-ok fs cwd p names found plain hit in
    let fresh : Fresh p (opened p names typed) =
      subst (Ended _ p) run (list_dir_any fs cwd p lists (omega arith)) in
    let (w, drawn, same, shown) =
      rendering_lem (chdir_or_stay fs cwd dir) (opened p names typed) fresh.valid.listed
        (omega arith) in
    record {
      q = opened p names typed;
      w = record (opened p names typed) { w_half = w; w_dir = chdir_or_stay fs cwd dir };
      run = run;
      drawn = drawn;
      valid = Inv-redrawn (opened p names typed) w (chdir_or_stay fs cwd dir) fresh.valid same;
      shown = shown;
      active = refl;
    }

-- Without arguments, on a terminal of 5 to 2 ^ 31 - 1 rows, over a file system whose listings hold
-- from 2 to 2 ^ 31 - 1 objects, where neither $HOME nor the current directory is "..", both can be
-- listed and all that is listed is found, main reaches its loop with two valid panels whose
-- windows show their lists, the left one active.
pub start-Good :
    (fs : FileSystem) (max_y : ℕ) (cwd home : List ℕ) (at_home here : List Dirent)
    → Lists fs
    → AllFound fs (chdir_or_stay fs cwd home) at_home
    → AllFound fs (chdir_or_stay fs (chdir_or_stay fs cwd home) cwd) here
    → 5 ≤ max_y
    → max_y < 2 ^ 31
    → str_eq home (codes "..") ≡ false
    → str_eq cwd (codes "..") ≡ false
    → fs.scandir cwd home ≡ some at_home
    → fs.scandir (chdir_or_stay fs cwd home) cwd ≡ some here
    → (m : Manager) × (start fs 1 max_y cwd (some home) ≡ done m) × Good m × (m.left.active ≡ true)
unfolding start
start-Good fs max_y cwd home at_home here lists found found' tall low plain plain' hit hit' =
    let r =
      init_main_win-Opened fs cwd max_y home (length home + 1) false at_home lists found tall low
        plain hit in
    let l =
      init_main_win-Opened fs (chdir_or_stay fs cwd home) max_y cwd path_max true here lists found'
        tall low plain' hit' in
    (
      record { left = l.w; right = r.w; cwd = chdir_or_stay fs (chdir_or_stay fs cwd home) cwd },
      rw (r.run, r.drawn, l.run, l.drawn) refl,
      record { left = l.valid; right = r.valid; left_shown = l.shown; right_shown = r.shown },
      l.active,
    )
