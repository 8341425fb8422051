-- ===== src/FileManager/Listing.antt =====
-- ListDir of file_manager/read_dir.c, over the calls that it makes of the file system.
pub mod Laws
pub mod Kept
use eltex_courses_homeworks.Prelude.{
  ℕ, ◌/◌, ◌%◌, Option, none, some, List, [], ◌∷◌, ◌==◌, ltb, if◌then◌else◌, sub32, codes, str_eq,
  length, get_elem?, set, Outcome, done, exit, fault, ◌>>=◌, deref, exit_failure,
}
use eltex_courses_homeworks.FileManager.Panel.{Dirent, Window, PmPanel, dt_dir, dt_reg, dt_exec}

-- The system calls, each at a current directory. A `none` is a result of -1. The current
-- directory is its absolute name, as `getcwd` gives it.
pub record FileSystem : Type 0 where
  pub chdir : List ℕ → List ℕ → Option (List ℕ)
  pub scandir : List ℕ → List ℕ → Option (List Dirent)
  pub lstat : List ℕ → List ℕ → Option ℕ

-- 0 and -1 as results
pub data Status : Type 0 where
  ok refused : Status

-- S_ISDIR, S_ISREG and the program's S_ISEXEC, on `st_mode`
abbrev pub file_kind : ℕ → ℕ
file_kind mode = mode / 4096 % 16

unfoldable pub set_type : ℕ → Dirent → Dirent
set_type mode e =
    if file_kind mode == 4
    then record e { d_type = dt_dir }
    else if file_kind mode == 8
    then (if mode / 64 % 2 == 1
        then record e { d_type = dt_exec }
        else record e { d_type = dt_reg })
    else e

-- A change of directory whose result the program does not test.
abbrev pub chdir_or_stay : FileSystem → List ℕ → List ℕ → List ℕ
chdir_or_stay fs cwd path = elim (fs.chdir cwd path) [ none ↦ cwd | some cwd' ↦ cwd' ]

-- The loop over `lstat`
unfoldable pub classify : FileSystem → List ℕ → List Dirent → Outcome (List Dirent)
classify fs cwd [] = done []
classify fs cwd (e ∷ es) = elim (fs.lstat cwd e.d_name) [
  | none ↦ exit exit_failure
  | some mode ↦ do es' ← classify fs cwd es; done (set_type mode e ∷ es')
]

abbrev pub rename : List Dirent → Option ℕ → List ℕ → List Dirent
rename names none s = names
rename names (some i) s = elim (get_elem? names i) [
  | none ↦ names
  | some e ↦ set names i (record e { d_name = s })
]

-- `strcpy (win->work_dir, buff)`
unfoldable pub copy_work_dir : List ℕ → PmPanel → Outcome PmPanel
copy_work_dir buff win =
    if ltb (length buff) win.work_room
    then done (record win { work_dir = buff; name_list = rename win.name_list win.work_entry buff })
    else fault

-- The treatment of "..": the panel and the current directory after it
unfoldable pub climb : FileSystem → List ℕ → PmPanel → Outcome (PmPanel × List ℕ)
climb fs cwd win =
    if str_eq win.work_dir (codes "..")
    then (do
      let cwd' = chdir_or_stay fs cwd (codes "..")
      win' ← copy_work_dir cwd' win
      done (win', cwd'))
    else done (win, cwd)

-- The panel over a new list of objects
abbrev pub opened : PmPanel → List Dirent → List Dirent → PmPanel
opened win names typed = record win {
  dir_num = length names;
  size = sub32 win.w_half.height 2;
  list_begin = 0;
  list_end = sub32 win.w_half.height 2;
  y = 1;
  x = 1;
  selected_obj = 1;
  name_list = typed;
  work_entry = none;
}

-- `ListDir`: its result, the panel and the current directory. In the message about a refusal the
-- program reads the name of the selected object.
unfoldable pub list_dir : FileSystem → List ℕ → PmPanel → Outcome (Status × PmPanel × List ℕ)
list_dir fs cwd win = do
  (win', cwd') ← climb fs cwd win
  elim (fs.scandir cwd' win'.work_dir) [
    | none ↦ (do e ← deref (get_elem? win'.name_list win'.selected_obj); done (refused, win', cwd'))
    | some names ↦ (do
      let cwd'' = chdir_or_stay fs cwd' win'.work_dir
      typed ← classify fs cwd'' names
      done (ok, opened win' names typed, cwd''))
  ]
