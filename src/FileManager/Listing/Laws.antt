-- ===== src/FileManager/Listing/Laws.antt =====
-- How ListDir of file_manager/read_dir.c ends, on every branch.
use eltex_courses_homeworks.Prelude.{
  ℕ, suc, ◌^◌, ◌≤◌, ◌<◌, ◌≡◌, refl, ap, ◌⊎◌, inl, inr, some, List, [], ◌∷◌, length, get_elem?,
  get_elem?-none, Outcome, done, exit, fault, exit_failure, arith, Option-cases,
}
use eltex_courses_homeworks.FileManager.Panel.{Dirent, Window, PmPanel}
use eltex_courses_homeworks.FileManager.Listing.{
  FileSystem, Status, ok, refused, set_type, chdir_or_stay, classify, opened, list_dir,
}
use eltex_courses_homeworks.FileManager.Listing.Kept.{Kept, Overflows, climb-cases}
use eltex_courses_homeworks.FileManager.Cursor.{Inv}

classify-cases :
    (fs : FileSystem) (cwd : List ℕ) (es : List Dirent)
    → (classify fs cwd es ≡ exit exit_failure)
      ⊎ ((ts : List Dirent) × (classify fs cwd es ≡ done ts) × (length ts ≡ length es))
unfolding classify
classify-cases fs cwd [] = inr ([], refl, refl)
classify-cases fs cwd (e ∷ es) = elim (Option-cases (fs.lstat cwd e.d_name)) [
  | inl miss ↦ inl (rw (miss, classify))
  | inr (mode, hit) ↦ elim (classify-cases fs cwd es) [
    | inl bad ↦ inl (rw (hit, classify) (rw bad))
    | inr (ts, good, same) ↦ inr (set_type mode e ∷ ts, rw (hit, classify) (rw good), ap suc same)
  ]
]

-- The terminal has a row for the cursor to move on, and `int` holds its rows and the objects of
-- any directory; a directory holds "." and "..".
pub record Lists (fs : FileSystem) : Type 0 where
  pub two :
      (cwd path : List ℕ) (names : List Dirent)
      → fs.scandir cwd path ≡ some names
      → 2 ≤ length names
  pub few :
      (cwd path : List ℕ) (names : List Dirent)
      → fs.scandir cwd path ≡ some names
      → length names < 2 ^ 31

abbrev pub IsTall : PmPanel → Type 0
IsTall p = (4 ≤ p.w_half.height) × (p.w_half.height < 2 ^ 31)

Inv-IsTall : {p : PmPanel} → Inv p → IsTall p
Inv-IsTall v = omega arith

-- A panel that has just been opened.
pub record Fresh (p q : PmPanel) : Type 0 where
  pub valid : Inv q
  pub top : q.list_begin ≡ 0
  pub first : q.selected_obj ≡ 1
  pub active : q.active ≡ p.active

opened-Fresh :
    (p q : PmPanel) (names typed : List Dirent)
    → IsTall p
    → Kept p q
    → 2 ≤ length names
    → length names < 2 ^ 31
    → length typed ≡ length names
    → Fresh p (opened q names typed)
opened-Fresh p q names typed tall k two few same =
    let e = ap (λ (w : Window). w.height) k.w_half in
    record { valid = omega arith; top = refl; first = refl; active = k.active }

-- What holds of each way in which `ListDir` may end, given what holds where it is undefined.
abbrev pub Ended : Type 0 → PmPanel → Outcome (Status × PmPanel × List ℕ) → Type 0
Ended F p (done (ok, q, c)) = Fresh p q
Ended F p (done (refused, q, c)) = Kept p q
Ended F p (exit s) = s ≡ exit_failure
Ended F p fault = F

Ended-weaken :
    {F G : Type 0} (p : PmPanel)
    → (F → G)
    → (r : Outcome (Status × PmPanel × List ℕ)) → Ended F p r
    → Ended G p r
Ended-weaken p f (done (ok, q, c)) h = h
Ended-weaken p f (done (refused, q, c)) h = h
Ended-weaken p f (exit s) h = h
Ended-weaken p f fault h = f h

-- On any panel with a window of 4 to 2 ^ 31 - 1 rows, over a file system whose listings hold from 2
-- to 2 ^ 31 - 1 objects, ListDir ends as it does on a valid panel, or is undefined where the
-- selected object is beyond the list.
pub list_dir_any :
    (fs : FileSystem) (cwd : List ℕ) (p : PmPanel)
    → Lists fs
    → IsTall p
    → Ended (Overflows fs cwd p ⊎ (length p.name_list ≤ p.selected_obj)) p (list_dir fs cwd p)
unfolding list_dir
list_dir_any fs cwd p lists tall = elim (climb-cases fs cwd p) [
  | inl (bad, why) ↦ rw bad (inl why)
  | inr (q, c, good, k) ↦ rw good (elim (Option-cases (fs.scandir c q.work_dir)) [
    | inl miss ↦
        rw (miss, list_dir)
          (elim (Option-cases (get_elem? q.name_list q.selected_obj)) [
            | inl unread ↦ rw unread (
                inr (
                  omega (
                    arith,
                    get_elem?-none q.name_list q.selected_obj unread,
                    k.many,
                    k.selected_obj,
                  )))
            | inr (e, here) ↦ rw here k
          ])
    | inr (names, hit) ↦
        rw (hit, list_dir)
          (elim (classify-cases fs (chdir_or_stay fs c q.work_dir) names) [
            | inl bad ↦ rw bad refl
            | inr (typed, good, same) ↦ rw good (
                opened-Fresh p q names typed tall k (lists.two c q.work_dir names hit)
                  (lists.few c q.work_dir names hit) same)
          ])
  ])
]

-- On a valid panel, over a file system whose listings hold from 2 to 2 ^ 31 - 1 objects, ListDir
-- either opens a valid panel at its first object; or refuses and keeps every field of the panel but
-- `work_dir` and, where that was ".." and is the name of an object of the list, that name; or exits
-- with a failure; or is undefined, only where `work_dir` is ".." and the name of the directory
-- reached from it does not fit into its storage.
pub list_dir_lem :
    (fs : FileSystem) (cwd : List ℕ) (p : PmPanel)
    → Lists fs
    → Inv p
    → Ended (Overflows fs cwd p) p (list_dir fs cwd p)
list_dir_lem fs cwd p lists v =
    Ended-weaken p (λ h. elim h [ inl o ↦ o | inr none_there ↦ absurd (omega arith) ])
      (list_dir fs cwd p) (list_dir_any fs cwd p lists (Inv-IsTall v))
