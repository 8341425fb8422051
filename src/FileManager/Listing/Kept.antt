-- ===== src/FileManager/Listing/Kept.antt =====
-- What the treatment of ".." in ListDir of file_manager/read_dir.c keeps of a panel.
use eltex_courses_homeworks.Prelude.{
  ℕ, zero, suc, ◌≤◌, ◌≡◌, refl, ap, ◌⊎◌, inl, inr, true, Option, none, some, List, [], ◌∷◌, ltb,
  codes, str_eq, length, length-set, get_elem?, set, done, fault, arith, Bool-cases, Option-cases,
}
use eltex_courses_homeworks.FileManager.Panel.{Dirent, Window, PmPanel}
use eltex_courses_homeworks.FileManager.Listing.{
  FileSystem, chdir_or_stay, rename, copy_work_dir, climb,
}
use eltex_courses_homeworks.FileManager.Cursor.{Inv}

-- Each object of `names'` has the type of the object of `names` in its place.
abbrev pub SameTypes : List Dirent → List Dirent → Type 0
SameTypes names names' =
    (j : ℕ) (e : Dirent)
    → get_elem? names' j ≡ some e
    → (f : Dirent) × (get_elem? names j ≡ some f) × (e.d_type ≡ f.d_type)

SameTypes-set :
    (names : List Dirent) (i : ℕ) (e : Dirent) (s : List ℕ)
    → get_elem? names i ≡ some e
    → SameTypes names (set names i (record e { d_name = s }))
SameTypes-set [] i e s hit j g at = cc
SameTypes-set (a ∷ names) zero e s hit zero g at = (a, refl, ground arith)
SameTypes-set (a ∷ names) zero e s hit (suc j) g at = (g, at, refl)
SameTypes-set (a ∷ names) (suc i) e s hit zero g at = (g, at, refl)
SameTypes-set (a ∷ names) (suc i) e s hit (suc j) g at = SameTypes-set names i e s hit j g at

SameTypes-rename :
    (names : List Dirent) (o : Option ℕ) (s : List ℕ) → SameTypes names (rename names o s)
SameTypes-rename names none s = λ j e at. (e, at, refl)
SameTypes-rename names (some i) s = elim (Option-cases (get_elem? names i)) [
  | inl miss ↦ rw (miss, rename) (λ j e at. (e, at, refl))
  | inr (e, hit) ↦ rw (hit, rename) (SameTypes-set names i e s hit)
]

-- What a refusal leaves: all but the name of the directory, and that name in the list where
-- `work_dir` points into it.
pub record Kept (p q : PmPanel) : Type 0 where
  pub w_half : q.w_half ≡ p.w_half
  pub w_dir : q.w_dir ≡ p.w_dir
  pub y : q.y ≡ p.y
  pub x : q.x ≡ p.x
  pub selected_obj : q.selected_obj ≡ p.selected_obj
  pub list_begin : q.list_begin ≡ p.list_begin
  pub list_end : q.list_end ≡ p.list_end
  pub dir_num : q.dir_num ≡ p.dir_num
  pub size : q.size ≡ p.size
  pub many : length q.name_list ≡ length p.name_list
  pub active : q.active ≡ p.active
  pub types : SameTypes p.name_list q.name_list
  pub work_room : q.work_room ≡ p.work_room
  pub work_entry : q.work_entry ≡ p.work_entry
  pub names :
      ((q.work_dir ≡ p.work_dir) × (q.name_list ≡ p.name_list))
      ⊎ ((str_eq p.work_dir (codes "..") ≡ true)
          × (q.name_list ≡ rename p.name_list p.work_entry q.work_dir))

pub Kept-Inv : {p q : PmPanel} → Kept p q → Inv p → Inv q
Kept-Inv {p} {q} k v = ground (arith, k.w_half, ap (λ (w : Window). w.height) k.w_half)

length-rename :
    (names : List Dirent) (o : Option ℕ) (s : List ℕ) → length (rename names o s) ≡ length names
length-rename names none s = refl
length-rename names (some i) s = elim (Option-cases (get_elem? names i)) [
  | inl miss ↦ ground arith
  | inr (e, hit) ↦ ground (arith, length-set names i (record e { d_name = s }))
]

-- The name of the parent does not fit behind the name that is overwritten.
abbrev pub Overflows : FileSystem → List ℕ → PmPanel → Type 0
Overflows fs cwd p =
    (str_eq p.work_dir (codes "..") ≡ true)
    × (p.work_room ≤ length (chdir_or_stay fs cwd (codes "..")))

Kept-refl : (p : PmPanel) → Kept p p
Kept-refl p = record {
  w_half = refl;
  y = refl;
  selected_obj = refl;
  list_begin = refl;
  w_dir = refl;
  x = refl;
  list_end = refl;
  work_room = refl;
  work_entry = refl;
  dir_num = refl;
  size = refl;
  many = refl;
  active = refl;
  types = λ j e at. (e, at, refl);
  names = inl (refl, refl);
}

pub climb-cases :
    (fs : FileSystem) (cwd : List ℕ) (p : PmPanel)
    → ((climb fs cwd p ≡ fault) × Overflows fs cwd p)
      ⊎ ((q : PmPanel) × (c : List ℕ) × (climb fs cwd p ≡ done (q, c)) × Kept p q)
unfolding climb copy_work_dir
climb-cases fs cwd p = elim (Bool-cases (str_eq p.work_dir (codes ".."))) [
  | inl dots ↦ elim (Bool-cases (ltb (length (chdir_or_stay fs cwd (codes ".."))) p.work_room)) [
    | inl fits ↦ inr (
      record p {
        work_dir = chdir_or_stay fs cwd (codes "..");
        name_list = rename p.name_list p.work_entry (chdir_or_stay fs cwd (codes ".."));
      },
      chdir_or_stay fs cwd (codes ".."),
      rw (dots, fits),
      record {
        w_half = refl;
        y = refl;
        selected_obj = refl;
        list_begin = refl;
        w_dir = refl;
        x = refl;
        list_end = refl;
        work_room = refl;
        work_entry = refl;
        dir_num = refl;
        size = refl;
        many = length-rename p.name_list p.work_entry (chdir_or_stay fs cwd (codes ".."));
        active = refl;
        types = SameTypes-rename p.name_list p.work_entry (chdir_or_stay fs cwd (codes ".."));
        names = inr (dots, refl);
      },
    )
    | inr short ↦ inl (rw (dots, short), (dots, ground arith))
  ]
  | inr other ↦ inr (p, cwd, rw other, Kept-refl p)
]
