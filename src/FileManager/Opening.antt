-- ===== src/FileManager/Opening.antt =====
-- ENTER, and any key, of file_manager/main_scandir.c.
use eltex_courses_homeworks.Prelude.{
  ℕ, ◌≤◌, ◌≡◌, refl, ◌∙◌, true, false, Option, none, some, List, ◌==◌, if◌then◌else◌, length,
  get_elem?, codes, str_eq, Outcome, done, exit, fault, ◌>>=◌, exit_failure, arith, Bool-cases, inl,
  inr, ◌⊎◌,
}
use eltex_courses_homeworks.FileManager.Panel.{Dirent, PmPanel, dt_exec, rendering_list_dir}
use eltex_courses_homeworks.FileManager.Listing.{
  FileSystem, Status, ok, refused, chdir_or_stay, list_dir,
}
use eltex_courses_homeworks.FileManager.Listing.Laws.{Lists, Ended, list_dir_lem}
use eltex_courses_homeworks.FileManager.Listing.Kept.{Kept-Inv, Overflows}
use eltex_courses_homeworks.FileManager.Keys.{
  Fork, child, failed, parent, try_exec, Key, up, down, tab, quit, other, enter, Manager,
  after_listing, open_selected, enter_left, press,
}
use eltex_courses_homeworks.FileManager.Cursor.{Inv, rendering_lem}
use eltex_courses_homeworks.FileManager.Cursor.Moves.{
  selected, key_up-Moved, key_down-Moved, Inv-redrawn,
}

-- The selected object is "..", and the name of the parent does not fit behind it.
pub record SelectedOverflows (fs : FileSystem) (cwd : List ℕ) (p : PmPanel) : Type 0 where
  pub e : Dirent
  pub here : get_elem? p.name_list p.selected_obj ≡ some e
  pub dots : str_eq e.d_name (codes "..") ≡ true
  pub full : e.name_room ≤ length (chdir_or_stay fs cwd (codes ".."))

-- The selected object is executable, and this is the child that is to become it.
pub record SelectedRuns (f : Fork) (p : PmPanel) : Type 0 where
  pub in_child : f ≡ child
  pub e : Dirent
  pub here : get_elem? p.name_list p.selected_obj ≡ some e
  pub executable : (e.d_type == dt_exec) ≡ true

-- Where ENTER is undefined: on the left panel an executable object is run.
abbrev pub UndefinedEnter : FileSystem → Manager → Key → Type 0
UndefinedEnter fs m (enter f) =
    if m.left.active
    then SelectedOverflows fs m.cwd m.left ⊎ SelectedRuns f m.left
    else SelectedOverflows fs m.cwd m.right
UndefinedEnter fs m _ = ⊥

-- What holds of each way in which ENTER may end, given what holds where it is undefined.
abbrev pub Entered : Type 0 → PmPanel → Outcome (PmPanel × List ℕ) → Type 0
Entered F p (done (q, c)) = Inv q × (q.active ≡ p.active)
Entered F p (exit s) = s ≡ exit_failure
Entered F p fault = F

-- the panel that ENTER hands to `ListDir`
abbrev pub aimed : PmPanel → Dirent → PmPanel
aimed p e = record p {
  work_dir = e.d_name;
  work_room = e.name_room;
  work_entry = some p.selected_obj;
}

drawn_Inv :
    (cwd : List ℕ) {p : PmPanel}
    → Inv p
    → (q : PmPanel) × (rendering_list_dir cwd p ≡ done q) × Inv q × (q.active ≡ p.active)
drawn_Inv cwd {p} v =
    let (w, run, tall, shown) = rendering_lem cwd p v.listed (omega arith) in
    (record p { w_half = w; w_dir = cwd }, run, Inv-redrawn p w cwd v tall, refl)

after_listing_lem :
    (fs : FileSystem) (cwd : List ℕ) (p : PmPanel) (e : Dirent)
    → Inv p
    → get_elem? p.name_list p.selected_obj ≡ some e
    → (r : Outcome (Status × PmPanel × List ℕ)) → Ended (Overflows fs cwd (aimed p e)) (aimed p e) r
    → Entered (SelectedOverflows fs cwd p) p (r >>= λ (st, q, c). after_listing st q c)
after_listing_lem fs cwd p e v here (done (ok, q, c)) h =
    let (q', run, v', same) =
      drawn_Inv c {p = record q { selected_obj = 1 }} (ground (arith, h.valid, h.first)) in
    rw run (v', same ∙ h.active)
after_listing_lem fs cwd p e v here (done (refused, q, c)) h =
    (Kept-Inv h (ground (arith, v)), h.active)
after_listing_lem fs cwd p e v here (exit s) h = h
after_listing_lem fs cwd p e v here fault h = record { e = e; here = here; dots = h.0; full = h.1 }

-- ENTER on an object taken for a directory, in a valid panel: the panel is valid after it, unless
-- the program exits with a failure, or the name of the parent does not fit behind the selected "..".
open_selected_lem :
    (fs : FileSystem) (cwd : List ℕ) (p : PmPanel)
    → Lists fs
    → Inv p
    → Entered (SelectedOverflows fs cwd p) p (open_selected fs cwd p)
unfolding open_selected
open_selected_lem fs cwd p lists v =
    let (e, here) = selected v in
    rw here (
      after_listing_lem fs cwd p e v here (list_dir fs cwd (aimed p e))
        (list_dir_lem fs cwd (aimed p e) lists (ground (arith, v))))

Entered-weaken :
    {F G : Type 0} (p : PmPanel)
    → (F → G)
    → (r : Outcome (PmPanel × List ℕ)) → Entered F p r
    → Entered G p r
Entered-weaken p g (done (q, c)) h = h
Entered-weaken p g (exit s) h = h
Entered-weaken p g fault h = g h

-- The same for ENTER on the left panel, which runs an executable object in a child process.
enter_left_lem :
    (fs : FileSystem) (f : Fork) (cwd : List ℕ) (p : PmPanel)
    → Lists fs
    → Inv p
    → Entered (SelectedOverflows fs cwd p ⊎ SelectedRuns f p) p (enter_left fs f cwd p)
unfolding enter_left
enter_left_lem fs f cwd p lists v =
    let (e, here) = selected v in
    let (q, run, v', same) = drawn_Inv cwd v in
    rw here (elim (Bool-cases (e.d_type == dt_exec)) [
      | inl exec ↦
          rw exec
            (elim f
              as (λ g.
                Entered (SelectedOverflows fs cwd p ⊎ SelectedRuns g p) p
                  (try_exec g >>= λ _. rendering_list_dir cwd p >>= λ w. done (w, cwd))) [
                    | child ↦
                        inr (record { in_child = refl; e = e; here = here; executable = exec })
                    | failed ↦ rw run (v', same)
                    | parent ↦ rw run (v', same)
                  ])
      | inr dir ↦ rw dir (
          Entered-weaken p (λ o. inl o) (open_selected fs cwd p)
            (open_selected_lem fs cwd p lists v))
    ])

-- Both panels are valid.
pub record Valid (m : Manager) : Type 0 where
  pub left : Inv m.left
  pub right : Inv m.right

-- What holds of each way in which the handling of a key may end.
abbrev pub Pressed : FileSystem → Manager → Key → Outcome (Option Manager) → Type 0
Pressed fs m k (done none) = k ≡ quit
Pressed fs m k (done (some m')) = Valid m'
Pressed fs m k (exit s) = s ≡ exit_failure
Pressed fs m k fault = UndefinedEnter fs m k

Pressed-left :
    (fs : FileSystem) (m : Manager) (f : Fork)
    → Valid m
    → m.left.active ≡ true
    → (r : Outcome (PmPanel × List ℕ))
    → Entered (SelectedOverflows fs m.cwd m.left ⊎ SelectedRuns f m.left) m.left r
    → Pressed fs m (enter f) (r >>= λ (win, c). done (some (record m { left = win; cwd = c })))
Pressed-left fs m f v on (done (q, c)) h = record { left = h.0; right = v.right }
Pressed-left fs m f v on (exit s) h = h
Pressed-left fs m f v on fault h = simp on h

Pressed-right :
    (fs : FileSystem) (m : Manager) (f : Fork)
    → Valid m
    → m.left.active ≡ false
    → (r : Outcome (PmPanel × List ℕ)) → Entered (SelectedOverflows fs m.cwd m.right) m.right r
    → Pressed fs m (enter f) (r >>= λ (win, c). done (some (record m { right = win; cwd = c })))
Pressed-right fs m f v off (done (q, c)) h = record { left = v.left; right = h.0 }
Pressed-right fs m f v off (exit s) h = h
Pressed-right fs m f v off fault h = simp off h

-- For any key, ENTER included, on two valid panels, over a file system whose listings hold from 2
-- to 2 ^ 31 - 1 objects: both panels are valid after it, or the key was q and the loop ends, or the
-- program exits with a failure, or it is undefined; the last only on ENTER, where the selected
-- object of the active panel is ".." and the name of the directory reached from it does not fit
-- into the storage of that object's name, or, on the left panel, in the child that is to become an
-- executable object.
pub press-Valid :
    (fs : FileSystem) (m : Manager) (k : Key) → Lists fs → Valid m → Pressed fs m k (press fs m k)
unfolding press
press-Valid fs m up lists v = elim (Bool-cases m.left.active) [
  | inl on ↦
      let (q, run, g) = key_up-Moved m.cwd v.left in
      simp (on, run) (record { left = g.kept; right = v.right })
  | inr off ↦
      let (q, run, g) = key_up-Moved m.cwd v.right in
      simp (off, run) (record { left = v.left; right = g.kept })
]
press-Valid fs m down lists v = elim (Bool-cases m.left.active) [
  | inl on ↦
      let (q, run, g) = key_down-Moved m.cwd v.left in
      simp (on, run) (record { left = g.kept; right = v.right })
  | inr off ↦
      let (q, run, g) = key_down-Moved m.cwd v.right in
      simp (off, run) (record { left = v.left; right = g.kept })
]
press-Valid fs m tab lists v = elim (Bool-cases m.left.active) [
  | inl on ↦ simp on (record { left = ground (arith, v.left); right = v.right })
  | inr off ↦ simp off (record { left = ground (arith, v.left); right = v.right })
]
press-Valid fs m quit lists v = refl
press-Valid fs m other lists v = v
press-Valid fs m (enter f) lists v = elim (Bool-cases m.left.active) [
  | inl on ↦ simp on (
      Pressed-left fs m f v on (enter_left fs f m.cwd m.left)
        (enter_left_lem fs f m.cwd m.left lists v.left))
  | inr off ↦ simp off (
      Pressed-right fs m f v off (open_selected fs m.cwd m.right)
        (open_selected_lem fs m.cwd m.right lists v.right))
]
