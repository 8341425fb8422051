-- ===== src/FileManager/Handling.antt =====
-- What one key does to the marks on the screen of file_manager/.
use eltex_courses_homeworks.Prelude.{
  ℕ, ◌≡◌, refl, Bool, true, false, Option, none, some, List, if◌then◌else◌, Outcome, done, exit,
  fault, exit_failure, ◌>>=◌, arith, Bool-cases, ◌⊎◌, inl, inr,
}
use eltex_courses_homeworks.FileManager.Panel.{PmPanel}
use eltex_courses_homeworks.FileManager.Listing.{FileSystem, chdir_or_stay}
use eltex_courses_homeworks.FileManager.Listing.Laws.{Lists}
use eltex_courses_homeworks.FileManager.Keys.{Fork, Key, up, down, tab, quit, other, enter}
use eltex_courses_homeworks.FileManager.Looks.{
  Attribute, bold, dim, look, Canvas, wchgat, Desk, mark, raise, lower, moves, enter_dir,
  enter_left_dir, press_desk,
}
use eltex_courses_homeworks.FileManager.Marks.{
  Clean, Marked, mvwchgat-Marked, wchgat-Marked, Moves, raise-Moves, lower-Moves, mark_moves-Marked,
}
use eltex_courses_homeworks.FileManager.Opening.{SelectedOverflows, SelectedRuns, UndefinedEnter}
use eltex_courses_homeworks.FileManager.Entering.{
  EntersClean, enter_dir-Clean, enter_left_dir-Clean,
}

-- Valid panels, each with its row marked.
pub record HasMarks (a b : Attribute) (d : Desk) : Type 0 where
  pub left : Marked a d.manager.left d.left
  pub right : Marked b d.manager.right d.right

-- Valid panels, with any look on the rows of the cursors.
pub record IsClean (d : Desk) : Type 0 where
  pub left : Clean d.manager.left d.left
  pub right : Clean d.manager.right d.right

-- The mark of the active panel is bold, and that of the other one dim.
abbrev pub IsMarked : Desk → Type 0
IsMarked d =
    HasMarks (if d.manager.left.active then bold else dim)
      (if d.manager.left.active then dim else bold) d

pub mark-IsMarked : (d : Desk) → IsClean d → IsMarked (mark d)
mark-IsMarked d h =
    let m = d.manager in
    record {
      left = mvwchgat-Marked (if m.left.active then bold else dim) m.left d.left h.left;
      right = mvwchgat-Marked (if m.left.active then dim else bold) m.right d.right h.right;
    }

abbrev pub IsEnter : Key → Type 0
IsEnter (enter f) = Unit
IsEnter _ = ⊥

-- What holds of each way in which the handling of a key may end.
abbrev pub Handled : FileSystem → Desk → Key → Outcome (Option Desk) → Type 0
Handled fs d k (done none) = k ≡ quit
Handled fs d k (done (some d')) = IsClean d'
Handled fs d k (exit s) = (s ≡ exit_failure) × IsEnter k
Handled fs d k fault = UndefinedEnter fs d.manager k

-- A key that moves the cursor of the active panel.
moves-IsClean :
    (at : ℕ) (step : PmPanel → PmPanel) {a b : Attribute} (d : Desk)
    → Moves step
    → HasMarks a b d
    → (d' : Desk) × (moves at step d ≡ done (some d')) × IsClean d'
unfolding moves
moves-IsClean at step d steps h =
    let m = d.manager in
    elim (Bool-cases m.left.active) [
      | inl on ↦
          let (q, c, run, now) = mark_moves-Marked at m.cwd step m.left d.left steps h.left in
          (
            record d { manager = record m { left = q }; left = c },
            simp (on, run),
            record { left = now.clean; right = h.right.clean },
          )
      | inr off ↦
          let (q, c, run, now) = mark_moves-Marked at m.cwd step m.right d.right steps h.right in
          (
            record d { manager = record m { right = q }; right = c },
            simp (off, run),
            record { left = h.left.clean; right = now.clean },
          )
    ]

-- The other panel becomes the active one.
turned :
    {a b : Attribute} (d : Desk) (x : Bool) (cwd : List ℕ) (c k : Attribute)
    → HasMarks a b d
    → IsClean (record d {
      manager = record (d.manager) { left = record (d.manager.left) { active = x }; cwd = cwd };
      left = wchgat (look c 1) d.left;
      right = wchgat (look k 1) d.right;
    })
turned {a} {b} d x cwd c k h =
    let l = (wchgat-Marked a c d.manager.left d.left h.left).clean in
    record {
      left = record {
        valid = ground (arith, l.valid);
        coloured = l.coloured;
        others = l.others;
        rests = l.rests;
      };
      right = (wchgat-Marked b k d.manager.right d.right h.right).clean;
    }

entered-left :
    (fs : FileSystem) (f : Fork) {a b : Attribute} (d : Desk)
    → HasMarks a b d
    → d.manager.left.active ≡ true
    → (r : Outcome (PmPanel × List ℕ × Canvas))
    → EntersClean
        (SelectedOverflows fs d.manager.cwd d.manager.left ⊎ SelectedRuns f d.manager.left)
        r
    → Handled fs d (enter f) (do
      (win, cwd, c) ← r
      done (some (record d { manager = record (d.manager) { left = win; cwd = cwd }; left = c })))
entered-left fs f d h on (done (q, cwd, c)) clean = record { left = clean; right = h.right.clean }
entered-left fs f d h on (exit s) e = (e, tt)
entered-left fs f d h on fault o = simp on o

entered-right :
    (fs : FileSystem) (f : Fork) {a b : Attribute} (d : Desk)
    → HasMarks a b d
    → d.manager.left.active ≡ false
    → (r : Outcome (PmPanel × List ℕ × Canvas))
    → EntersClean (SelectedOverflows fs d.manager.cwd d.manager.right) r
    → Handled fs d (enter f) (do
      (win, cwd, c) ← r
      done (some (record d { manager = record (d.manager) { right = win; cwd = cwd }; right = c })))
entered-right fs f d h off (done (q, cwd, c)) clean = record { left = h.left.clean; right = clean }
entered-right fs f d h off (exit s) e = (e, tt)
entered-right fs f d h off fault o = simp off o

on_either-Handled :
    (fs : FileSystem) (d : Desk) (k : Key) (b : Bool) (r r' : Outcome (Option Desk))
    → (b ≡ true → Handled fs d k r)
    → (b ≡ false → Handled fs d k r')
    → Handled fs d k (if b then r else r')
on_either-Handled fs d k true r r' h h' = h refl
on_either-Handled fs d k false r r' h h' = h' refl

pub press_desk-Handled :
    (fs : FileSystem) (at : ℕ) {a b : Attribute} (d : Desk) (k : Key)
    → Lists fs
    → HasMarks a b d
    → Handled fs d k (press_desk fs at d k)
unfolding press_desk
press_desk-Handled fs at d quit lists h = refl
press_desk-Handled fs at d other lists h = record { left = h.left.clean; right = h.right.clean }
press_desk-Handled fs at d up lists h =
    let (d', run, clean) = moves-IsClean at raise d raise-Moves h in rw run clean
press_desk-Handled fs at d down lists h =
    let (d', run, clean) = moves-IsClean at lower d lower-Moves h in rw run clean
press_desk-Handled fs at d tab lists h = elim (Bool-cases d.manager.left.active) [
  | inl on ↦
      simp on (turned d false (chdir_or_stay fs d.manager.cwd d.manager.right.work_dir) dim bold h)
  | inr off ↦
      simp off (turned d true (chdir_or_stay fs d.manager.cwd d.manager.left.work_dir) bold dim h)
]
press_desk-Handled fs at d (enter f) lists h =
    let m = d.manager in
    on_either-Handled fs d (enter f) m.left.active _ _
      (λ on.
        entered-left fs f d h on (enter_left_dir at fs f m.cwd m.left d.left)
          (enter_left_dir-Clean at fs f m.cwd m.left d.left lists h.left.clean))
      (λ off.
        entered-right fs f d h off (enter_dir at fs m.cwd m.right d.right)
          (enter_dir-Clean at fs m.cwd m.right d.right lists h.right.clean))
