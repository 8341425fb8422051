-- ===== src/FileManager/Entering.antt =====
-- ENTER of file_manager/main_scandir.c, with the marks on the rows of the panel.
use eltex_courses_homeworks.Prelude.{
  ℕ, ◌≡◌, refl, ◌∙◌, sym, List, ◌==◌, get_elem?, some, Outcome, done, exit, fault, ◌>>=◌,
  exit_failure, arith, Bool-cases, inl, inr, ◌⊎◌,
}
use eltex_courses_homeworks.FileManager.Panel.{Dirent, PmPanel, dt_exec, rendering_list_dir}
use eltex_courses_homeworks.FileManager.Listing.{FileSystem, Status, ok, refused, list_dir}
use eltex_courses_homeworks.FileManager.Listing.Kept.{Kept-Inv, Overflows}
use eltex_courses_homeworks.FileManager.Listing.Laws.{Lists, Ended, list_dir_lem}
use eltex_courses_homeworks.FileManager.Keys.{Fork, child, failed, parent, try_exec, after_listing}
use eltex_courses_homeworks.FileManager.Cursor.{Inv, rendering_lem}
use eltex_courses_homeworks.FileManager.Cursor.Moves.{selected, Inv-redrawn}
use eltex_courses_homeworks.FileManager.Looks.{Canvas, drawn, enter_dir, enter_left_dir}
use eltex_courses_homeworks.FileManager.Marks.{
  Clean, drawn-Clean, IsShown-IsColoured, Kept-IsColoured,
}
use eltex_courses_homeworks.FileManager.Opening.{SelectedOverflows, SelectedRuns, aimed}

-- What holds of each way in which ENTER may end.
abbrev pub EntersClean : Type 0 → Outcome (PmPanel × List ℕ × Canvas) → Type 0
EntersClean F (done (q, cwd', c)) = Clean q c
EntersClean F (exit s) = s ≡ exit_failure
EntersClean F fault = F

EntersClean-weaken :
    {F G : Type 0}
    → (F → G)
    → (r : Outcome (PmPanel × List ℕ × Canvas)) → EntersClean F r
    → EntersClean G r
EntersClean-weaken g (done (q, cwd', c)) h = h
EntersClean-weaken g (exit s) h = h
EntersClean-weaken g fault h = g h

rendering-Clean :
    (at : ℕ) (cwd : List ℕ) (p : PmPanel)
    → Inv p
    → (q : PmPanel) × (rendering_list_dir cwd p ≡ done q) × Clean q (drawn at q)
rendering-Clean at cwd p v =
    let (w, run, tall, shown) = rendering_lem cwd p v.listed (omega arith) in
    let q = record p { w_half = w; w_dir = cwd } in
    (q, run, drawn-Clean at q (Inv-redrawn p w cwd v tall) (IsShown-IsColoured q shown))

listed-Clean :
    (at : ℕ) (fs : FileSystem) (cwd : List ℕ) (p : PmPanel) (c : Canvas) (e : Dirent)
    → Clean p c
    → get_elem? p.name_list p.selected_obj ≡ some e
    → (r : Outcome (Status × PmPanel × List ℕ)) → Ended (Overflows fs cwd (aimed p e)) (aimed p e) r
    → EntersClean (SelectedOverflows fs cwd p) (do
      (st, win, cwd') ← r
      (win', cwd'') ← after_listing st win cwd'
      done (win', cwd'', elim st [ ok ↦ drawn at win' | refused ↦ c ]))
listed-Clean at fs cwd p c e h here (done (ok, q, cwd')) f =
    let (q', run, clean) =
      rendering-Clean at cwd' (record q { selected_obj = 1 }) (ground (arith, f.valid, f.first)) in
    rw run clean
listed-Clean at fs cwd p c e h here (done (refused, q, cwd')) k = record {
  valid = Kept-Inv k (ground (arith, h.valid));
  coloured = Kept-IsColoured k h.coloured;
  others = λ i apart. rw k.w_half (h.others i (λ same. apart (same ∙ sym k.y)));
  rests = λ i apart. rw k.w_half (h.rests i (λ same. apart (same ∙ sym k.y)));
}
listed-Clean at fs cwd p c e h here (exit s) x = x
listed-Clean at fs cwd p c e h here fault o = record { e = e; here = here; dots = o.0; full = o.1 }

pub enter_dir-Clean :
    (at : ℕ) (fs : FileSystem) (cwd : List ℕ) (p : PmPanel) (c : Canvas)
    → Lists fs
    → Clean p c
    → EntersClean (SelectedOverflows fs cwd p) (enter_dir at fs cwd p c)
unfolding enter_dir
enter_dir-Clean at fs cwd p c lists h =
    let (e, here) = selected h.valid in
    rw here (
      listed-Clean at fs cwd p c e h here (list_dir fs cwd (aimed p e))
        (list_dir_lem fs cwd (aimed p e) lists (ground (arith, h.valid))))

pub enter_left_dir-Clean :
    (at : ℕ) (fs : FileSystem) (f : Fork) (cwd : List ℕ) (p : PmPanel) (c : Canvas)
    → Lists fs
    → Clean p c
    → EntersClean (SelectedOverflows fs cwd p ⊎ SelectedRuns f p) (enter_left_dir at fs f cwd p c)
unfolding enter_left_dir enter_dir
enter_left_dir-Clean at fs f cwd p c lists h =
    let (e, here) = selected h.valid in
    let (q, run, clean) = rendering-Clean at cwd p h.valid in
    rw here (elim (Bool-cases (e.d_type == dt_exec)) [
      | inl exec ↦
          rw exec
            (elim f
              as (λ g.
                EntersClean (SelectedOverflows fs cwd p ⊎ SelectedRuns g p) (
                  try_exec g >>= λ _.
                  rendering_list_dir cwd p >>= λ w. done (w, cwd, drawn at w))) [
                    | child ↦
                        inr (record { in_child = refl; e = e; here = here; executable = exec })
                    | failed ↦ rw run clean
                    | parent ↦ rw run clean
                  ])
      | inr dir ↦
          let opened =
            EntersClean-weaken {G = SelectedOverflows fs cwd p ⊎ SelectedRuns f p} (λ o. inl o)
              (enter_dir at fs cwd p c) (enter_dir-Clean at fs cwd p c lists h) in
          rw dir (rw here at opened)
    ])
