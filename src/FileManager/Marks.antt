-- ===== src/FileManager/Marks.antt =====
-- Which rows are marked in the windows of file_manager/.
use eltex_courses_homeworks.Prelude.{
  ℕ, ◌+◌, ◌<◌, ◌≡◌, ◌≢◌, refl, sym, ap, ◌∙◌, ◌⊎◌, false, some, List, if◌then◌else◌, ◌==◌, get_elem?,
  done, arith, Bool-cases, inl, inr, lt→ltb,
}
use mathlib.Core.Path.{subst}
use native.Mathlib.Decide.{ℕ_discrete}
use eltex_courses_homeworks.Prelude.Family.{update_eq, update_ne}
use eltex_courses_homeworks.FileManager.Panel.{
  Dirent, Window, PmPanel, dt_exec, draw_entry, within_screen, coord_control,
}
use eltex_courses_homeworks.FileManager.Listing.Kept.{Kept}
use eltex_courses_homeworks.FileManager.Keys.{key_up, key_down}
use eltex_courses_homeworks.FileManager.Looks.{
  Attribute, bold, normal, Look, look, Canvas, wchgat, mvwchgat, drawn_look, drawn, redraws,
  mark_moves, raise, lower,
}
use eltex_courses_homeworks.FileManager.Cursor.{find_row, IsShown, IsShownAs, Keeps, Inv, Moved}
use eltex_courses_homeworks.FileManager.Cursor.Moves.{selected, key_up-Moved, key_down-Moved}

-- The look of an object.
abbrev pub restored : Dirent → Look
restored e = if e.d_type == dt_exec then look bold 3 else look normal 1

-- Inside the border each row has been drawn with the look of the object that belongs there.
abbrev pub IsColoured : PmPanel → Type 0
IsColoured p = IsShownAs (λ k e o. drawn_look o ≡ restored e) p

-- The panel is valid, its rows were drawn with the looks of its objects, and in every row but that of
-- the cursor the text looks as it was drawn, and the rest of the row as it was drawn or as the text.
pub record Clean (p : PmPanel) (c : Canvas) : Type 0 where
  pub valid : Inv p
  pub coloured : IsColoured p
  pub others : (i : ℕ) → i ≢ p.y → c.looks i ≡ drawn_look (find_row i p.w_half.rows)
  pub rests :
      (i : ℕ)
      → i ≢ p.y
      → (c.rests i ≡ look normal 1) ⊎ (c.rests i ≡ drawn_look (find_row i p.w_half.rows))

-- The row of the cursor is marked besides.
pub record Marked (a : Attribute) (p : PmPanel) (c : Canvas) : Type 0 where
  pub clean : Clean p c
  pub at : c.row ≡ p.y
  pub here : c.looks p.y ≡ look a 1
  pub here_rest : c.rests p.y ≡ look a 1

pub drawn-Clean : (at : ℕ) (p : PmPanel) → Inv p → IsColoured p → Clean p (drawn at p)
drawn-Clean at p v coloured = record {
  valid = v;
  coloured = coloured;
  others = λ i apart. refl;
  rests = λ i apart. inl refl;
}

pub mvwchgat-Marked :
    (a : Attribute) (p : PmPanel) (c : Canvas)
    → Clean p c
    → Marked a p (mvwchgat p.w_half.height p.y (look a 1) c)
mvwchgat-Marked a p c h =
    rw (lt→ltb p.y p.w_half.height (omega (arith, h.valid.above, h.valid.tall))) (record {
      clean = record {
        valid = h.valid;
        coloured = h.coloured;
        others =
            λ i apart. update_ne c.looks p.y (look a 1) i (λ e. apart (sym e)) ∙ h.others i apart;
        rests = λ i apart.
            rw (update_ne c.rests p.y (look a 1) i (λ e. apart (sym e))) (h.rests i apart);
      };
      at = refl;
      here = update_eq c.looks p.y (look a 1) p.y refl;
      here_rest = update_eq c.rests p.y (look a 1) p.y refl;
    })

-- Another mark on the row of the cursor.
pub wchgat-Marked :
    (a b : Attribute) (p : PmPanel) (c : Canvas) → Marked a p c → Marked b p (wchgat (look b 1) c)
wchgat-Marked a b p c m = record {
  clean = record {
    valid = m.clean.valid;
    coloured = m.clean.coloured;
    others = λ i apart.
        update_ne c.looks c.row (look b 1) i (λ e. apart (sym e ∙ m.at)) ∙ m.clean.others i apart;
    rests = λ i apart.
        rw (update_ne c.rests c.row (look b 1) i (λ e. apart (sym e ∙ m.at)))
          (m.clean.rests i apart);
  };
  at = m.at;
  here = update_eq c.looks c.row (look b 1) p.y m.at;
  here_rest = update_eq c.rests c.row (look b 1) p.y m.at;
}

drawn_look-draw_entry : (i : ℕ) (e : Dirent) → drawn_look (some (draw_entry i e)) ≡ restored e
unfolding draw_entry
drawn_look-draw_entry i e = ground arith

pub IsShown-IsColoured : (p : PmPanel) → IsShown p → IsColoured p
IsShown-IsColoured p shown k e low high at =
    ap drawn_look (shown k e low high at) ∙ drawn_look-draw_entry k e

Keeps-IsColoured : {p q : PmPanel} → Keeps p q → IsColoured p → IsColoured q
Keeps-IsColoured k coloured =
    k.keeps (λ i e o. drawn_look o ≡ restored e) drawn_look-draw_entry coloured

-- A refusal may change a name of the list, but no type.
pub Kept-IsColoured : {p q : PmPanel} → Kept p q → IsColoured p → IsColoured q
Kept-IsColoured {p} {q} kept coloured k e low high at =
    let (f, at', same) =
      kept.types (p.list_begin + k) e
        (subst (λ i. get_elem? q.name_list (i + k) ≡ some e) kept.list_begin at) in
    rw kept.w_half (
      coloured k f low (subst (λ (w : Window). k + 1 < w.height) kept.w_half high) at'
      ∙ ap (λ t. if t == dt_exec then look bold 3 else look normal 1) (sym same))

-- The look that the row of the cursor was drawn with.
drawn_there :
    (p : PmPanel) (c : Canvas) (e : Dirent) (i : ℕ)
    → Clean p c
    → get_elem? p.name_list p.selected_obj ≡ some e
    → i ≡ p.y
    → drawn_look (find_row i p.w_half.rows) ≡ restored e
drawn_there p c e i h here same =
    let v = h.valid in
    h.coloured i e (omega (arith, v.below, same)) (omega (arith, v.above, v.tall, same))
      (rw (same, ← v.at) here)

-- Every row looks as it was drawn, or its rest as its text.
Restored : PmPanel → Canvas → Type 0
Restored p c =
    (i : ℕ)
    → (c.looks i ≡ drawn_look (find_row i p.w_half.rows))
      × ((c.rests i ≡ look normal 1) ⊎ (c.rests i ≡ drawn_look (find_row i p.w_half.rows)))

-- The row of the cursor gets back the look of its object.
restored_all :
    (p : PmPanel) (c : Canvas) {a : Attribute} (e : Dirent)
    → get_elem? p.name_list p.selected_obj ≡ some e
    → Marked a p c
    → Restored p (wchgat (restored e) c)
unfolding Restored
restored_all p c e here m i = elim (ℕ_discrete i p.y) [
  | yes same ↦
      let own = sym (drawn_there p c e i m.clean here same) in
      (
        update_eq c.looks c.row (restored e) i (m.at ∙ sym same) ∙ own,
        inr (update_eq c.rests c.row (restored e) i (m.at ∙ sym same) ∙ own),
      )
  | no apart ↦ (
    update_ne c.looks c.row (restored e) i (λ e'. apart (sym e' ∙ m.at)) ∙ m.clean.others i apart,
    rw (update_ne c.rests c.row (restored e) i (λ e'. apart (sym e' ∙ m.at)))
        (m.clean.rests i apart),
  )
]

w_half-within_screen : (win : PmPanel) → (within_screen win).w_half ≡ win.w_half
unfolding within_screen
w_half-within_screen win = ground arith

-- Without drawing, CoordControl keeps the window.
coord_control-same :
    (cwd : List ℕ) (win q : PmPanel)
    → redraws win ≡ false
    → coord_control cwd win ≡ done q
    → q.w_half ≡ win.w_half
unfolding coord_control
coord_control-same cwd win q still run = ground (arith, w_half-within_screen win)

-- A step of the cursor, which CoordControl completes.
pub record Moves (step : PmPanel → PmPanel) : Type 1 where
  pub same_window : (p : PmPanel) → (step p).w_half ≡ p.w_half
  pub goes :
      (cwd : List ℕ) (p : PmPanel)
      → Inv p
      → (s : ℕ) × (q : PmPanel) × (coord_control cwd (step p) ≡ done q) × Moved p q s

pub raise-Moves : Moves raise
unfolding key_up
raise-Moves = record {
  same_window = λ p. refl;
  goes = λ cwd p v.
      let (e, here) = selected v in
      let (q, run, m) = key_up-Moved cwd v in (_, q, (rw here at run), m);
}

pub lower-Moves : Moves lower
unfolding key_down
lower-Moves = record {
  same_window = λ p. refl;
  goes = λ cwd p v.
      let (e, here) = selected v in
      let (q, run, m) = key_down-Moved cwd v in (_, q, (rw here at run), m);
}

-- The panel after such a step has its own row marked, and no other.
pub mark_moves-Marked :
    (at : ℕ) (cwd : List ℕ) (step : PmPanel → PmPanel) (p : PmPanel) (c : Canvas) {a : Attribute}
    → Moves step
    → Marked a p c
    → (q : PmPanel) × (c' : Canvas) × (mark_moves at cwd p (step p) c ≡ done (q, c'))
      × Marked bold q c'
unfolding mark_moves Restored
mark_moves-Marked at cwd step p c {a} steps m =
    let (e, here) = selected m.clean.valid in
    let (s, q, run, moved) = steps.goes cwd p m.clean.valid in
    let plain = restored_all p c e here m in
    let c₁ : Canvas = if redraws (step p) then drawn at q else wchgat (restored e) c in
    let looks : Restored q c₁ = elim (Bool-cases (redraws (step p))) [
      | inl again ↦ rw again (λ i. (refl, inl refl))
      | inr still ↦
          let same = coord_control-same cwd (step p) q still run ∙ steps.same_window p in
          rw (still, same) plain
    ] in
    (
      q,
      mvwchgat q.w_half.height q.y (look bold 1) c₁,
      rw (here, run) refl,
      mvwchgat-Marked bold q c₁ (record {
        valid = moved.kept;
        coloured = Keeps-IsColoured moved.shown m.clean.coloured;
        others = λ i apart. (looks i).0;
        rests = λ i apart. (looks i).1;
      }),
    )
