-- ===== src/FileManager/Cursor/Moves.antt =====
-- KEY_UP and KEY_DOWN of file_manager/main_scandir.c: the cursor goes round the list.
use eltex_courses_homeworks.Prelude.{
  ℕ, ◌≡◌, refl, sym, ◌∙◌, ap, some, List, length, get_elem?, get_elem?-some, done, arith,
}
use eltex_courses_homeworks.FileManager.Panel.{Dirent, Window, PmPanel, draw_entry, coord_control}
use eltex_courses_homeworks.FileManager.Keys.{key_up, key_down}
use eltex_courses_homeworks.FileManager.Cursor.Screen.{find_row, IsShown, Keeps-IsShown}
use eltex_courses_homeworks.FileManager.Cursor.Geometry.{
  Inv, place, next_obj, prev_obj, Moved, Placed, Frame, lowered, raised, coord_control-Placed,
  Inv-lowered, Inv-raised, place-Frame, place_same, selected-lowered, selected-raised,
  IsShownAs-Frame,
}

pub Inv-redrawn :
    (r : PmPanel) (w : Window) (d : List ℕ)
    → Inv r
    → w.height ≡ r.w_half.height
    → Inv (record r { w_half = w; w_dir = d })
Inv-redrawn r w d v e = ground arith

-- The object under the cursor, which the handlers read.
pub selected :
    {p : PmPanel} → Inv p → (e : Dirent) × (get_elem? p.name_list p.selected_obj ≡ some e)
selected {p} v = get_elem?-some p.name_list p.selected_obj (omega arith)

-- A step of the cursor from `p` through `p'`, where it may have left the screen.
moved :
    (cwd : List ℕ) (p p' : PmPanel) (s : ℕ)
    → p.dir_num ≡ length p.name_list
    → Frame p p'
    → p'.list_begin ≡ p.list_begin
    → p'.size ≡ p.size
    → p'.active ≡ p.active
    → Inv (place p')
    → (place p').selected_obj ≡ s
    → (q : PmPanel) × (coord_control cwd p' ≡ done q) × Moved p q s
moved cwd p p' s listed f top size active v on = (
  record (place p') { w_half = g.w; w_dir = g.d },
  g.run,
  record {
    kept = Inv-redrawn (place p') g.w g.d v (g.tall ∙ ap (λ (u : Window). u.height) (sym h.half));
    shown = record {
      keeps = λ S as_drawn shown. g.shown.keeps S as_drawn (IsShownAs-Frame S p p' f top shown);
    };
    on = on;
    same_list = h.names ∙ f.names;
    same_num = h.num ∙ f.num;
    same_size = (place_same p').0 ∙ size;
    same_active = (place_same p').1 ∙ active;
  },
)
  where
    h : Frame p' (place p')
    h = place-Frame p'

    g : Placed cwd p'
    g =
        coord_control-Placed cwd p' (f.num ∙ listed ∙ ap length (sym f.names))
          (omega (arith, v.at, v.in_list, h.num))

pub key_down-Moved :
    (cwd : List ℕ) {p : PmPanel}
    → Inv p
    → (q : PmPanel) × (key_down cwd p ≡ done q) × Moved p q (next_obj p.dir_num p.selected_obj)
unfolding key_down
key_down-Moved cwd {p} v =
    let (e, here) = selected v in
    let (q, run, m) =
      moved cwd p (lowered p) (next_obj p.dir_num p.selected_obj) v.listed
        (record { half = refl; names = refl; num = refl }) refl refl refl (Inv-lowered p v)
        (selected-lowered p v) in
    (q, rw here run, m)

pub key_up-Moved :
    (cwd : List ℕ) {p : PmPanel}
    → Inv p
    → (q : PmPanel) × (key_up cwd p ≡ done q) × Moved p q (prev_obj p.dir_num p.selected_obj)
unfolding key_up
key_up-Moved cwd {p} v =
    let (e, here) = selected v in
    let (q, run, m) =
      moved cwd p (raised p) (prev_obj p.dir_num p.selected_obj) v.listed
        (record { half = refl; names = refl; num = refl }) refl refl refl (Inv-raised p v)
        (selected-raised p v) in
    (q, rw here run, m)

-- The panel `q` after a key: valid and shown, on the object `s` of the list of `p`.
pub record Shifted (p q : PmPanel) (s : ℕ) : Type 0 where
  pub kept : Inv q
  pub shown : IsShown q
  pub on : q.selected_obj ≡ s
  pub same_list : q.name_list ≡ p.name_list
  pub same_size : q.size ≡ p.size
  pub same_active : q.active ≡ p.active

Moved-Shifted : {p q : PmPanel} {s : ℕ} → Moved p q s → IsShown p → Shifted p q s
Moved-Shifted m shown = record {
  kept = m.kept;
  shown = Keeps-IsShown m.shown shown;
  on = m.on;
  same_list = m.same_list;
  same_size = m.same_size;
  same_active = m.same_active;
}

-- KEY_DOWN on a valid panel whose window shows its list is defined, and gives such a panel again,
-- with the same list and size, active or not as before; the next object is selected, after the last
-- one the object 1.
key_down_lem :
    (cwd : List ℕ) {p : PmPanel}
    → Inv p
    → IsShown p
    → (q : PmPanel) × (key_down cwd p ≡ done q) × Shifted p q (next_obj p.dir_num p.selected_obj)
key_down_lem cwd v shown = let (q, run, m) = key_down-Moved cwd v in (q, run, Moved-Shifted m shown)

-- KEY_UP on a valid panel whose window shows its list is defined, and gives such a panel again,
-- with the same list and size, active or not as before; the object before is selected, before the
-- object 1 the last one.
key_up_lem :
    (cwd : List ℕ) {p : PmPanel}
    → Inv p
    → IsShown p
    → (q : PmPanel) × (key_up cwd p ≡ done q) × Shifted p q (prev_obj p.dir_num p.selected_obj)
key_up_lem cwd v shown = let (q, run, m) = key_up-Moved cwd v in (q, run, Moved-Shifted m shown)

-- On a valid panel whose window shows its list, the row of the cursor has the text of the selected
-- object.
cursor_row :
    {p : PmPanel}
    → Inv p
    → IsShown p
    → (e : Dirent) × (get_elem? p.name_list p.selected_obj ≡ some e)
      × (find_row p.y p.w_half.rows ≡ some (draw_entry p.y e))
cursor_row {p} v shown =
    let (e, here) = selected v in
    (e, here, shown p.y e (omega arith) (omega arith) (rw (← v.at) here))

-- On a valid panel KEY_DOWN and then KEY_UP are defined and come back to the selected object and
-- the list.
pub key_up-key_down :
    (cwd : List ℕ) {p : PmPanel}
    → Inv p
    → (q r : PmPanel) × (key_down cwd p ≡ done q)
      × (key_up cwd q ≡ done r)
      × (r.selected_obj ≡ p.selected_obj)
      × (r.name_list ≡ p.name_list)
key_up-key_down cwd {p} v =
    let (q, down, m) = key_down-Moved cwd v in
    let (r, up, n) = key_up-Moved cwd m.kept in
    (q, r, down, up, ground (arith, n.on, m.on, m.same_num), n.same_list ∙ m.same_list)
