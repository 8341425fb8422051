-- ===== src/FileManager/Cursor/Geometry.antt =====
-- Where the cursor stands in the list and on the screen.
use eltex_courses_homeworks.Prelude.{
  ℕ, ◌+◌, ◌-◌, ◌^◌, ◌≤◌, ◌<◌, ◌≡◌, refl, sym, ap, ◌∙◌, get_elem?, Option, some, List, ltb, leb,
  ◌==◌, if◌then◌else◌, inc32, dec32, length, done, arith, Bool-cases, inl, inr,
}
use mathlib.Core.Path.{subst, subst₂}
use eltex_courses_homeworks.FileManager.Panel.{
  Dirent, Row, Window, PmPanel, at_bottom, at_top, within_screen, rendering_list_dir, coord_control,
}
use eltex_courses_homeworks.FileManager.Cursor.Screen.{Keeps, IsShownAs, IsShown, rendering_lem}

-- Between two key presses: the selected object is the one under the cursor and in the list, the
-- cursor is on the screen, and the rows from `list_begin` on fill a screen, or are all the list.
pub record Inv (p : PmPanel) : Type 0 where
  pub listed : p.dir_num ≡ length p.name_list
  pub few : p.dir_num < 2 ^ 31
  pub two : 2 ≤ p.dir_num
  pub tall : p.w_half.height ≡ p.size + 2
  pub low : p.w_half.height < 2 ^ 31
  pub room : 2 ≤ p.size
  pub at : p.selected_obj ≡ p.list_begin + p.y
  pub below : 1 ≤ p.y
  pub above : p.y < p.size
  pub in_list : p.selected_obj < p.dir_num
  pub scrolled : p.size < p.dir_num → p.list_begin + p.size ≤ p.dir_num
  pub still : p.dir_num ≤ p.size → p.list_begin ≡ 0

-- `CoordControl` but for the drawing.
unfoldable pub place : PmPanel → PmPanel
unfolding at_bottom at_top within_screen
place win =
    if ltb win.size win.dir_num
    then if leb win.size win.y then at_bottom win else if ltb win.y 1 then at_top win else win
    else within_screen win

-- The cursor of the specification goes round the objects from 1 on.
abbrev pub next_obj : ℕ → ℕ → ℕ
next_obj n s = if leb n (s + 1) then 1 else s + 1

abbrev pub prev_obj : ℕ → ℕ → ℕ
prev_obj n s = if s == 1 then n - 1 else s - 1

-- The panel after a key press: valid, on the object `s` of the same list, and shown as it was.
pub record Moved (p q : PmPanel) (s : ℕ) : Type 1 where
  pub kept : Inv q
  pub shown : Keeps p q
  pub on : q.selected_obj ≡ s
  pub same_list : q.name_list ≡ p.name_list
  pub same_num : q.dir_num ≡ p.dir_num
  pub same_size : q.size ≡ p.size
  pub same_active : q.active ≡ p.active

abbrev pub lowered : PmPanel → PmPanel
lowered p = record p { y = inc32 p.y; selected_obj = inc32 p.selected_obj }

abbrev pub raised : PmPanel → PmPanel
raised p = record p { y = dec32 p.y; selected_obj = dec32 p.selected_obj }

-- The drawing changes the window only, and happens wherever the list has moved.
pub record Placed (cwd : List ℕ) (p : PmPanel) : Type 1 where
  pub w : Window
  pub d : List ℕ
  pub run : coord_control cwd p ≡ done (record (place p) { w_half = w; w_dir = d })
  pub tall : w.height ≡ p.w_half.height
  pub shown : Keeps p (record (place p) { w_half = w; w_dir = d })

-- What no scrolling changes.
pub record Frame (p q : PmPanel) : Type 0 where
  pub half : q.w_half ≡ p.w_half
  pub names : q.name_list ≡ p.name_list
  pub num : q.dir_num ≡ p.dir_num

at_bottom-Frame : (p : PmPanel) → Frame p (at_bottom p)
unfolding at_bottom
at_bottom-Frame p = ground arith

at_top-Frame : (p : PmPanel) → Frame p (at_top p)
unfolding at_top
at_top-Frame p = ground arith

within_screen-Frame : (p : PmPanel) → Frame p (within_screen p)
unfolding within_screen
within_screen-Frame p = ground arith

list_begin-within_screen : (p : PmPanel) → (within_screen p).list_begin ≡ p.list_begin
unfolding within_screen
list_begin-within_screen p = ground arith

pub IsShownAs-Frame :
    (S : ℕ → Dirent → Option Row → Type 0) (p q : PmPanel)
    → Frame p q
    → q.list_begin ≡ p.list_begin
    → IsShownAs S p
    → IsShownAs S q
IsShownAs-Frame S p q f top shown k e low high at = rw f.half (
    shown k e low (subst (λ (v : Window). k + 1 < v.height) f.half high)
      (subst₂ (λ l i. get_elem? l (i + k) ≡ some e) f.names top at))

module _ (cwd : List ℕ) (p : PmPanel) where
  redrawn :
      (q : PmPanel)
      → coord_control cwd p ≡ rendering_list_dir cwd q
      → place p ≡ q
      → Frame p q
      → p.dir_num ≡ length p.name_list
      → (place p).list_begin ≤ p.dir_num
      → Placed cwd p
  redrawn q code geometry f listed within =
      let (w, run, high, shown) =
        rendering_lem cwd q (f.num ∙ listed ∙ ap length (sym f.names))
          (rw (← geometry, geometry, f.num, ← geometry) within) in
      record {
        w = w;
        d = cwd;
        run = rw (code, geometry) run;
        tall = high ∙ ap (λ (v : Window). v.height) f.half;
        shown = record {
          keeps = λ S as_drawn _.
              let now : IsShown (record (place p) { w_half = w; w_dir = cwd }) =
                rw geometry shown in
              λ k e low high at. rw (now k e low high at) (as_drawn k e);
        };
      }

  undrawn :
      (q : PmPanel)
      → coord_control cwd p ≡ done q
      → place p ≡ q
      → Frame p q
      → q.list_begin ≡ p.list_begin
      → Placed cwd p
  undrawn q code geometry f top = record {
    w = q.w_half;
    d = q.w_dir;
    run = rw (code, geometry);
    tall = ap (λ (v : Window). v.height) f.half;
    shown = record { keeps = λ S as_drawn shown. rw geometry (IsShownAs-Frame S p q f top shown) };
  }

  pub coord_control-Placed :
      p.dir_num ≡ length p.name_list → (place p).list_begin ≤ p.dir_num → Placed cwd p
  unfolding coord_control place
  coord_control-Placed listed within = elim (Bool-cases (ltb p.size p.dir_num)) [
    | inl long ↦ elim (Bool-cases (leb p.size p.y)) [
      | inl bottom ↦
          redrawn (at_bottom p) (rw (long, bottom)) (rw (long, bottom)) (at_bottom-Frame p) listed
            within
      | inr above ↦ elim (Bool-cases (ltb p.y 1)) [
        | inl top ↦
            redrawn (at_top p) (rw (long, above, top)) (rw (long, above, top)) (at_top-Frame p)
              listed within
        | inr mid ↦
            undrawn p (rw (long, above, mid)) (rw (long, above, mid))
              (record { half = refl; names = refl; num = refl }) refl
      ]
    ]
    | inr short ↦
        undrawn (within_screen p) (rw short) (rw short) (within_screen-Frame p)
          (list_begin-within_screen p)
  ]

pub Inv-lowered : (p : PmPanel) → Inv p → Inv (place (lowered p))
unfolding place
Inv-lowered p v = ground arith

pub Inv-raised : (p : PmPanel) → Inv p → Inv (place (raised p))
unfolding place
Inv-raised p v = ground arith

pub place-Frame : (p : PmPanel) → Frame p (place p)
unfolding place
place-Frame p = ground arith

pub place_same : (p : PmPanel) → ((place p).size ≡ p.size) × ((place p).active ≡ p.active)
unfolding place
place_same p = ground arith

pub selected-lowered :
    (p : PmPanel) → Inv p → (place (lowered p)).selected_obj ≡ next_obj p.dir_num p.selected_obj
unfolding place
selected-lowered p v = ground arith

pub selected-raised :
    (p : PmPanel) → Inv p → (place (raised p)).selected_obj ≡ prev_obj p.dir_num p.selected_obj
unfolding place
selected-raised p v = ground arith
