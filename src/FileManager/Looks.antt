-- ===== src/FileManager/Looks.antt =====
-- How `main` of file_manager/main_scandir.c marks the selected objects: the attribute and the colour
-- of each row of the two panels.
use eltex_courses_homeworks.Prelude.{
  ℕ, Bool, true, false, ◌&&◌, ◌||◌, ◌==◌, Option, none, some, List, [], ◌∷◌, if◌then◌else◌, inc32,
  dec32, ltb, leb, get_elem?, Outcome, done, deref, ◌>>=◌,
}
use eltex_courses_homeworks.Prelude.Family.{update}
use eltex_courses_homeworks.FileManager.Panel.{
  PmPanel, Row, dt_exec, rendering_list_dir, coord_control,
}
use eltex_courses_homeworks.FileManager.Cursor.{find_row}
use eltex_courses_homeworks.FileManager.Listing.{FileSystem, ok, refused, chdir_or_stay, list_dir}
use eltex_courses_homeworks.FileManager.Keys.{
  Fork, Key, up, down, tab, quit, other, enter, Manager, try_exec, after_listing,
}

-- The attributes 0, A_BOLD and A_DIM.
pub data Attribute : Type 0 where
  normal bold dim : Attribute

pub record Look : Type 0 where
  pub attribute : Attribute
  pub colour : ℕ

abbrev pub look : Attribute → ℕ → Look
look attribute colour = record { attribute = attribute; colour = colour }

-- A window on the screen: the row of its cursor, and, from the column 1 on, the look of the text of
-- each row and that of the rest of the row, with the border at its end.
pub record Canvas : Type 0 where
  pub row : ℕ
  pub looks : ℕ → Look
  pub rests : ℕ → Look

-- `wchgat (…, -1, …)` on the row of the cursor.
abbrev pub wchgat : Look → Canvas → Canvas
wchgat l c = record c { looks = update c.looks c.row l; rests = update c.rests c.row l }

-- `mvwchgat`, which does nothing where the row is not in the window.
abbrev pub mvwchgat : ℕ → ℕ → Look → Canvas → Canvas
mvwchgat height y l c = if ltb y height then wchgat l (record c { row = y }) else c

-- The text of a row as RenderingListDir leaves it, which draws an executable object in bold and in colour 3.
abbrev pub drawn_look : Option Row → Look
drawn_look none = look normal 1
drawn_look (some r) = if r.bold then look bold 3 else look normal 1

-- RenderingListDir, which leaves the cursor of the window on the row `at`, and all but the texts in
-- the colour of the background.
abbrev pub drawn : ℕ → PmPanel → Canvas
drawn at win = record {
  row = at;
  looks = λ i. drawn_look (find_row i win.w_half.rows);
  rests = λ i. look normal 1;
}

-- Whether CoordControl draws the list again.
abbrev pub redraws : PmPanel → Bool
redraws win = ltb win.size win.dir_num && (leb win.size win.y || ltb win.y 1)

-- KEY_UP and KEY_DOWN on the active panel `win`, which becomes `win'` before CoordControl: the row
-- that was marked gets the look of its text, and the new one is marked.
unfoldable pub mark_moves : ℕ → List ℕ → PmPanel → PmPanel → Canvas → Outcome (PmPanel × Canvas)
mark_moves at cwd win win' c = do
  e ← deref (get_elem? win.name_list win.selected_obj)
  let plain = wchgat (if e.d_type == dt_exec then look bold 3 else look normal 1) c
  q ← coord_control cwd win'
  (done
      (q, mvwchgat q.w_half.height q.y (look bold 1) (if redraws win' then drawn at q else plain)))

-- The two panels on the screen.
pub record Desk : Type 0 where
  pub manager : Manager
  pub left : Canvas
  pub right : Canvas

-- The loop of `main` in front of `getch`.
abbrev pub mark : Desk → Desk
mark d =
    let m = d.manager in
    let on_left = if m.left.active then bold else dim in
    let on_right = if m.left.active then dim else bold in
    record d {
      left = mvwchgat m.left.w_half.height m.left.y (look on_left 1) d.left;
      right = mvwchgat m.right.w_half.height m.right.y (look on_right 1) d.right;
    }

abbrev pub lower : PmPanel → PmPanel
lower win = record win { y = inc32 win.y; selected_obj = inc32 win.selected_obj }

abbrev pub raise : PmPanel → PmPanel
raise win = record win { y = dec32 win.y; selected_obj = dec32 win.selected_obj }

-- KEY_UP and KEY_DOWN.
unfoldable pub moves : ℕ → (PmPanel → PmPanel) → Desk → Outcome (Option Desk)
unfolding mark_moves
moves at step d =
    let m = d.manager in
    if m.left.active
    then (do
      (win, c) ← mark_moves at m.cwd m.left (step m.left) d.left
      done (some (record d { manager = record m { left = win }; left = c })))
    else (do
      (win, c) ← mark_moves at m.cwd m.right (step m.right) d.right
      done (some (record d { manager = record m { right = win }; right = c })))

-- TAB.
abbrev pub switches : FileSystem → Desk → Desk
switches fs d =
    let m = d.manager in
    if m.left.active
    then record d {
      manager = record m {
        left = record (m.left) { active = false };
        cwd = chdir_or_stay fs m.cwd m.right.work_dir;
      };
      left = wchgat (look dim 1) d.left;
      right = wchgat (look bold 1) d.right;
    }
    else record d {
      manager = record m {
        left = record (m.left) { active = true };
        cwd = chdir_or_stay fs m.cwd m.left.work_dir;
      };
      left = wchgat (look bold 1) d.left;
      right = wchgat (look dim 1) d.right;
    }

-- ENTER on an object that is taken for a directory: a refusal draws nothing.
unfoldable pub enter_dir :
    ℕ → FileSystem → List ℕ → PmPanel → Canvas → Outcome (PmPanel × List ℕ × Canvas)
enter_dir at fs cwd win c = do
  e ← deref (get_elem? win.name_list win.selected_obj)
  (st, win', cwd') ← list_dir fs cwd (record win {
    work_dir = e.d_name;
    work_room = e.name_room;
    work_entry = some win.selected_obj;
  })
  (win'', cwd'') ← after_listing st win' cwd'
  done (win'', cwd'', elim st [ ok ↦ drawn at win'' | refused ↦ c ])

unfoldable pub enter_left_dir :
    ℕ → FileSystem → Fork → List ℕ → PmPanel → Canvas → Outcome (PmPanel × List ℕ × Canvas)
unfolding enter_dir
enter_left_dir at fs f cwd win c = do
  e ← deref (get_elem? win.name_list win.selected_obj)
  (if e.d_type == dt_exec
      then (do _ ← try_exec f; win' ← rendering_list_dir cwd win; done (win', cwd, drawn at win'))
      else enter_dir at fs cwd win c)

-- The `switch` of the loop, with the row on which drawing leaves the cursor of a window.
unfoldable pub press_desk : FileSystem → ℕ → Desk → Key → Outcome (Option Desk)
unfolding moves enter_left_dir enter_dir
press_desk fs at d quit = done none
press_desk fs at d other = done (some d)
press_desk fs at d up = moves at raise d
press_desk fs at d down = moves at lower d
press_desk fs at d tab = done (some (switches fs d))
press_desk fs at d (enter f) =
    let m = d.manager in
    if m.left.active
    then (do
      (win, cwd, c) ← enter_left_dir at fs f m.cwd m.left d.left
      done (some (record d { manager = record m { left = win; cwd = cwd }; left = c })))
    else (do
      (win, cwd, c) ← enter_dir at fs m.cwd m.right d.right
      done (some (record d { manager = record m { right = win; cwd = cwd }; right = c })))

-- The loop, from one `getch` to the next.
unfoldable pub session_desk : FileSystem → Desk → List (ℕ × Key) → Outcome (Option Desk)
unfolding press_desk
session_desk fs d [] = done (some d)
session_desk fs d ((at, key) ∷ keys) = do
  r ← press_desk fs at d key
  elim r [ none ↦ done none | some d' ↦ session_desk fs (mark d') keys ]
