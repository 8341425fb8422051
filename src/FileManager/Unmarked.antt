-- ===== src/FileManager/Unmarked.antt =====
-- The loop of file_manager/main_scandir.c with the marks does to the panels what it does without.
use eltex_courses_homeworks.Prelude.{
  ℕ, ◌≡◌, refl, sym, ◌∙◌, ap, Bool, true, false, Option, none, some, List, [], ◌∷◌, if◌then◌else◌,
  ◌==◌, get_elem?, Outcome, done, deref, ◌>>=◌, bind-bind, bind-done, bind_cong, Bool-cases, inl,
  inr,
}
use mathlib.Core.Option
use eltex_courses_homeworks.FileManager.Panel.{PmPanel, dt_exec, coord_control, rendering_list_dir}
use eltex_courses_homeworks.FileManager.Listing.{FileSystem, list_dir}
use eltex_courses_homeworks.FileManager.Keys.{
  Fork, try_exec, Key, up, down, tab, quit, other, enter, Manager, key_up, key_down, after_listing,
  open_selected, enter_left, press, session,
}
use eltex_courses_homeworks.FileManager.Opening.{aimed}
use eltex_courses_homeworks.FileManager.Looks.{
  Canvas, mark_moves, raise, lower, Desk, mark, moves, enter_dir, enter_left_dir, press_desk,
  session_desk,
}

-- The keys without the rows on which drawing leaves the cursor.
abbrev pub keys_of : List (ℕ × Key) → List Key
keys_of [] = []
keys_of ((at, k) ∷ ks) = k ∷ keys_of ks

-- How the loop ends, without the marks.
abbrev pub unmarked : Outcome (Option Desk) → Outcome (Option Manager)
unmarked r = r >>= λ o. done (Option.map (λ (d : Desk). d.manager) o)

-- A key is handled the same way with the row that it marks.
mark_moves-panel :
    (at : ℕ) (cwd : List ℕ) (win win' : PmPanel) (c : Canvas)
    → (mark_moves at cwd win win' c >>= λ x. done (x.0))
      ≡ (deref (get_elem? win.name_list win.selected_obj) >>= λ e. coord_control cwd win')
unfolding mark_moves
mark_moves-panel at cwd win win' c =
    bind-bind (deref (get_elem? win.name_list win.selected_obj)) _ _
    ∙ bind_cong (deref (get_elem? win.name_list win.selected_obj))
        (λ e. bind-bind (coord_control cwd win') _ _ ∙ bind-done (coord_control cwd win'))

enter_dir-panel :
    (at : ℕ) (fs : FileSystem) (cwd : List ℕ) (win : PmPanel) (c : Canvas)
    → (enter_dir at fs cwd win c >>= λ x. done (x.0, x.1)) ≡ open_selected fs cwd win
unfolding enter_dir open_selected
enter_dir-panel at fs cwd win c =
    bind-bind (deref (get_elem? win.name_list win.selected_obj)) _ _
    ∙ bind_cong (deref (get_elem? win.name_list win.selected_obj)) (λ e.
      bind-bind (list_dir fs cwd (aimed win e)) _ _
      ∙ bind_cong (list_dir fs cwd (aimed win e))
          (λ x. bind-bind (after_listing x.0 x.1 x.2) _ _ ∙ bind-done (after_listing x.0 x.1 x.2)))

enter_left_dir-panel :
    (at : ℕ) (fs : FileSystem) (f : Fork) (cwd : List ℕ) (win : PmPanel) (c : Canvas)
    → (enter_left_dir at fs f cwd win c >>= λ x. done (x.0, x.1)) ≡ enter_left fs f cwd win
unfolding enter_left_dir enter_left
enter_left_dir-panel at fs f cwd win c =
    bind-bind (deref (get_elem? win.name_list win.selected_obj)) _ _
    ∙ bind_cong (deref (get_elem? win.name_list win.selected_obj)) (λ e.
      elim (Bool-cases (e.d_type == dt_exec)) [
        | inl exec ↦ rw exec (
            bind-bind (try_exec f) _ _
            ∙ bind_cong (try_exec f) (λ x. bind-bind (rendering_list_dir cwd win) _ _))
        | inr dir ↦ rw dir (enter_dir-panel at fs cwd win c)
      ])

-- A change of a desk that is that of a manager.
stripped :
    {A B : Type 0} (r : Outcome A) (h : A → B) {s : Outcome B} (g : A → Desk) (f : B → Manager)
    → ((a : A) → (g a).manager ≡ f (h a))
    → (r >>= λ a. done (h a)) ≡ s
    → unmarked (r >>= λ a. done (some (g a))) ≡ (s >>= λ b. done (some (f b)))
stripped r h g f same e =
    bind-bind r (λ a. done (some (g a))) (λ o. done (Option.map (λ (d : Desk). d.manager) o))
    ∙ bind_cong r (λ a. ap (λ m. done (some m)) (same a))
    ∙ sym (bind-bind r (λ a. done (h a)) (λ b. done (some (f b))))
    ∙ ap (λ s. s >>= λ b. done (some (f b))) e

on_either :
    (b : Bool) (r r' : Outcome (Option Desk)) {s s' : Outcome (Option Manager)}
    → unmarked r ≡ s
    → unmarked r' ≡ s'
    → unmarked (if b then r else r') ≡ (if b then s else s')
on_either true r r' e e' = e
on_either false r r' e e' = e'

moves-press :
    (at : ℕ) (key : List ℕ → PmPanel → Outcome PmPanel) (step : PmPanel → PmPanel) (d : Desk)
    → ((cwd : List ℕ) (win : PmPanel)
        → (deref (get_elem? win.name_list win.selected_obj) >>= λ e. coord_control cwd (step win))
          ≡ key cwd win)
    → unmarked (moves at step d) ≡ (
        if d.manager.left.active
        then (do
          win ← key d.manager.cwd d.manager.left
          done (some (record (d.manager) { left = win })))
        else (do
          win ← key d.manager.cwd d.manager.right
          done (some (record (d.manager) { right = win }))))
unfolding moves
moves-press at key step d same =
    let m = d.manager in
    on_either m.left.active _ _
      (stripped (mark_moves at m.cwd m.left (step m.left) d.left) (λ x. x.0)
        (λ x. record d { manager = record m { left = x.0 }; left = x.1 })
        (λ q. record m { left = q }) (λ x. refl)
        (mark_moves-panel at m.cwd m.left (step m.left) d.left ∙ same m.cwd m.left))
      (stripped (mark_moves at m.cwd m.right (step m.right) d.right) (λ x. x.0)
        (λ x. record d { manager = record m { right = x.0 }; right = x.1 })
        (λ q. record m { right = q }) (λ x. refl)
        (mark_moves-panel at m.cwd m.right (step m.right) d.right ∙ same m.cwd m.right))

pub press_desk-press :
    (fs : FileSystem) (at : ℕ) (d : Desk) (k : Key)
    → unmarked (press_desk fs at d k) ≡ press fs d.manager k
unfolding press_desk press key_up key_down
press_desk-press fs at d quit = refl
press_desk-press fs at d other = refl
press_desk-press fs at d up = moves-press at key_up raise d (λ cwd win. refl)
press_desk-press fs at d down = moves-press at key_down lower d (λ cwd win. refl)
press_desk-press fs at d tab = elim (Bool-cases d.manager.left.active) [
  | inl on ↦ rw on refl
  | inr off ↦ rw off refl
]
press_desk-press fs at d (enter f) =
    let m = d.manager in
    on_either m.left.active _ _
      (stripped (enter_left_dir at fs f m.cwd m.left d.left) (λ x. (x.0, x.1))
        (λ x. record d { manager = record m { left = x.0; cwd = x.1 }; left = x.2 })
        (λ x. record m { left = x.0; cwd = x.1 }) (λ x. refl)
        (enter_left_dir-panel at fs f m.cwd m.left d.left))
      (stripped (enter_dir at fs m.cwd m.right d.right) (λ x. (x.0, x.1))
        (λ x. record d { manager = record m { right = x.0; cwd = x.1 }; right = x.2 })
        (λ x. record m { right = x.0; cwd = x.1 }) (λ x. refl)
        (enter_dir-panel at fs m.cwd m.right d.right))

-- What follows a key.
carried :
    (r : Option Desk) (f : Desk → Outcome (Option Desk)) (g : Manager → Outcome (Option Manager))
    → ((d : Desk) → unmarked (f d) ≡ g d.manager)
    → unmarked (elim r [ none ↦ done none | some d ↦ f d ])
      ≡ (elim (Option.map (λ (d : Desk). d.manager) r) [ none ↦ done none | some m ↦ g m ])
carried none f g same = refl
carried (some d) f g same = same d

-- The loop with the marks ends just as the loop without them, with the same panels.
pub session_desk-session :
    (fs : FileSystem) (ks : List (ℕ × Key)) (d : Desk)
    → unmarked (session_desk fs d ks) ≡ session fs d.manager (keys_of ks)
unfolding session_desk session
session_desk-session fs [] d = refl
session_desk-session fs ((at, k) ∷ ks) d =
    bind-bind (press_desk fs at d k) _ _
    ∙ bind_cong (press_desk fs at d k) (λ r.
      carried r (λ d'. session_desk fs (mark d') ks) (λ m. session fs m (keys_of ks))
        (λ d'. session_desk-session fs ks (mark d')))
    ∙ sym (bind-bind (press_desk fs at d k) _ _)
    ∙ ap (λ s. s >>= λ r. elim r [ none ↦ done none | some m ↦ session fs m (keys_of ks) ])
        (press_desk-press fs at d k)
