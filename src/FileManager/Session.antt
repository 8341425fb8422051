-- ===== src/FileManager/Session.antt =====
-- The loop of `main` of file_manager/main_scandir.c over any keys.
use eltex_courses_homeworks.Prelude.{
  ℕ, ◌≡◌, refl, ◌∙◌, Bool, true, false, not, some, List, [], ◌∷◌, if◌then◌else◌, done, arith,
  Bool-cases, inl, inr,
}
use eltex_courses_homeworks.FileManager.Panel.{PmPanel}
use eltex_courses_homeworks.FileManager.Listing.{FileSystem, chdir_or_stay}
use eltex_courses_homeworks.FileManager.Keys.{
  Key, up, down, tab, quit, other, enter, Manager, press, session,
}
use eltex_courses_homeworks.FileManager.Cursor.{
  Inv, IsShown, Keeps-IsShown, Moved, next_obj, prev_obj,
}
use eltex_courses_homeworks.FileManager.Cursor.Moves.{key_up-Moved, key_down-Moved}

-- The specification: a selected object in each of two lists, and which list is active.
pub record Cursors : Type 0 where
  pub left_obj : ℕ
  pub right_obj : ℕ
  pub on_left : Bool

-- What a key does to the cursors over lists of `n` and `k` objects.
abbrev pub move : ℕ → ℕ → Cursors → Key → Cursors
move n k c up =
    if c.on_left
    then record c { left_obj = prev_obj n c.left_obj }
    else record c { right_obj = prev_obj k c.right_obj }
move n k c down =
    if c.on_left
    then record c { left_obj = next_obj n c.left_obj }
    else record c { right_obj = next_obj k c.right_obj }
move n k c tab = record c { on_left = not c.on_left }
move n k c _ = c

abbrev pub move_all : ℕ → ℕ → Cursors → List Key → Cursors
move_all n k c [] = c
move_all n k c (key ∷ keys) = move_all n k (move n k c key) keys

abbrev pub cursors : Manager → Cursors
cursors m = record {
  left_obj = m.left.selected_obj;
  right_obj = m.right.selected_obj;
  on_left = m.left.active;
}

-- Keys that neither open anything nor end the loop.
abbrev pub IsMotion : Key → Type 0
IsMotion quit = ⊥
IsMotion (enter f) = ⊥
IsMotion _ = Unit

abbrev pub AllMotion : List Key → Type 0
AllMotion [] = Unit
AllMotion (k ∷ ks) = IsMotion k × AllMotion ks

-- Both panels are valid, and their windows show their lists.
pub record Good (m : Manager) : Type 0 where
  pub left : Inv m.left
  pub right : Inv m.right
  pub left_shown : IsShown m.left
  pub right_shown : IsShown m.right

-- A key has moved the cursors as the specification says, over the same lists.
pub record Follows (m m' : Manager) (c : Cursors) : Type 0 where
  pub good : Good m'
  pub cursor : cursors m' ≡ c
  pub left_num : m'.left.dir_num ≡ m.left.dir_num
  pub right_num : m'.right.dir_num ≡ m.right.dir_num

-- One panel has moved and the other stays.
Follows-left :
    (m : Manager) (k : Key) (q : PmPanel) (s : ℕ)
    → Good m
    → m.left.active ≡ true
    → Moved m.left q s
    → move m.left.dir_num m.right.dir_num (cursors m) k ≡ record (cursors m) { left_obj = s }
    → Follows m (record m { left = q }) (move m.left.dir_num m.right.dir_num (cursors m) k)
Follows-left m k q s g on v e = record {
  good = record {
    left = v.kept;
    right = g.right;
    left_shown = Keeps-IsShown v.shown g.left_shown;
    right_shown = g.right_shown;
  };
  cursor = rw e (ground (arith, v.on, v.same_active));
  left_num = v.same_num;
  right_num = refl;
}

Follows-right :
    (m : Manager) (k : Key) (q : PmPanel) (s : ℕ)
    → Good m
    → Moved m.right q s
    → move m.left.dir_num m.right.dir_num (cursors m) k ≡ record (cursors m) { right_obj = s }
    → Follows m (record m { right = q }) (move m.left.dir_num m.right.dir_num (cursors m) k)
Follows-right m k q s g v e = record {
  good = record {
    left = g.left;
    right = v.kept;
    left_shown = g.left_shown;
    right_shown = Keeps-IsShown v.shown g.right_shown;
  };
  cursor = rw e (ground (arith, v.on));
  left_num = refl;
  right_num = v.same_num;
}

switched :
    (m : Manager) (b : Bool) (c : List ℕ)
    → Good m
    → b ≡ not m.left.active
    → Follows m
        (record m { left = record (m.left) { active = b }; cwd = c })
        (move m.left.dir_num m.right.dir_num (cursors m) tab)
switched m b c g e = record {
  good = record {
    left = ground (arith, g.left);
    right = g.right;
    left_shown = g.left_shown;
    right_shown = g.right_shown;
  };
  cursor = rw e;
  left_num = refl;
  right_num = refl;
}

-- A motion key on valid panels ends in valid panels, and moves the cursors as specified.
press_lem :
    (fs : FileSystem) (m : Manager) (k : Key)
    → Good m
    → IsMotion k
    → (m' : Manager) × (press fs m k ≡ done (some m'))
      × Follows m m' (move m.left.dir_num m.right.dir_num (cursors m) k)
unfolding press
press_lem fs m up g h = elim (Bool-cases m.left.active) [
  | inl on ↦
      let (q, run, v) = key_up-Moved m.cwd g.left in
      (record m { left = q }, simp (on, run), Follows-left m up q _ g on v (simp on))
  | inr off ↦
      let (q, run, v) = key_up-Moved m.cwd g.right in
      (record m { right = q }, simp (off, run), Follows-right m up q _ g v (simp off))
]
press_lem fs m down g h = elim (Bool-cases m.left.active) [
  | inl on ↦
      let (q, run, v) = key_down-Moved m.cwd g.left in
      (record m { left = q }, simp (on, run), Follows-left m down q _ g on v (simp on))
  | inr off ↦
      let (q, run, v) = key_down-Moved m.cwd g.right in
      (record m { right = q }, simp (off, run), Follows-right m down q _ g v (simp off))
]
press_lem fs m tab g h = elim (Bool-cases m.left.active) [
  | inl on ↦
      let c = chdir_or_stay fs m.cwd m.right.work_dir in
      (
        record m { left = record (m.left) { active = false }; cwd = c },
        simp on,
        switched m false c g (simp on),
      )
  | inr off ↦
      let c = chdir_or_stay fs m.cwd m.left.work_dir in
      (
        record m { left = record (m.left) { active = true }; cwd = c },
        simp off,
        switched m true c g (simp off),
      )
]
press_lem fs m other g h =
    (m, refl, record { good = g; cursor = refl; left_num = refl; right_num = refl })
press_lem fs m quit g h = absurd h
press_lem fs m (enter f) g h = absurd h

-- For any sequence of keys other than ENTER and q, from two valid panels whose windows show their
-- lists, the loop of main stays defined and goes on; both panels are valid and shown after it,
-- their lists have the same lengths, and the selected objects and the active panel are those of the
-- specification `move_all`, in which the active cursor goes round the objects from 1 on.
pub session_refines :
    (fs : FileSystem) (ks : List Key) (m : Manager)
    → Good m
    → AllMotion ks
    → (m' : Manager) × (session fs m ks ≡ done (some m'))
      × Follows m m' (move_all m.left.dir_num m.right.dir_num (cursors m) ks)
unfolding session
session_refines fs [] m g h =
    (m, refl, record { good = g; cursor = refl; left_num = refl; right_num = refl })
session_refines fs (k ∷ ks) m g (hk, hks) =
    let (m₁, run₁, v₁) = press_lem fs m k g hk in
    let (m₂, run₂, v₂) = session_refines fs ks m₁ v₁.good hks in
    (
      m₂,
      rw run₁ run₂,
      record {
        good = v₂.good;
        cursor = v₂.cursor ∙ (rw (v₁.cursor, v₁.left_num, v₁.right_num));
        left_num = v₂.left_num ∙ v₁.left_num;
        right_num = v₂.right_num ∙ v₁.right_num;
      },
    )
