-- ===== src/FileManager/Highlights.antt =====
-- Which rows are marked on the screen of file_manager/ whenever `main` waits for a key.
use eltex_courses_homeworks.Prelude.{
  ℕ, ◌≡◌, refl, Option, none, some, List, [], ◌∷◌, ◌++◌, ap, Outcome, done, exit, fault,
  exit_failure, ◌>>=◌,
}
use eltex_courses_homeworks.FileManager.Listing.{FileSystem}
use eltex_courses_homeworks.FileManager.Listing.Laws.{Lists}
use eltex_courses_homeworks.FileManager.Keys.{Key, quit, Manager, session}
use eltex_courses_homeworks.FileManager.Looks.{drawn, Desk, mark, press_desk, session_desk}
use eltex_courses_homeworks.FileManager.Marks.{drawn-Clean, IsShown-IsColoured}
use eltex_courses_homeworks.FileManager.Opening.{UndefinedEnter}
use eltex_courses_homeworks.FileManager.Unmarked.{keys_of, unmarked, session_desk-session}
use eltex_courses_homeworks.FileManager.Session.{Good}
use eltex_courses_homeworks.FileManager.Handling.{
  IsMarked, mark-IsMarked, IsEnter, Handled, press_desk-Handled,
}

-- A key of `ks` that is handled in the state `d'` of the loop that has been started in `d`, with
-- `P d'` of that key.
pub record Reaches (fs : FileSystem) (d : Desk) (ks : List (ℕ × Key)) (P : Desk → Key → Type 0)
    : Type 0 where
  pub before : List (ℕ × Key)
  pub after : List (ℕ × Key)
  pub at : ℕ
  pub key : Key
  pub d' : Desk
  pub parts : ks ≡ before ++ ((at, key) ∷ after)
  pub runs : session_desk fs d before ≡ done (some d')
  pub marked : IsMarked d'
  pub holds : P d' key

Reaches-later :
    {fs : FileSystem} {P : Desk → Key → Type 0} (d d₁ : Desk) (at : ℕ) (k : Key)
    (ks : List (ℕ × Key))
    → press_desk fs at d k ≡ done (some d₁)
    → Reaches fs (mark d₁) ks P
    → Reaches fs d ((at, k) ∷ ks) P
unfolding session_desk
Reaches-later d d₁ at k ks run r = record {
  before = (at, k) ∷ r.before;
  after = r.after;
  at = r.at;
  key = r.key;
  d' = r.d';
  parts = ap (λ rest. (at, k) ∷ rest) r.parts;
  runs = rw run r.runs;
  marked = r.marked;
  holds = r.holds;
}

Reaches-now :
    {fs : FileSystem} {P : Desk → Key → Type 0} (d : Desk) (at : ℕ) (k : Key) (ks : List (ℕ × Key))
    → IsMarked d
    → P d k
    → Reaches fs d ((at, k) ∷ ks) P
unfolding session_desk
Reaches-now d at k ks marked holds = record {
  before = [];
  after = ks;
  at = at;
  key = k;
  d' = d;
  parts = refl;
  runs = refl;
  marked = marked;
  holds = holds;
}

-- What holds of each way in which the loop may end, or wait for the next key.
abbrev pub Waits : FileSystem → Desk → List (ℕ × Key) → Outcome (Option Desk) → Type 0
Waits fs d ks (done (some d')) = IsMarked d'
Waits fs d ks (done none) = Reaches fs d ks (λ d' k. k ≡ quit)
Waits fs d ks (exit s) = (s ≡ exit_failure) × Reaches fs d ks (λ d' k. IsEnter k)
Waits fs d ks fault = Reaches fs d ks (λ d' k. UndefinedEnter fs d'.manager k)

Waits-later :
    (fs : FileSystem) (d d₁ : Desk) (at : ℕ) (k : Key) (ks : List (ℕ × Key))
    → press_desk fs at d k ≡ done (some d₁)
    → (r : Outcome (Option Desk)) → Waits fs (mark d₁) ks r
    → Waits fs d ((at, k) ∷ ks) r
Waits-later fs d d₁ at k ks run (done (some d')) w = w
Waits-later fs d d₁ at k ks run (done none) w = Reaches-later d d₁ at k ks run w
Waits-later fs d d₁ at k ks run (exit s) w = (w.0, Reaches-later d d₁ at k ks run w.1)
Waits-later fs d d₁ at k ks run fault w = Reaches-later d d₁ at k ks run w

Waits-step :
    (fs : FileSystem) (d : Desk) (at : ℕ) (k : Key) (ks : List (ℕ × Key))
    → IsMarked d
    → ((d₁ : Desk) → IsMarked d₁ → Waits fs d₁ ks (session_desk fs d₁ ks))
    → (r : Outcome (Option Desk)) → press_desk fs at d k ≡ r
    → Handled fs d k r
    → Waits fs d
        ((at, k) ∷ ks)
        (r >>= λ o. elim o [ none ↦ done none | some d' ↦ session_desk fs (mark d') ks ])
Waits-step fs d at k ks h later (done (some d₁)) run clean =
    Waits-later fs d d₁ at k ks run (session_desk fs (mark d₁) ks)
      (later (mark d₁) (mark-IsMarked d₁ clean))
Waits-step fs d at k ks h later (done none) run e = Reaches-now d at k ks h e
Waits-step fs d at k ks h later (exit s) run (e, entered) = (e, Reaches-now d at k ks h entered)
Waits-step fs d at k ks h later fault run o = Reaches-now d at k ks h o

session_desk-Waits :
    (fs : FileSystem) (ks : List (ℕ × Key)) (d : Desk)
    → Lists fs
    → IsMarked d
    → Waits fs d ks (session_desk fs d ks)
unfolding session_desk
session_desk-Waits fs [] d lists h = h
session_desk-Waits fs ((at, k) ∷ ks) d lists h =
    Waits-step fs d at k ks h (λ d₁ h₁. session_desk-Waits fs ks d₁ lists h₁) (press_desk fs at d k)
      refl (press_desk-Handled fs at d k lists h)

-- The panels as they have just been drawn, each with the row on which that leaves the cursor.
abbrev pub fresh : ℕ → ℕ → Manager → Desk
fresh at_left at_right m = record {
  manager = m;
  left = drawn at_left m.left;
  right = drawn at_right m.right;
}

-- Over a file system whose listings hold from 2 to 2 ^ 31 - 1 objects, from two valid panels just
-- drawn whose windows show their lists, wherever drawing leaves the cursors of the windows, for any
-- sequence of keys: the loop of main with its marks does to the panels just what it does without
-- them. Where it then waits for a key, both panels are valid; in each window every row inside the
-- frame that has an object was drawn with the look of that object; the row of the cursor is marked
-- as a whole, bold in the active panel and dim in the other; and in every other row the text looks
-- as it was drawn, and the rest of the row, with the border at its end, as it was drawn or as the
-- text. The loop has ended only on a q; the program exits only with a failure, and on an ENTER; and
-- it is undefined only on an ENTER on an object ".." whose name has no room for that of the
-- directory reached from it, or, on the left panel, in the child that is to become an executable
-- object. Each of these keys came in a state marked in that way.
pub session_desk-IsMarked :
    (fs : FileSystem) (at_left at_right : ℕ) (ks : List (ℕ × Key)) (m : Manager)
    → Lists fs
    → Good m
    → Waits fs
        (mark (fresh at_left at_right m))
        ks
        (session_desk fs (mark (fresh at_left at_right m)) ks)
      × (unmarked (session_desk fs (mark (fresh at_left at_right m)) ks)
          ≡ session fs m (keys_of ks))
session_desk-IsMarked fs at_left at_right ks m lists g = (
  session_desk-Waits fs ks (mark (fresh at_left at_right m)) lists (
      mark-IsMarked (fresh at_left at_right m) (record {
        left = drawn-Clean at_left m.left g.left (IsShown-IsColoured m.left g.left_shown);
        right = drawn-Clean at_right m.right g.right (IsShown-IsColoured m.right g.right_shown);
      })),
  session_desk-session fs ks (mark (fresh at_left at_right m)),
)
