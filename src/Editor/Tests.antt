-- ===== src/Editor/Tests.antt =====
-- The editor of text editor/ on a screen of 24 rows and 20 columns with its cursor at a fixed cell.
use eltex_courses_homeworks.Prelude.{
  Bool, Option, ℕ, zero, suc, ◌%◌, ◌≡◌, refl, ap, true, false, ◌&&◌, ◌==◌, if◌then◌else◌, some,
  List, [], ◌∷◌, ◌++◌, codes, length, get_elem?, string_of, NoZero, done, arith, zeros,
  length-zeros, receive, ◌>>=◌,
}
use eltex_courses_homeworks.Editor.Buffer.{buf_size, offset, safe_file, read_file}
use eltex_courses_homeworks.Editor.Keys.{Curses, command, Editor, write_in_win, session}
use eltex_courses_homeworks.Editor.Bounds.{OnScreen, write_in_win-cell}
use eltex_courses_homeworks.Editor.Sessions.{Kept, session-done}
use eltex_courses_homeworks.Editor.RwTest.{drop, trial, trial_lem, write_buf}
use eltex_courses_homeworks.Editor.Windows.{AreLaidOut, panes, panes-AreLaidOut}
use eltex_courses_homeworks.Editor.Saving.{read_file-safe_file}

-- A list of `n` times `b`.
fill : ℕ → ℕ → List ℕ
fill b zero = []
fill b (suc n) = b ∷ fill b n

length-fill : (b n : ℕ) → length (fill b n) ≡ n
unfolding fill
length-fill b zero = refl
length-fill b (suc n) = ap suc (length-fill b n)

fill-NoZero : (n : ℕ) → NoZero (fill b'x' n)
unfolding fill
fill-NoZero zero = tt
fill-NoZero (suc n) = ((λ e. omega arith), fill-NoZero n)

abbrev curses : Curses
curses = record {
  Screen = Unit {0};
  blank = tt;
  getyx = λ s. (1, 2);
  move = λ y x s. s;
  addch = λ c s. s;
  mvdelch = λ y x s. s;
  printw = λ t s. s;
  key_up = 259;
  key_down = 258;
  key_right = 261;
  key_left = 260;
  key_backspace = 263;
}

curses-OnScreen : OnScreen curses 24 20
curses-OnScreen = record { within = λ s. omega arith }

abbrev editor : Editor curses
editor = record {
  screen = tt;
  read_buf = fill 0 buf_size;
  file = some [];
  mode = command;
  top_panel = command;
  help_shown = false;
}

write_in_win-cell_example :
    (e' : Editor curses) × (write_in_win curses 24 b'k' editor ≡ done e')
    × (length e'.read_buf ≡ buf_size)
    × (get_elem? e'.read_buf (offset 24 1 2) ≡ (
        if 1 == 1 && 2 == 2
        then some (if b'k' == 263 then b' ' else b'k' % 256)
        else get_elem? editor.read_buf (offset 24 1 2)))
write_in_win-cell_example =
    write_in_win-cell curses 24 20 curses-OnScreen b'k' editor 1 2 (omega arith) (omega arith)
      (length-fill 0 buf_size) (omega arith)

-- The keys i, a, ESC, s and q.
abbrev keys : List (ℕ × Bool)
keys = (b'i', true) ∷ (b'a', true) ∷ (27, true) ∷ (b's', true) ∷ (b'q', true) ∷ []

session-done_example :
    (r : Option (Editor curses)) × (session curses 24 keys editor ≡ done r)
    × Kept curses 24 20 curses-OnScreen r
unfolding fill
session-done_example =
    session-done curses 24 20 curses-OnScreen keys editor (omega arith)
      (length-fill 0 buf_size, refl)

abbrev typed : List ℕ
typed = codes "hi" ++ (0 ∷ 0 ∷ [])

read_file-safe_file_example :
    (rest : List ℕ) × (safe_file true (some (codes "hello")) typed ≡ done (some (codes "hillo")))
    × (read_file true (some (codes "hillo")) typed ≡ codes "hi" ++ rest)
unfolding string_of
read_file-safe_file_example =
    read_file-safe_file typed (codes "hi") (codes "hello") typed refl (omega arith)

abbrev text : List ℕ
text = codes "Hellos"

trial_lem_example :
    (trial (record { write_ok = true; lseek_ok = true; read_ok = true }) (some text) (zeros 255)
      ≡ (do
        s ← string_of (receive (drop 18 text) (drop 18 (zeros 255)))
        done (some (write_buf ++ drop 18 text), some (write_buf ++ s))))
    × (trial (record { write_ok = true; lseek_ok = false; read_ok = true }) (some text) (zeros 255)
        ≡ (do
          s ← string_of (receive (drop 18 text) (zeros 255))
          done (some (write_buf ++ drop 18 text), some s)))
trial_lem_example = trial_lem text (zeros 255) (length-zeros 255)

panes-AreLaidOut_example : AreLaidOut 24 80 (panes 24 80)
panes-AreLaidOut_example = panes-AreLaidOut 24 80 (omega arith) (omega arith)
