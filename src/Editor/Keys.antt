-- ===== src/Editor/Keys.antt =====
-- `main` of text editor/main.c, and WriteInWin and CallHelp of text editor/interactive.c, over the
-- calls of curses. The windows of the status bar and of the help are left out, but for whether the
-- help is shown and which of the two mode panels is on top.
use eltex_courses_homeworks.Prelude.{
  ℕ, ◌+◌, ◌-◌, ◌%◌, Bool, true, false, Option, none, some, List, [], ◌∷◌, ◌==◌, if◌then◌else◌,
  string_of, Outcome, done, exit, ◌>>=◌,
}
use eltex_courses_homeworks.Prelude.Int.{ℤ, pos, sub_ℕ}
use eltex_courses_homeworks.Editor.Buffer.{offset, store, safe_file, read_file}

-- What the program uses of curses: the screen with its cursor, the calls that change it, and the
-- codes of the keys that are no characters. `move` takes an `int` for each coordinate.
pub record Curses : Type 1 where
  pub Screen : Type 0
  pub blank : Screen
  pub getyx : Screen → ℕ × ℕ
  pub move : ℤ → ℤ → Screen → Screen
  pub addch : ℕ → Screen → Screen
  pub mvdelch : ℕ → ℕ → Screen → Screen
  pub printw : List ℕ → Screen → Screen
  pub key_up : ℕ
  pub key_down : ℕ
  pub key_right : ℕ
  pub key_left : ℕ
  pub key_backspace : ℕ

-- Which `getch` the program waits in: that of `main`, of WriteInWin or of CallHelp. The first two
-- are also the names of the mode panels.
pub data Mode : Type 0 where
  command insert help : Mode

module _ (C : Curses) where
  open C use {Screen, blank, getyx, move, addch, mvdelch, printw}

  -- `file` is the contents of the file, or `none` where it could not be opened.
  pub record Editor : Type 0 where
    pub screen : Screen
    pub read_buf : List ℕ
    pub file : Option (List ℕ)
    pub mode : Mode
    pub top_panel : Mode
    pub help_shown : Bool

  module _ (max_y : ℕ) where
    -- A key in WriteInWin that is not the last one.
    unfoldable pub write_in_win : ℕ → Editor → Outcome Editor
    write_in_win key e =
        let (y, x) = getyx e.screen in
        if key == C.key_backspace
        then (if x == 0
            then (do
              buf ← store (offset max_y y x) b' ' e.read_buf
              done (record e { screen = mvdelch y x e.screen; read_buf = buf }))
            else (do
              buf ← store (offset max_y y x) b' ' e.read_buf
              done (record e {
                screen = move (pos y) (pos (x - 1)) (addch b' ' e.screen);
                read_buf = buf;
              })))
        else (do
          buf ← store (offset max_y y x) (key % 256) e.read_buf
          done (record e { screen = addch key e.screen; read_buf = buf }))

    abbrev pub moved : ℤ → ℤ → Editor → Editor
    moved y x e = record e { screen = move y x e.screen }

    -- A key in the loop of `main`: `none` once the loop has ended.
    unfoldable pub command_key : Bool → ℕ → Editor → Outcome (Option Editor)
    command_key write_ok key e =
        let (y, x) = getyx e.screen in
        if key == b'q'
        then done none
        else if key == C.key_up
        then done (some (moved (sub_ℕ y 1) (pos x) e))
        else if key == C.key_down
        then done (some (moved (pos (y + 1)) (pos x) e))
        else if key == C.key_right
        then done (some (moved (pos y) (pos (x + 1)) e))
        else if key == C.key_left
        then done (some (moved (pos y) (sub_ℕ x 1) e))
        else if key == b'i'
        then done (some (record e { mode = insert; top_panel = insert }))
        else if key == b's'
        then (do
          file ← safe_file write_ok e.file e.read_buf
          done (some (record e { file = file })))
        else if key == b'h'
        then done (some (record e { mode = help; help_shown = true }))
        else done (some e)

    -- A key, wherever the program waits for it. The code 27 ends WriteInWin; CallHelp takes one key.
    unfoldable pub press : Bool → Mode → ℕ → Editor → Outcome (Option Editor)
    unfolding write_in_win command_key
    press write_ok command key e = command_key write_ok key e
    press write_ok insert key e =
        if key == 27
        then done (some (record e { mode = command }))
        else (do e' ← write_in_win key e; done (some e'))
    press write_ok help key e =
        if key == b'h'
        then done (some (record e { mode = command; help_shown = false }))
        else done (some (record e { mode = command }))

    -- The keys that are typed, each with whether a `write` then succeeds.
    unfoldable pub session : List (ℕ × Bool) → Editor → Outcome (Option Editor)
    session [] e = done (some e)
    session ((key, write_ok) ∷ keys) e = do
      r ← press write_ok e.mode key e
      elim r [ none ↦ done none | some e' ↦ session keys e' ]

  -- `main` before its loop: whether there is an argument, the contents of the file, and what the
  -- buffer holds before.
  unfoldable pub start : Bool → Option (List ℕ) → Bool → List ℕ → Outcome Editor
  start argument file read_ok garbage =
      if argument
      then (do
        let buf = read_file read_ok file garbage
        s ← string_of buf
        done (record {
          screen = move (pos 0) (pos 0) (printw s blank);
          read_buf = buf;
          file = file;
          mode = command;
          top_panel = command;
          help_shown = false;
        }))
      else exit 1
