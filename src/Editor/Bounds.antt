-- ===== src/Editor/Bounds.antt =====
-- The bytes of `read_buf` that the editor writes to.
use eltex_courses_homeworks.Prelude.{
  ◌⊎◌, ℕ, ◌-◌, ◌∙◌, ◌&&◌, ◌%◌, ◌≤◌, ◌<◌, ◌≡◌, inl, inr, refl, Bool, Option, none, some, ◌==◌,
  if◌then◌else◌, ==_iff, string_of-cases, length, get_elem?, set, length-set, string_of, Outcome,
  done, exit, fault, ◌>>=◌, arith, Bool-cases,
}
use eltex_courses_homeworks.Prelude.Int.{pos}
use eltex_courses_homeworks.Editor.Buffer.{buf_size, offset, safe_file}
use eltex_courses_homeworks.Editor.Cells.{Fits, offset-lt, store-done, get_elem?-set_cell, if_cases}
use eltex_courses_homeworks.Editor.Keys.{
  Curses, Mode, command, insert, help, Editor, write_in_win, command_key, press,
}

-- The cursor is always on the screen.
pub record OnScreen (C : Curses) (max_y max_x : ℕ) : Type 0 where
  pub within : (s : C.Screen) → ((C.getyx s).0 < max_y) × ((C.getyx s).1 < max_x)

module _ (C : Curses) (max_y max_x : ℕ) (on : OnScreen C max_y max_x) where
  -- What a key in WriteInWin does to the buffer.
  pub record Written (key : ℕ) (e e' : Editor C) : Type 0 where
    pub long : length e'.read_buf ≡ length e.read_buf
    same_file : e'.file ≡ e.file
    pub written :
        e'.read_buf
        ≡ set e.read_buf
            (offset max_y (C.getyx e.screen).0 (C.getyx e.screen).1)
            (if key == C.key_backspace then b' ' else key % 256)

  -- The buffer after a store at the cursor.
  written :
      (key : ℕ) (e : Editor C) (v at : ℕ) (screen : C.Screen)
      → (if key == C.key_backspace then b' ' else key % 256) ≡ v
      → at ≡ offset max_y (C.getyx e.screen).0 (C.getyx e.screen).1
      → Written key e (record e { screen = screen; read_buf = set e.read_buf at v })
  written key e v at screen hv ha = record {
    long = length-set e.read_buf at v;
    same_file = refl;
    written = rw (hv, ha) refl;
  }

  write_in_win_lem :
      (key : ℕ) (e : Editor C)
      → Fits max_y max_x
      → length e.read_buf ≡ buf_size
      → (e' : Editor C) × (write_in_win C max_y key e ≡ done e') × Written key e e'
  unfolding write_in_win
  write_in_win_lem key e fits len =
      let (hy, hx) = on.within e.screen in
      let at : ℕ = offset max_y (C.getyx e.screen).0 (C.getyx e.screen).1 in
      let below : at < length e.read_buf =
        omega (
          arith,
          offset-lt max_y max_x (C.getyx e.screen).0 (C.getyx e.screen).1 hy hx fits,
          len,
        ) in
      elim (Bool-cases (key == C.key_backspace)) [
        | inl back ↦ elim (Bool-cases ((C.getyx e.screen).1 == 0)) [
          | inl edge ↦ (
            record e {
              screen = C.mvdelch (C.getyx e.screen).0 (C.getyx e.screen).1 e.screen;
              read_buf = set e.read_buf at b' ';
            },
            rw (back, edge, store-done at b' ' e.read_buf below) refl,
            written key e b' ' at _ (rw back refl) refl,
          )
          | inr inner ↦ (
            record e {
              screen =
                  C.move (pos (C.getyx e.screen).0) (pos ((C.getyx e.screen).1 - 1))
                    (C.addch b' ' e.screen);
              read_buf = set e.read_buf at b' ';
            },
            rw (back, inner, store-done at b' ' e.read_buf below) refl,
            written key e b' ' at _ (rw back refl) refl,
          )
        ]
        | inr typed ↦ (
          record e { screen = C.addch key e.screen; read_buf = set e.read_buf at (key % 256) },
          rw (typed, store-done at (key % 256) e.read_buf below) refl,
          written key e (key % 256) at _ (rw typed refl) refl,
        )
      ]

  -- On a screen no wider than it is tall, whose last cell stands in `read_buf`, with the cursor
  -- always on it: a key in WriteInWin is defined, keeps the 2400 bytes of `read_buf`, and changes
  -- of the bytes of the cells only that under the cursor, which becomes a space for KEY_BACKSPACE
  -- and otherwise the low byte of the key.
  pub write_in_win-cell :
      (key : ℕ) (e : Editor C) (y x : ℕ)
      → Fits max_y max_x
      → max_x ≤ max_y
      → length e.read_buf ≡ buf_size
      → x < max_x
      → (e' : Editor C) × (write_in_win C max_y key e ≡ done e')
        × (length e'.read_buf ≡ buf_size)
        × (get_elem? e'.read_buf (offset max_y y x) ≡ (
            if (C.getyx e.screen).0 == y && (C.getyx e.screen).1 == x
            then some (if key == C.key_backspace then b' ' else key % 256)
            else get_elem? e.read_buf (offset max_y y x)))
  write_in_win-cell key e y x fits wide len hx =
      let (e', run, w) = write_in_win_lem key e fits len in
      (
        e',
        run,
        w.long ∙ len,
        rw w.written (
            get_elem?-set_cell max_y (C.getyx e.screen).0 (C.getyx e.screen).1 y x _ e.read_buf
              (omega (arith, (on.within e.screen).1)) (omega arith)
              (omega (
                arith,
                offset-lt max_y max_x (C.getyx e.screen).0 (C.getyx e.screen).1
                    (on.within e.screen).0 (on.within e.screen).1 fits,
                len,
              ))),
      )

  -- The buffer keeps its length, and changes at most in the byte of the cell under the cursor.
  abbrev pub Changed : Editor C → Editor C → Type 0
  Changed e e' =
      (length e'.read_buf ≡ buf_size)
      × ((e'.read_buf ≡ e.read_buf)
          ⊎ ((v : ℕ) × (e'.read_buf
                ≡ set e.read_buf (offset max_y (C.getyx e.screen).0 (C.getyx e.screen).1) v)))

  -- What holds of each way in which the handling of a key may end.
  abbrev pub Pressed : Mode → ℕ → Editor C → Outcome (Option (Editor C)) → Type 0
  Pressed m key e (done none) = (m ≡ command) × (key ≡ b'q')
  Pressed m key e (done (some e')) = Changed e e'
  Pressed m key e (exit s) = ⊥
  Pressed m key e fault = (m ≡ command) × (key ≡ b's') × (string_of e.read_buf ≡ fault)

  saved-Pressed :
      (write_ok : Bool) (key : ℕ) (e : Editor C)
      → key ≡ b's'
      → length e.read_buf ≡ buf_size
      → Pressed command key e
          (safe_file write_ok e.file e.read_buf >>= λ file. done (some (record e { file = file })))
  unfolding safe_file
  saved-Pressed write_ok key e is_s len = elim (string_of-cases e.read_buf) [
    | inl bad ↦ rw bad (refl, is_s, bad)
    | inr (s, good) ↦ elim (Bool-cases write_ok) [
      | inl yes_ok ↦ rw (good, yes_ok) (len, inl refl)
      | inr failing ↦ rw (good, failing) (len, inl refl)
    ]
  ]

  command_key-Pressed :
      (write_ok : Bool) (key : ℕ) (e : Editor C)
      → length e.read_buf ≡ buf_size
      → Pressed command key e (command_key C max_y write_ok key e)
  unfolding command_key
  command_key-Pressed write_ok key e len =
      let P = Pressed command key e in
      let keeps : Changed e e = (len, inl refl) in
      if_cases P (key == b'q') (λ is_q. (refl, (==_iff key b'q').0 is_q))
        (λ _.
          if_cases P (key == C.key_up) (λ _. keeps)
            (λ _.
              if_cases P (key == C.key_down) (λ _. keeps)
                (λ _.
                  if_cases P (key == C.key_right) (λ _. keeps)
                    (λ _.
                      if_cases P (key == C.key_left) (λ _. keeps)
                        (λ _.
                          if_cases P (key == b'i') (λ _. keeps)
                            (λ _.
                              if_cases P (key == b's')
                                (λ is_s.
                                  saved-Pressed write_ok key e ((==_iff key b's').0 is_s) len)
                                (λ _. if_cases P (key == b'h') (λ _. keeps) (λ _. keeps))))))))

  -- On a screen whose last cell stands in `read_buf` any key, wherever the editor waits for it,
  -- changes at most the byte under the cursor, or is q in the command mode, or is undefined as s
  -- there where `read_buf` holds no zero.
  pub press-Pressed :
      (write_ok : Bool) (m : Mode) (key : ℕ) (e : Editor C)
      → Fits max_y max_x
      → length e.read_buf ≡ buf_size
      → Pressed m key e (press C max_y write_ok m key e)
  unfolding press
  press-Pressed write_ok command key e fits len = command_key-Pressed write_ok key e len
  press-Pressed write_ok insert key e fits len = elim (Bool-cases (key == 27)) [
    | inl escape ↦ rw escape (len, inl refl)
    | inr other ↦
        let (e', run, w) = write_in_win_lem key e fits len in
        rw (other, run) (w.long ∙ len, inr (_, w.written))
  ]
  press-Pressed write_ok help key e fits len = elim (Bool-cases (key == b'h')) [
    | inl again ↦ rw again (len, inl refl)
    | inr other ↦ rw other (len, inl refl)
  ]
