-- ===== src/FileManager/Cursor/Screen.antt =====
-- The rows that RenderingListDir leaves in the window.
use eltex_courses_homeworks.Prelude.{
  ℕ, zero, suc, ◌+◌, ◌-◌, ◌≤◌, ◌<◌, ◌≡◌, refl, ◌∙◌, sym, ◌≢◌, Option, none, some, List, [], ◌∷◌,
  ◌++◌, ◌==◌, if◌then◌else◌, length, get_elem?, get_elem?-some, get_elem?-lt, done, arith,
}
use mathlib.Core.Path.{subst}
use mathlib.Core.Option.{some-injective}
use eltex_courses_homeworks.FileManager.Panel.{
  Dirent, Row, Window, PmPanel, draw_entry, mvwprintw, inside, draw_from, rendering_list_dir,
  werase, box,
}

-- The first text that stands on row `k`.
abbrev pub find_row : ℕ → List Row → Option Row
find_row k [] = none
find_row k (r ∷ rs) = if r.line == k then some r else find_row k rs

find_row-append_some :
    (k : ℕ) (rs ss : List Row) {r : Row} → find_row k rs ≡ some r → find_row k (rs ++ ss) ≡ some r
find_row-append_some k [] ss h = cc
find_row-append_some k (a ∷ rs) ss {r} h = ground (arith, find_row-append_some k rs ss {r = r})

find_row-append_none :
    (k : ℕ) (rs ss : List Row) → find_row k rs ≡ none → find_row k (rs ++ ss) ≡ find_row k ss
find_row-append_none k [] ss h = refl
find_row-append_none k (a ∷ rs) ss h = ground (arith, find_row-append_none k rs ss)

-- The border leaves the rows between the first and the last.
find_row-inside :
    (k h : ℕ) (rs : List Row) → 0 < k → k + 1 < h → find_row k (inside h rs) ≡ find_row k rs
unfolding inside
find_row-inside k h [] p q = refl
find_row-inside k h (r ∷ rs) p q = ground (arith, find_row-inside k h rs)

line-draw_entry : (i : ℕ) (e : Dirent) → (draw_entry i e).line ≡ i
unfolding draw_entry
line-draw_entry i e = ground arith

-- What the loop leaves on row `k` after `n` rounds from row `i`.
record Drawn (names : List Dirent) (n cnt i k : ℕ) (w w' : Window) : Type 0 where
  tall : w'.height ≡ w.height
  old : {r : Row} → find_row k w.rows ≡ some r → find_row k w'.rows ≡ some r
  new :
      (d : ℕ) {e : Dirent}
      → k ≡ i + d
      → d < n
      → k < w.height
      → find_row k w.rows ≡ none
      → get_elem? names (cnt + d) ≡ some e
      → find_row k w'.rows ≡ some (draw_entry k e)

height-mvwprintw : (w : Window) (r : Row) → (mvwprintw w r).height ≡ w.height
unfolding mvwprintw
height-mvwprintw w r = ground arith

mvwprintw_old :
    (k : ℕ) (w : Window) (r : Row) {s : Row}
    → find_row k w.rows ≡ some s
    → find_row k (mvwprintw w r).rows ≡ some s
unfolding mvwprintw
mvwprintw_old k w r {s} h = ground (arith, find_row-append_some k w.rows (r ∷ []) {r = s})

mvwprintw_ne :
    (k : ℕ) (w : Window) (r : Row)
    → r.line ≢ k
    → find_row k w.rows ≡ none
    → find_row k (mvwprintw w r).rows ≡ none
unfolding mvwprintw
mvwprintw_ne k w r ne h = ground (arith, find_row-append_none k w.rows (r ∷ []))

mvwprintw_new :
    (k : ℕ) (w : Window) (r : Row)
    → r.line ≡ k
    → k < w.height
    → find_row k w.rows ≡ none
    → find_row k (mvwprintw w r).rows ≡ some r
unfolding mvwprintw
mvwprintw_new k w r e lt h = ground (arith, find_row-append_none k w.rows (r ∷ []))

Drawn-step :
    (n : ℕ) (names : List Dirent) (cnt i k : ℕ) (w w' : Window) (e : Dirent)
    → get_elem? names cnt ≡ some e
    → Drawn names n (cnt + 1) (i + 1) k (mvwprintw w (draw_entry i e)) w'
    → Drawn names (suc n) cnt i k w w'
Drawn-step n names cnt i k w w' e here rest = record {
  tall = rest.tall ∙ height-mvwprintw w (draw_entry i e);
  old = λ h. rest.old (mvwprintw_old k w (draw_entry i e) h);
  new = at;
}
  where
    at :
        (d : ℕ) {e' : Dirent}
        → k ≡ i + d
        → d < suc n
        → k < w.height
        → find_row k w.rows ≡ none
        → get_elem? names (cnt + d) ≡ some e'
        → find_row k w'.rows ≡ some (draw_entry k e')
    at zero {e'} p lt low free q =
        let same : cnt + 0 ≡ cnt = omega arith in
        let line : i ≡ k = omega arith in
        let eq : some e ≡ some e' = sym here ∙ (rw same at q) in
        rest.old (mvwprintw_new k w (draw_entry i e) (line-draw_entry i e ∙ line) low free) ∙ λ j.
        some (draw_entry (line j) (some-injective _ _ eq j))
    at (suc d) {e'} p lt low free q =
        rest.new d {e = e'} (omega arith) (omega arith)
          (rw (height-mvwprintw w (draw_entry i e)) low)
          (mvwprintw_ne k w (draw_entry i e) (omega (arith, line-draw_entry i e)) free)
          (subst (λ j. get_elem? names j ≡ some e') (omega arith) q)

draw_from_lem :
    (n : ℕ) (names : List Dirent) (cnt i : ℕ) (w : Window)
    → cnt + n ≤ length names
    → (w' : Window) × (draw_from n names cnt i w ≡ done w') × ((k : ℕ) → Drawn names n cnt i k w w')
unfolding draw_from
draw_from_lem zero names cnt i w fits =
    (w, refl, λ k. record { tall = refl; old = λ h. h; new = λ d p lt. absurd (omega arith) })
draw_from_lem (suc n) names cnt i w fits =
    let (e, here) = get_elem?-some names cnt (omega arith) in
    let (w', run, rest) =
      draw_from_lem n names (cnt + 1) (i + 1) (mvwprintw w (draw_entry i e)) (omega arith) in
    (w', rw here run, λ k. Drawn-step n names cnt i k w w' e here (rest k))

-- Inside the border each row stands in the relation `S` to the object that belongs there: on row `k`
-- that with the index `list_begin + k`.
abbrev pub IsShownAs : (ℕ → Dirent → Option Row → Type 0) → PmPanel → Type 0
IsShownAs S p =
    (k : ℕ) (e : Dirent)
    → 0 < k
    → k + 1 < p.w_half.height
    → get_elem? p.name_list (p.list_begin + k) ≡ some e
    → S k e (find_row k p.w_half.rows)

-- The window shows the list: each row inside the border is the one drawn for its object.
abbrev pub IsShown : PmPanel → Type 0
IsShown p = IsShownAs (λ k e o. o ≡ some (draw_entry k e)) p

-- A relation in which the rows stand as they are drawn is kept from `p` to `q`.
pub record Keeps (p q : PmPanel) : Type 1 where
  pub keeps :
      (S : ℕ → Dirent → Option Row → Type 0)
      → ((k : ℕ) (e : Dirent) → S k e (some (draw_entry k e)))
      → IsShownAs S p
      → IsShownAs S q

pub Keeps-IsShown : {p q : PmPanel} → Keeps p q → IsShown p → IsShown q
Keeps-IsShown k shown = k.keeps (λ k e o. o ≡ some (draw_entry k e)) (λ k e. refl) shown

pub rendering_lem :
    (cwd : List ℕ) (p : PmPanel)
    → p.dir_num ≡ length p.name_list
    → p.list_begin ≤ p.dir_num
    → (w : Window) × (rendering_list_dir cwd p ≡ done (record p { w_half = w; w_dir = cwd }))
      × (w.height ≡ p.w_half.height)
      × IsShown (record p { w_half = w; w_dir = cwd })
unfolding rendering_list_dir
rendering_lem cwd p listed within =
    let n : ℕ = p.dir_num - p.list_begin in
    let (w, run, drawn) =
      draw_from_lem n p.name_list p.list_begin 0 (werase p.w_half) (omega arith) in
    (
      box w,
      rw run,
      (drawn 0).tall,
      λ k e low high at.
          find_row-inside k w.height w.rows low high
          ∙ (drawn k).new k {e = e} (omega arith) (omega (arith, get_elem?-lt p.name_list _ at))
              (omega (arith, (drawn 0).tall)) refl at,
    )
