-- ===== src/Graphics/Console/Text.antt =====
-- What a console shows: the last 25 lines of everything that was written to it.
use os_jisaku.Graphics.Console.{
  Console, columns, empty_console, new_line, new_line_char, put_char, put_string, rows, stored,
}
use os_jisaku.Prelude.{
  ==→≡, Bool-cases, List, [], arith, false, get_or, if◌then◌else◌, inl, inr, length, length-append,
  ltb, ltb→lt, min, refl, suc, sym, true, zero, ℕ, ◌++◌, ◌+◌, ◌-◌, ◌<◌, ◌==◌, ◌∙◌, ◌∷◌, ◌≡◌, ◌≤◌,
}

-- The lines so far, the current one and those above it, the nearest first.
pub record Log : Type 0 where
  pub current : List ℕ
  pub above : List (List ℕ)

abbrev pub empty_log : Log
empty_log = record { current = []; above = [] }

abbrev pub start_line : Log → Log
start_line l = record { current = []; above = l.current ∷ l.above }

abbrev pub append : ℕ → Log → Log
append s l = record l { current = l.current ++ (s ∷ []) }

-- A character, or a line break; a line that is full is broken before the next character.
abbrev pub log_char : ℕ → Log → Log
log_char s l =
    if s == new_line_char
    then start_line l
    else if ltb (length l.current) columns
    then append s l
    else append s (start_line l)

abbrev pub log_text : List ℕ → Log → Log
log_text [] l = l
log_text (s ∷ text) l = log_text text (log_char s l)

abbrev pub line_at : Log → ℕ → List ℕ
line_at l i = get_or (l.current ∷ l.above) i []

-- The console's buffer ends with the current line, under which the rows are empty.
pub record Shows (l : Log) (c : Console) : Type 0 where
  pub column : c.cursor_column ≡ length l.current
  pub fits_columns : length l.current ≤ columns
  pub row : c.cursor_row ≡ min (length l.above) (rows - 1)
  pub text : (y x : ℕ) → y ≤ c.cursor_row → c.buffer y x ≡ get_or (line_at l (c.cursor_row - y)) x 0
  pub blank : (y x : ℕ) → c.cursor_row < y → y < rows → c.buffer y x ≡ 0

get_or-last :
    (line : List ℕ) (s x : ℕ)
    → get_or (line ++ (s ∷ [])) x 0 ≡ (if x == length line then s else get_or line x 0)
get_or-last [] s zero = refl
get_or-last [] s (suc x) = ground arith
get_or-last (c ∷ line) s zero = ground arith
get_or-last (c ∷ line) s (suc x) = rw (get_or-last line s x) (ground arith)

-- A new line pushes the others up.
pushed_up :
    (l : Log) (i j x : ℕ)
    → j ≡ suc i
    → get_or (line_at (start_line l) j) x 0 ≡ get_or (line_at l i) x 0
pushed_up l i j x e = rw e

under_all : (l : Log) (j x : ℕ) → j ≡ 0 → get_or (line_at (start_line l) j) x 0 ≡ 0
under_all l j x e = rw e

upper_same :
    (s : ℕ) (l : Log) (j x : ℕ)
    → 0 < j
    → get_or (line_at (append s l) j) x 0 ≡ get_or (line_at l j) x 0
upper_same s l zero x h = absurd (omega arith)
upper_same s l (suc j) x h = refl

new_line-Shows : (l : Log) (c : Console) → Shows l c → Shows (start_line l) (new_line c)
unfolding new_line
new_line-Shows l c h = elim (Bool-cases (ltb c.cursor_row (rows - 1))) [
  | inl room ↦ rw room (record {
    column = refl;
    fits_columns = omega arith;
    row = ground (arith, h.row);
    text = λ y x low. elim (Bool-cases (y == c.cursor_row + 1)) [
      | inl last ↦
          let e = ==→≡ y (c.cursor_row + 1) last in
          h.blank y x (omega arith) (ground arith)
          ∙ sym (under_all l (c.cursor_row + 1 - y) x (omega arith))
      | inr upper ↦
          let e : y ≤ c.cursor_row = ground arith in
          h.text y x e ∙ sym (pushed_up l (c.cursor_row - y) (c.cursor_row + 1 - y) x (omega arith))
    ];
    blank = λ y x low high. h.blank y x (omega arith) high;
  })
  | inr no_room ↦ rw no_room (record {
    column = refl;
    fits_columns = omega arith;
    row = ground (arith, h.row);
    text = λ y x low. elim (Bool-cases (y == rows - 1)) [
      | inl last ↦
          let e = ==→≡ y (rows - 1) last in
          let bottom : c.cursor_row - y ≡ 0 = ground (arith, h.row) in
          rw last (sym (under_all l (c.cursor_row - y) x bottom))
      | inr upper ↦
          let at_end : c.cursor_row ≡ rows - 1 = ground (arith, h.row) in
          let e : y + 1 ≤ c.cursor_row = ground arith in
          rw upper (
            h.text (y + 1) x e
            ∙ sym (pushed_up l (c.cursor_row - (y + 1)) (c.cursor_row - y) x (omega arith)))
    ];
    blank = λ y x low high. absurd (ground arith);
  })
]

stored-Shows :
    (s : ℕ) (l : Log) (c : Console)
    → length l.current < columns
    → Shows l c
    → Shows (append s l) (stored s c)
stored-Shows s l c room h = record {
  column = omega (arith, h.column, length-append l.current (s ∷ []));
  fits_columns = omega (arith, length-append l.current (s ∷ []));
  row = h.row;
  text = λ y x low. elim (Bool-cases (y == c.cursor_row)) [
    | inl same ↦
        let e = ==→≡ y c.cursor_row same in
        let bottom : c.cursor_row - y ≡ 0 = omega arith in
        rw (bottom, same, get_or-last l.current s x, ← h.column) (rw (h.text y x low, bottom))
    | inr other ↦
        let upper : 0 < c.cursor_row - y = ground arith in
        rw other (h.text y x low ∙ sym (upper_same s l (c.cursor_row - y) x upper))
  ];
  blank = λ y x low high.
      let other : (y == c.cursor_row) ≡ false = ground arith in rw other (h.blank y x low high);
}

put_char-Shows : (s : ℕ) (l : Log) (c : Console) → Shows l c → Shows (log_char s l) (put_char s c)
unfolding put_char
put_char-Shows s l c h = elim (Bool-cases (s == new_line_char)) [
  | inl break ↦ rw break (new_line-Shows l c h)
  | inr other ↦ elim (Bool-cases (ltb c.cursor_column columns)) [
    | inl room ↦
        let same : ltb (length l.current) columns ≡ true = rw h.column at room in
        rw (other, room, same) (stored-Shows s l c (ltb→lt _ _ same) h)
    | inr no_room ↦
        let same : ltb (length l.current) columns ≡ false = rw h.column at no_room in
        rw (other, no_room, same)
          (stored-Shows s (start_line l) (new_line c) (omega arith) (new_line-Shows l c h))
  ]
]

put_string_from :
    (text : List ℕ) (l : Log) (c : Console)
    → Shows l c
    → Shows (log_text text l) (put_string text c)
unfolding put_string
put_string_from [] l c h = h
put_string_from (s ∷ text) l c h =
    put_string_from text (log_char s l) (put_char s c) (put_char-Shows s l c h)

nothing_yet : (i x : ℕ) → i ≤ 0 → 0 ≡ get_or (line_at empty_log i) x 0
nothing_yet zero x h = refl
nothing_yet (suc i) x h = elim h [ ]

-- Whatever is written to a fresh console, its buffer holds the last lines of the text, broken at
-- line breaks and after 80 characters, with the current line in the cursor's row and every row below
-- it empty; the cursor stands behind the current line and stays on the screen's 25 rows.
pub put_string-Shows :
    (text : List ℕ)
    → Shows (log_text text empty_log) (put_string text empty_console)
      × ((put_string text empty_console).cursor_row < rows)
unfolding empty_console
put_string-Shows text =
    let shown = put_string_from text empty_log empty_console (record {
      column = refl;
      fits_columns = omega arith;
      row = refl;
      text = λ y x low. nothing_yet (0 - y) x (omega arith);
      blank = λ y x low high. refl;
    }) in
    (shown, ground (arith, shown.row))
