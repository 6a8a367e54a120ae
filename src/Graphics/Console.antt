-- ===== src/Graphics/Console.antt =====
-- kernel/graphics/console.hpp and console.cpp: the consoles' cursors and their text.
-- `Console` without a writer keeps its text; what a writer draws is not modelled here. `FastConsole`
-- keeps no text, and its drawing is a list of the calls that it makes of its painter.
pub mod Text
pub mod Fast
pub mod Cursor
mod Tests
use os_jisaku.Prelude.{List, [], if◌then◌else◌, ltb, ℕ, ◌&&◌, ◌+◌, ◌-◌, ◌==◌, ◌∷◌}

abbrev pub rows : ℕ
rows = 25

abbrev pub columns : ℕ
columns = 80

abbrev pub new_line_char : ℕ
new_line_char = 10

pub record Console : Type 0 where
  pub buffer : ℕ → ℕ → ℕ
  pub cursor_row : ℕ
  pub cursor_column : ℕ

unfoldable pub empty_console : Console
empty_console = record { buffer = λ y x. 0; cursor_row = 0; cursor_column = 0 }

-- The `memmove` and the `memset` of `new_line`.
abbrev pub scrolled : (ℕ → ℕ → ℕ) → ℕ → ℕ → ℕ
scrolled buffer y x = if y == rows - 1 then 0 else buffer (y + 1) x

unfoldable pub new_line : Console → Console
new_line c =
    if ltb c.cursor_row (rows - 1)
    then record c { cursor_column = 0; cursor_row = c.cursor_row + 1 }
    else record c { cursor_column = 0; buffer = scrolled c.buffer }

-- A character stored under the cursor, which moves on.
abbrev pub stored : ℕ → Console → Console
stored s c = record c {
  buffer = λ y x. if y == c.cursor_row && x == c.cursor_column then s else c.buffer y x;
  cursor_column = c.cursor_column + 1;
}

-- One round of the loop of `put_string`, with its `retry`.
unfoldable pub put_char : ℕ → Console → Console
unfolding new_line
put_char s c =
    if s == new_line_char
    then new_line c
    else if ltb c.cursor_column columns
    then stored s c
    else stored s (new_line c)

unfoldable pub put_string : List ℕ → Console → Console
unfolding put_char
put_string [] c = c
put_string (s ∷ text) c = put_string text (put_char s c)
