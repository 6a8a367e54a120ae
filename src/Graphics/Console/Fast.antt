-- ===== src/Graphics/Console/Fast.antt =====
-- kernel/graphics/console.cpp: `FastConsole`, which has no text of its own and copies pixels.
use os_jisaku.Graphics.Console.{columns, new_line_char, rows}
use os_jisaku.Prelude.{List, [], if◌then◌else◌, ltb, ℕ, ◌*◌, ◌+◌, ◌-◌, ◌==◌, ◌∷◌}

-- What `FastConsole` asks of its painter, with coordinates in pixels.
pub data Call : Type 0 where
  draw_ascii : ℕ → ℕ → ℕ → Call
  copy_y : ℕ → ℕ → ℕ → Call
  draw_filled_rectangle : ℕ → ℕ → ℕ → ℕ → Call

-- The calls, the last one first.
pub record FastConsole : Type 0 where
  pub calls : List Call
  pub cursor_row : ℕ
  pub cursor_column : ℕ

unfoldable pub new_line : FastConsole → FastConsole
new_line c =
    if ltb c.cursor_row (rows - 1)
    then record c { cursor_column = 0; cursor_row = c.cursor_row + 1 }
    else record c {
      cursor_column = 0;
      calls =
          draw_filled_rectangle 0 (c.cursor_row * 16) (8 * columns) ((c.cursor_row + 1) * 16)
          ∷ copy_y 0 16 (rows * 16)
          ∷ c.calls;
    }

abbrev pub drawn : ℕ → FastConsole → FastConsole
drawn s c = record c {
  calls = draw_ascii (c.cursor_column * 8) (c.cursor_row * 16) s ∷ c.calls;
  cursor_column = c.cursor_column + 1;
}

unfoldable pub put_char : ℕ → FastConsole → FastConsole
unfolding new_line
put_char s c =
    if s == new_line_char
    then new_line c
    else if ltb c.cursor_column columns
    then drawn s c
    else drawn s (new_line c)

unfoldable pub put_string : List ℕ → FastConsole → FastConsole
unfolding put_char
put_string [] c = c
put_string (s ∷ text) c = put_string text (put_char s c)

unfoldable pub empty_console : FastConsole
empty_console = record {
  calls = draw_filled_rectangle 0 0 (8 * columns) (16 * rows) ∷ [];
  cursor_row = 0;
  cursor_column = 0;
}
