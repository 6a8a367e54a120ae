-- ===== src/Graphics/Console/Tests.antt =====
-- A few characters, and the theorems at them.
use os_jisaku.Graphics.Console.{empty_console, put_string, rows, new_line, put_char}
use os_jisaku.Graphics.Console.Text.{Shows, empty_log, log_text, put_string-Shows}
use os_jisaku.Prelude.{List, [], refl, ℕ, ◌<◌, ◌∷◌, ◌≡◌}

abbrev two_lines : List ℕ
two_lines = 72 ∷ 105 ∷ 10 ∷ 33 ∷ []

second_line : (put_string two_lines empty_console).buffer 1 0 ≡ 33
unfolding put_string put_char new_line empty_console
second_line = refl

put_string-Shows_example :
    Shows (log_text two_lines empty_log) (put_string two_lines empty_console)
    × ((put_string two_lines empty_console).cursor_row < rows)
put_string-Shows_example = put_string-Shows two_lines
