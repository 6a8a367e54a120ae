-- ===== src/Graphics/Console/Cursor.antt =====
-- Both consoles move their cursors alike.
use os_jisaku.Graphics.Console.{Console, empty_console, new_line, put_char, put_string}
use os_jisaku.Graphics.Console.Fast
use os_jisaku.Graphics.Console.Fast.{FastConsole}
use os_jisaku.Prelude.{List, [], arith, refl, ℕ, ◌∷◌, ◌≡◌}

abbrev pub SameCursor : Console → FastConsole → Type 0
SameCursor c f = (c.cursor_row ≡ f.cursor_row) × (c.cursor_column ≡ f.cursor_column)

put_char-SameCursor :
    (s : ℕ) (c : Console) (f : FastConsole)
    → SameCursor c f
    → SameCursor (put_char s c) (Fast.put_char s f)
unfolding put_char new_line Fast.put_char Fast.new_line
put_char-SameCursor s c f (row, column) = (ground arith, ground arith)

put_string_from :
    (text : List ℕ) (c : Console) (f : FastConsole)
    → SameCursor c f
    → SameCursor (put_string text c) (Fast.put_string text f)
unfolding put_string Fast.put_string
put_string_from [] c f h = h
put_string_from (s ∷ text) c f h =
    put_string_from text (put_char s c) (Fast.put_char s f) (put_char-SameCursor s c f h)

-- After the same text the cursors of both consoles stand at the same place.
pub put_string-SameCursor :
    (text : List ℕ)
    → SameCursor (put_string text empty_console) (Fast.put_string text Fast.empty_console)
unfolding empty_console Fast.empty_console
put_string-SameCursor text = put_string_from text empty_console Fast.empty_console (refl, refl)
