-- ===== src/Tests/Rendering.antt =====
-- Runs of lib/Basic/Diagnostic.cpp, and the theorem on the caret at a concrete line.
use tensorium_cc.Prelude.{
  ◌+◌, ◌≤◌, ◌≡◌, refl, false, some, [], ◌∷◌, ◌++◌, length, take, codes, Bytes, arith,
}
use tensorium_cc.Diagnostic.{
  error, new_engine, add_source, line_starts_from, put_source, find_source, report,
}
use tensorium_cc.Diagnostic.Render.{
  decimal_over, to_string, shown_byte, show_over, show_line, marked_width, until_line_end, excerpt,
  headline, source_lines, render,
}
use tensorium_cc.Diagnostic.Render.Caret.{expand, show_line-places}

-- A tab, then `x = y;`.
abbrev line : Bytes
line = b'\t' ∷ codes "x = y;"

written :
    (report error
      (record { filename = some "a.c"; line = 2; col = 6 })
      (codes "no y")
      1
      (new_engine false "a.c" (codes "int\n" ++ line))).output
    ≡ codes "a.c:2:6: error: no y\n    2 |         x = y;\n      |             ^\n"
unfolding report new_engine add_source line_starts_from put_source find_source decimal_over
    to_string shown_byte show_over show_line until_line_end excerpt headline source_lines render
written = refl

show_line-places_example :
    ((show_line 1 3 line).displayed ≡ expand [] line)
    × ((show_line 1 3 line).caret ≡ length (expand [] (take 1 line)))
    × ((show_line 1 3 line).caret + marked_width 3 (show_line 1 3 line)
        ≡ length (expand [] (take 4 line)))
    × (1 ≤ marked_width 3 (show_line 1 3 line))
show_line-places_example = show_line-places 1 3 line (omega arith) (omega arith)
