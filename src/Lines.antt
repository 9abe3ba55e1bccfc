-- ===== src/Lines.antt =====
-- `get_non_empty_line`, which prj_1/mrpsh.c, prj_3/tool/fraginfo.c and prj_3/tool/get_dev.c have in
-- the same words. A file is the list of the bytes that are still to be read, none of them 0.
pub mod Laws
use cs551os.Prelude.{
  ℕ, ◌+◌, List, [], ◌∷◌, ◌++◌, ◌==◌, ltb, length, if◌then◌else◌, Run, done, fault,
}

-- The bytes of a line without its end, and of a file.
abbrev pub Text : Type 0
Text = List ℕ

-- The callers' buffer `line` has 256 bytes.
abbrev pub line_size : ℕ
line_size = 256

abbrev pub newline : ℕ
newline = 10

-- The loop of `get_non_empty_line`, with the bytes put to `str` so far, of which `idx` is the
-- number: it gives the line, and what is left of the file. Each byte is followed by a terminator.
unfoldable pub read_line : Text → Text → Run (Text × Text)
read_line [] str = done (str, [])
read_line (c ∷ fd) str =
    let rest = read_line fd (str ++ (c ∷ [])) in
    if c == newline then done (str, fd) else if ltb (length str + 1) line_size then rest else fault

-- The result `idx` of the function is the length of the line.
unfoldable pub get_non_empty_line : Text → Run (Text × Text)
get_non_empty_line fd = read_line fd []
