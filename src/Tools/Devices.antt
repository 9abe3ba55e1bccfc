-- ===== src/Tools/Devices.antt =====
-- The loop over the mounted devices of prj_3/tool/fraginfo.c, and its copy in get_dev.c.
pub mod Laws
pub mod Finishes
pub mod GetDev
use cs551os.Prelude.{
  ℕ, zero, suc, ◌+◌, Bool, ◌&&◌, List, [], ◌∷◌, ◌++◌, ◌==◌, ltb, length, if◌then◌else◌, Option,
  none, some, Run, done, fault, out_of_fuel, ◌>>=◌,
}
use cs551os.Lines.{Text, get_non_empty_line}
use cs551os.Shell.Assoc.{str_eq}

-- `cmd_list[0]` and `cmd_list[1]`, buffers of 256 bytes; the other 16 pointers are indeterminate.
pub record Words : Type 0 where
  pub first : Text
  pub second : Text

abbrev pub word_size : ℕ
word_size = 256

-- `cmd_list[i][j] = '\0'` behind the `j` bytes of `word`.
abbrev pub end_word : ℕ → Text → Words → Run Words
end_word zero word w =
    if ltb (length word) word_size then done (record w { first = word }) else fault
end_word (suc zero) word w =
    if ltb (length word) word_size then done (record w { second = word }) else fault
end_word (suc (suc i)) word w = fault

abbrev pub space : ℕ
space = 32

-- The loop over the bytes of a line. `j` is reset at the first space only.
unfoldable pub split_line : Text → ℕ → Text → Words → Run Words
split_line [] i word w = end_word i word w
split_line (c ∷ line) i word w =
    let next = (do
      w' ← end_word i word w
      split_line line (i + 1) (if i == 0 then [] else word) w') in
    let put = split_line line i (word ++ (c ∷ [])) w in
    if c == space then next else if ltb i 2 && ltb (length word) word_size then put else fault

-- The variables of the loop, with the names that `fileinfo` was called for.
pub record Devices : Type 0 where
  pub words : Words
  pub last_dev : Text
  pub calls : List Text

abbrev pub two : Text
two = 50 ∷ []

-- A line of the file.
abbrev pub visit_device : Words → Devices → Devices
visit_device w s =
    if str_eq s.last_dev w.first
    then record s { words = w }
    else if str_eq w.first two
    then record s { words = w }
    else record { words = w; last_dev = w.first; calls = s.calls ++ (w.second ∷ []) }

-- The tool's own copy of the function.
abbrev pub fraginfo_line : Text → Run (Text × Text)
fraginfo_line fd = get_non_empty_line fd

unfoldable pub device_loop : ℕ → Text → Devices → Run Devices
device_loop zero fd s = out_of_fuel
device_loop (suc fuel) fd s = do
  line ← fraginfo_line fd
  let rest = (do w ← split_line line.0 0 [] s.words; device_loop fuel line.1 (visit_device w s))
  if length line.0 == 0 then done s else rest

-- With the file that `list_dev` has written, if it opens, and what the two buffers held before.
unfoldable pub list_devices : Words → ℕ → Option Text → Run (List Text)
list_devices words fuel none = done []
list_devices words fuel (some fd) = do
  s ← device_loop fuel fd (record { words = words; last_dev = []; calls = [] })
  done s.calls
