-- ===== src/Shell/Startup.antt =====
-- The turns of the loop of `main` in prj_1/mrpsh.c before the prompt: the lines of the profile and
-- of the file of aliases, in the order in which they go to the parser.
pub mod Laws
use cs551os.Prelude.{
  ℕ, zero, suc, ◌+◌, Bool, true, false, ◌||◌, List, [], ◌∷◌, ◌++◌, ◌==◌, length, if◌then◌else◌, Run,
  done, fault, out_of_fuel, ◌>>=◌,
}
use cs551os.Lines.{Text, get_non_empty_line}

-- `cmd_mode` (0 for the profile, 1 for the aliases, 2 for the prompt), `line_full`, and what is
-- left of the two files.
pub record Startup : Type 0 where
  pub cmd_mode : ℕ
  pub line_full : ℕ
  pub profile : Text
  pub aliases : Text

-- The inner `line` of a turn, which the code does not initialise: NULL, an address that cannot be
-- written, or a buffer of 256 bytes that nothing else uses.
pub data Pointer : Type 0 where
  null_pointer wild_pointer to_buffer : Pointer

-- `line == NULL`
abbrev pub is_null : Pointer → Bool
is_null null_pointer = true
is_null wild_pointer = false
is_null to_buffer = false

-- `get_non_empty_line(fd, &line)`, which writes each byte through `line`, and nothing at the end of
-- the file.
unfoldable pub read_through : Pointer → Text → Run (Text × Text)
read_through to_buffer fd = get_non_empty_line fd
read_through null_pointer [] = done ([], [])
read_through null_pointer (c ∷ fd) = fault
read_through wild_pointer [] = done ([], [])
read_through wild_pointer (c ∷ fd) = fault

abbrev pub first_startup : Text → Text → Startup
first_startup profile aliases = record {
  cmd_mode = 0;
  line_full = 1;
  profile = profile;
  aliases = aliases;
}

-- The end of a file: with the profile's, the first line of the aliases is read at once.
abbrev pub next_mode : Pointer → Startup → Run Startup
next_mode line s = do
  let reads = (do
    l ← read_through line s.aliases
    done (record s { cmd_mode = 1; line_full = length l.0; aliases = l.1 }))
  if s.cmd_mode == 0 then reads else done (record s { cmd_mode = s.cmd_mode + 1 })

-- `line_full = get_non_empty_line(…)`
abbrev pub next_line : Pointer → Startup → Run (Text × Startup)
next_line line s = do
  let of_profile = (do
    l ← read_through line s.profile
    done (l.0, record s { line_full = length l.0; profile = l.1 }))
  let of_aliases = (do
    l ← read_through line s.aliases
    done (l.0, record s { line_full = length l.0; aliases = l.1 }))
  if s.cmd_mode == 0 then of_profile else of_aliases

-- The loop up to the prompt, from the `i`-th turn on, with the lines that were parsed so far, and
-- with what the inner `line` is in each turn.
unfoldable pub startup_loop : (ℕ → Pointer) → ℕ → ℕ → Startup → List Text → Run (List Text)
startup_loop line_at i zero s parsed = out_of_fuel
startup_loop line_at i (suc fuel) s parsed =
    let mode = (do s' ← next_mode (line_at i) s; startup_loop line_at (i + 1) fuel s' parsed) in
    let line = (do
      l ← next_line (line_at i) s
      startup_loop line_at (i + 1) fuel l.1
          (if l.1.line_full == 0 then parsed else parsed ++ (l.0 ∷ []))) in
    if s.cmd_mode == 2
    then done parsed
    else if is_null (line_at i) || s.line_full == 0
    then mode
    else line

unfoldable pub startup : (ℕ → Pointer) → ℕ → Text → Text → Run (List Text)
startup line_at fuel profile aliases =
    startup_loop line_at 0 fuel (first_startup profile aliases) []
