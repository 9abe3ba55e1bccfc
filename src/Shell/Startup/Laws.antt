-- ===== src/Shell/Startup/Laws.antt =====
-- The lines that the shell executes before its prompt.
use cs551os.Prelude.{
  ℕ, zero, suc, ◌+◌, ◌<◌, ◌≡◌, ◌∙◌, ap, sym, false, List, [], ◌∷◌, ◌++◌, ◌==◌, length, done, arith,
  drop,
}
use mathlib.Core.List.{append_assoc, append-nil}
use cs551os.Lines.{Text, newline, get_non_empty_line}
use cs551os.Lines.Laws.{Line, Ends, at_newline, get_non_empty_line-Line, get_non_empty_line-stop}
use cs551os.Shell.Startup.{Pointer, to_buffer, read_through, startup_loop, startup}

-- Lines that are not empty.
pub data FullLines : List Text → Type 0 where
  no_line : FullLines []
  full_line :
      {l : Text} {ls : List Text} → Line l → 0 < length l → FullLines ls → FullLines (l ∷ ls)

-- A file of these lines, with what is behind them.
unfoldable pub lines_of : List Text → Text → Text
lines_of [] end = end
lines_of (l ∷ ls) end = l ++ (newline ∷ lines_of ls end)

read_full :
    (l : Text) (ls : List Text) (end : Text)
    → Line l
    → get_non_empty_line (l ++ (newline ∷ lines_of ls end)) ≡ done (l, lines_of ls end)
read_full l ls end line =
    get_non_empty_line-Line l (newline ∷ lines_of ls end) (lines_of ls end) line at_newline

module _ (line_at : ℕ → Pointer) (each : (i : ℕ) → line_at i ≡ to_buffer) where
  -- From the aliases on.
  alias_lines :
      (i : ℕ) (ls : List Text) (end rest profile : Text) (parsed : List Text) (fuel full : ℕ)
      → FullLines ls
      → Ends end rest
      → 0 < full
      → length ls + 2 < fuel
      → startup_loop line_at i fuel
          (record { cmd_mode = 1; line_full = full; profile = profile; aliases = lines_of ls end })
          parsed
        ≡ done (parsed ++ ls)
  unfolding startup_loop lines_of read_through
  alias_lines i [] end rest profile parsed zero full no_line ends pos lt = absurd (omega arith)
  alias_lines i [] end rest profile parsed (suc zero) full no_line ends pos lt =
      absurd (omega arith)
  alias_lines i [] end rest profile parsed (suc (suc zero)) full no_line ends pos lt =
      absurd (omega arith)
  alias_lines i [] end rest profile parsed (suc (suc (suc fuel))) full no_line ends pos lt =
      let goes : (full == 0) ≡ false = ground arith in
      rw (each i, goes, get_non_empty_line-stop end rest ends, each (i + 1))
        (ap done (sym (append-nil parsed)))
  alias_lines i (l ∷ ls) end rest profile parsed zero full (full_line line some_bytes lines) ends
        pos lt =
      absurd (omega arith)
  alias_lines i (l ∷ ls) end rest profile parsed (suc fuel) full (full_line line some_bytes lines)
        ends pos lt =
      let goes : (full == 0) ≡ false = ground arith in
      let kept : (length l == 0) ≡ false = ground arith in
      rw (each i, goes, read_full l ls end line, kept)
        (alias_lines (i + 1) ls end rest profile (parsed ++ (l ∷ [])) fuel (length l) lines ends
            some_bytes (omega arith)
          ∙ ap done (append_assoc parsed (l ∷ []) ls))

  -- Behind the profile: the first line of the aliases is overwritten by the second.
  mode_lines :
      (i : ℕ) (ls : List Text) (end rest profile : Text) (parsed : List Text) (fuel : ℕ)
      → FullLines ls
      → Ends end rest
      → length ls + 3 < fuel
      → startup_loop line_at i fuel
          (record { cmd_mode = 0; line_full = 0; profile = profile; aliases = lines_of ls end })
          parsed
        ≡ done (parsed ++ drop 1 ls)
  unfolding startup_loop lines_of read_through
  mode_lines i ls end rest profile parsed zero lines ends lt = absurd (omega arith)
  mode_lines i [] end rest profile parsed (suc zero) no_line ends lt = absurd (omega arith)
  mode_lines i [] end rest profile parsed (suc (suc zero)) no_line ends lt = absurd (omega arith)
  mode_lines i [] end rest profile parsed (suc (suc (suc fuel))) no_line ends lt =
      rw (each i, get_non_empty_line-stop end rest ends, each (i + 1))
        (ap done (sym (append-nil parsed)))
  mode_lines i (l ∷ ls) end rest profile parsed (suc fuel) (full_line line some_bytes lines) ends
        lt =
      rw (each i, read_full l ls end line)
        (alias_lines (i + 1) ls end rest profile parsed fuel (length l) lines ends some_bytes
          (omega arith))

  profile_lines :
      (i : ℕ) (ps ls : List Text) (end rest end' rest' : Text) (parsed : List Text) (fuel full : ℕ)
      → FullLines ps
      → FullLines ls
      → Ends end rest
      → Ends end' rest'
      → 0 < full
      → length ps + length ls + 4 < fuel
      → startup_loop line_at i fuel
          (record {
            cmd_mode = 0;
            line_full = full;
            profile = lines_of ps end;
            aliases = lines_of ls end';
          })
          parsed
        ≡ done (parsed ++ (ps ++ drop 1 ls))
  unfolding startup_loop lines_of read_through
  profile_lines i ps ls end rest end' rest' parsed zero full profile lines ends ends' pos lt =
      absurd (omega arith)
  profile_lines i [] ls end rest end' rest' parsed (suc fuel) full no_line lines ends ends' pos lt =
      let goes : (full == 0) ≡ false = ground arith in
      rw (each i, goes, get_non_empty_line-stop end rest ends)
        (mode_lines (i + 1) ls end' rest' rest parsed fuel lines ends' (omega arith))
  profile_lines i (p ∷ ps) ls end rest end' rest' parsed (suc fuel) full
        (full_line line some_bytes profile) lines ends ends' pos lt =
      let goes : (full == 0) ≡ false = ground arith in
      let kept : (length p == 0) ≡ false = ground arith in
      rw (each i, goes, read_full p ps end line, kept)
        (profile_lines (i + 1) ps ls end rest end' rest' (parsed ++ (p ∷ [])) fuel (length p)
            profile lines ends ends' some_bytes (omega arith)
          ∙ ap done (append_assoc parsed (p ∷ []) (ps ++ drop 1 ls)))

-- If the inner `line`, which the code does not initialise, is in every turn a buffer that may be
-- written: with a profile and a file of aliases that hold lines of less than 256 bytes, up to their
-- end or an empty line, and with enough fuel, the lines that are parsed before the prompt are all
-- those of the profile, and then those of the aliases without the first one.
pub startup_lem :
    (line_at : ℕ → Pointer) (ps ls : List Text) (end rest end' rest' : Text) (fuel : ℕ)
    → ((i : ℕ) → line_at i ≡ to_buffer)
    → FullLines ps
    → FullLines ls
    → Ends end rest
    → Ends end' rest'
    → length ps + length ls + 4 < fuel
    → startup line_at fuel (lines_of ps end) (lines_of ls end') ≡ done (ps ++ drop 1 ls)
unfolding startup
startup_lem line_at ps ls end rest end' rest' fuel each profile lines ends ends' lt =
    profile_lines line_at each 0 ps ls end rest end' rest' [] fuel 1 profile lines ends ends'
      (omega arith) lt
