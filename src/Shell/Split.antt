-- ===== src/Shell/Split.antt =====
-- The words of a command line: `count_spaces` and `split` of prj_1/exe.c.
pub mod Laws
use cs551os.Prelude.{
  ℕ, ◌+◌, Bool, true, false, not, ◌&&◌, List, [], ◌∷◌, ◌++◌, ◌==◌, ltb, length, if◌then◌else◌, Run,
  done, fault,
}
use cs551os.Shell.Assoc.{String}

-- The quote and the space.
abbrev pub quote : ℕ
quote = 34

abbrev pub space : ℕ
space = 32

-- A space outside of quotes.
abbrev pub separates : Bool → ℕ → Bool
separates skip c = not skip && (c == space)

-- The loop of `count_spaces`; `skip` is 1 inside of quotes.
unfoldable pub count_loop : String → Bool → ℕ → ℕ
count_loop [] skip num_spaces = num_spaces
count_loop (c ∷ cs) skip num_spaces =
    let quoted = count_loop cs (not skip) num_spaces in
    let more = count_loop cs skip (num_spaces + 1) in
    let same = count_loop cs skip num_spaces in
    if c == quote then quoted else if separates skip c then more else same

unfoldable pub count_spaces : String → ℕ
count_spaces str = count_loop str false 0

-- The bytes of the buffer `tstr`.
abbrev pub tstr_size : ℕ
tstr_size = 256

-- The word ends: its terminator goes to `tstr[idx]`, and it is the next of the list.
abbrev pub end_word : String → List String → (List String → Run (List String)) → Run (List String)
end_word tstr lines next =
    if ltb (length tstr) tstr_size then next (lines ++ (tstr ∷ [])) else fault

-- A byte goes to `tstr[idx]`.
abbrev pub put_byte : ℕ → String → (String → Run (List String)) → Run (List String)
put_byte c tstr next = if ltb (length tstr) tstr_size then next (tstr ++ (c ∷ [])) else fault

-- The second loop of `split`, with the bytes of the word so far and the words before it. The clause
-- of one byte is `i == len - 1`.
unfoldable pub split_loop : String → Bool → String → List String → Run (List String)
split_loop [] skip tstr lines = done lines
split_loop (c ∷ []) skip tstr lines =
    if c == quote
    then end_word tstr lines (λ l. done l)
    else if separates skip c
    then end_word tstr lines (λ l. done l)
    else put_byte c tstr (λ t. end_word t lines (λ l. done l))
split_loop (c ∷ (d ∷ cs)) skip tstr lines =
    let quoted = split_loop (d ∷ cs) (not skip) tstr lines in
    if c == quote
    then quoted
    else if separates skip c
    then end_word tstr lines (λ l. split_loop (d ∷ cs) skip [] l)
    else put_byte c tstr (λ t. split_loop (d ∷ cs) skip t lines)

unfoldable pub split : String → Run (List String)
split str = split_loop str false [] []
