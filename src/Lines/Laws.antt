-- ===== src/Lines/Laws.antt =====
-- Reading a file of lines gives these lines.
use cs551os.Prelude.{
  ℕ, suc, ◌+◌, ◌≤◌, ◌<◌, ◌≡◌, ◌∙◌, refl, ap, sym, Bool, true, false, [], ◌∷◌, ◌++◌, ◌==◌, ltb,
  length, length-append, if◌then◌else◌, done, fault, arith, subst, Bool-cases, inl, inr, if_false,
  lt→ltb, IfDone, IfDone-if, Finishes, done-Finishes, fault-Finishes, if-Finishes, tests,
}
use mathlib.Core.List.{append_assoc, append-nil}
use cs551os.Lines.{Text, line_size, newline, read_line, get_non_empty_line}

-- A line has no newline in it, and fits into the buffer with its terminator.
unfoldable pub has_newline : Text → Bool
has_newline [] = false
has_newline (c ∷ l) = if c == newline then true else has_newline l

pub record Line (l : Text) : Type 0 where
  pub plain : has_newline l ≡ false
  pub short : length l < line_size

-- What ends a line: the end of the file, or a newline.
pub data Ends : Text → Text → Type 0 where
  at_eof : Ends [] []
  at_newline : {fd : Text} → Ends (newline ∷ fd) fd

pub plain_cons :
    (c : ℕ) (l : Text)
    → has_newline (c ∷ l) ≡ false
    → ((c == newline) ≡ false) × (has_newline l ≡ false)
unfolding has_newline
plain_cons c l plain = elim (Bool-cases (c == newline)) [
  | inl h ↦ absurd (ground arith)
  | inr h ↦ (h, sym (if_false true (has_newline l) h) ∙ plain)
]

read_line_from :
    (l str end fd : Text)
    → has_newline l ≡ false
    → length str + length l < line_size
    → Ends end fd
    → read_line (l ++ end) str ≡ done (str ++ l, fd)
unfolding read_line has_newline
read_line_from [] str end fd plain short at_eof = rw (append-nil str) refl
read_line_from [] str end fd plain short at_newline = rw (append-nil str) refl
read_line_from (c ∷ l) str end fd plain short ends =
    let (other, plain') = plain_cons c l plain in
    let room : ltb (length str + 1) line_size ≡ true =
      lt→ltb (length str + 1) line_size (omega (arith, short)) in
    rw (other, room)
      (read_line_from l (str ++ (c ∷ [])) end fd plain'
          (omega (arith, short, length-append str (c ∷ []))) ends
        ∙ ap (λ t. done (t, fd)) (append_assoc str (c ∷ []) l))

read_line_long :
    (l str rest : Text)
    → has_newline l ≡ false
    → length str < line_size
    → line_size ≤ length str + length l
    → read_line (l ++ rest) str ≡ fault
unfolding read_line has_newline
read_line_long [] str rest plain lt long = absurd (omega arith)
read_line_long (c ∷ l) str rest plain lt long =
    let (other, plain') = plain_cons c l plain in
    elim (Bool-cases (ltb (length str + 1) line_size)) [
      | inl room ↦
          rw (other, room)
            (read_line_long l (str ++ (c ∷ [])) rest plain'
              (omega (tests, room, length-append str (c ∷ [])))
              (omega (arith, long, length-append str (c ∷ []))))
      | inr full ↦ rw (other, full) refl
    ]

-- A line that ends with a newline or with the file is read.
pub get_non_empty_line-Line :
    (l end fd : Text) → Line l → Ends end fd → get_non_empty_line (l ++ end) ≡ done (l, fd)
unfolding get_non_empty_line
get_non_empty_line-Line l end fd line ends =
    read_line_from l [] end fd line.plain (omega (arith, line.short)) ends

-- A line of 256 bytes or more runs over the end of the buffer.
pub get_non_empty_line-long :
    (l rest : Text)
    → has_newline l ≡ false
    → line_size ≤ length l
    → get_non_empty_line (l ++ rest) ≡ fault
unfolding get_non_empty_line
get_non_empty_line-long l rest plain long =
    read_line_long l [] rest plain (omega arith) (omega (arith, long))

-- The end of the file, or an empty line.
pub get_non_empty_line-stop : (end fd : Text) → Ends end fd → get_non_empty_line end ≡ done ([], fd)
unfolding get_non_empty_line read_line
get_non_empty_line-stop end fd at_eof = refl
get_non_empty_line-stop end fd at_newline = refl

-- What is read is gone from the file.
abbrev Shorter : ℕ → Text × Text → Type 0
Shorter n x = length x.0 + length x.1 ≤ n

read_line-Shorter : (fd str : Text) → IfDone (Shorter (length fd + length str)) (read_line fd str)
unfolding read_line
read_line-Shorter [] str = omega arith
read_line-Shorter (c ∷ fd) str =
    IfDone-if (Shorter (suc (length fd) + length str)) (c == newline) (done (str, fd))
      (if ltb (length str + 1) line_size then read_line fd (str ++ (c ∷ [])) else fault)
      (omega arith)
      (IfDone-if (Shorter (suc (length fd) + length str)) (ltb (length str + 1) line_size)
        (read_line fd (str ++ (c ∷ []))) fault
        (subst (λ n. IfDone (Shorter n) (read_line fd (str ++ (c ∷ []))))
          (omega (arith, length-append str (c ∷ []))) (read_line-Shorter fd (str ++ (c ∷ []))))
        tt)

pub get_non_empty_line-length :
    (fd l rest : Text) → get_non_empty_line fd ≡ done (l, rest) → length l + length rest ≤ length fd
unfolding get_non_empty_line
get_non_empty_line-length fd l rest e =
    let short : length l + length rest ≤ length fd + 0 =
      subst (IfDone (Shorter (length fd + 0))) e (read_line-Shorter fd []) in
    omega arith

read_line-Finishes : (fd str : Text) → Finishes (read_line fd str)
unfolding read_line
read_line-Finishes [] str = done-Finishes
read_line-Finishes (c ∷ fd) str =
    if-Finishes (c == newline) (done (str, fd))
      (if ltb (length str + 1) line_size then read_line fd (str ++ (c ∷ [])) else fault)
      (λ _. done-Finishes)
      (λ _.
        if-Finishes (ltb (length str + 1) line_size) (read_line fd (str ++ (c ∷ []))) fault
          (λ _. read_line-Finishes fd (str ++ (c ∷ []))) (λ _. fault-Finishes))

pub get_non_empty_line-Finishes : (fd : Text) → Finishes (get_non_empty_line fd)
unfolding get_non_empty_line
get_non_empty_line-Finishes fd = read_line-Finishes fd []
