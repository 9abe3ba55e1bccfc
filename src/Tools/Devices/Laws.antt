-- ===== src/Tools/Devices/Laws.antt =====
-- The devices that the loop calls `fileinfo` for.
use cs551os.Prelude.{
  ℕ, zero, suc, ◌+◌, ◌<◌, ◌≡◌, ◌∙◌, refl, ap, sym, Bool, true, false, List, [], ◌∷◌, ◌++◌, ◌==◌,
  ltb, length, length-append, if◌then◌else◌, some, done, arith, Bool-cases, inl, inr, if_false,
  lt→ltb, map,
}
use mathlib.Core.List.{append_assoc, append-nil}
use cs551os.Shell.Assoc.{str_eq}
use cs551os.Lines.{Text, newline, get_non_empty_line}
use cs551os.Lines.Laws.{Line, Ends, get_non_empty_line-Line, get_non_empty_line-stop, at_newline}
use cs551os.Tools.Devices.{
  Words, Devices, word_size, end_word, space, split_line, visit_device, device_loop, list_devices,
  two,
}

unfoldable pub has_space : Text → Bool
has_space [] = false
has_space (c ∷ l) = if c == space then true else has_space l

has_space_cons :
    (c : ℕ) (l : Text) → has_space (c ∷ l) ≡ false → ((c == space) ≡ false) × (has_space l ≡ false)
unfolding has_space
has_space_cons c l plain = elim (Bool-cases (c == space)) [
  | inl h ↦ absurd (ground arith)
  | inr h ↦ (h, sym (if_false true (has_space l) h) ∙ plain)
]

-- The bytes of a word.
put_word :
    (l rest str : Text) (i : ℕ) (w : Words)
    → has_space l ≡ false
    → i < 2
    → length str + length l < word_size
    → split_line (l ++ rest) i str w ≡ split_line rest i (str ++ l) w
unfolding split_line
put_word [] rest str i w plain lt short = rw (append-nil str) refl
put_word (c ∷ l) rest str i w plain lt short =
    let (other, plain') = has_space_cons c l plain in
    let room : ltb (length str) word_size ≡ true = lt→ltb (length str) word_size (omega arith) in
    let in_list : ltb i 2 ≡ true = lt→ltb i 2 lt in
    rw (other, in_list, room)
      (put_word l rest (str ++ (c ∷ [])) i w plain' lt
          (omega (arith, short, length-append str (c ∷ [])))
        ∙ ap (λ t. split_line rest i t w) (append_assoc str (c ∷ []) l))

end_second :
    (l : Text) (w : Words) → length l < word_size → end_word 1 l w ≡ done (record w { second = l })
end_second l w short = rw (lt→ltb (length l) word_size short) refl

second_word :
    (mount : Text) (w : Words)
    → has_space mount ≡ false
    → length mount < word_size
    → split_line mount 1 [] w ≡ done (record w { second = mount })
unfolding split_line
second_word mount w plain short =
    ap (λ m. split_line m 1 [] w) (sym (append-nil mount))
    ∙ (put_word mount [] [] 1 w plain (omega arith) (omega (arith, short))
        ∙ end_second mount w short)

-- A line with one space is cut there.
pub split_line_lem :
    (dev mount : Text) (w : Words)
    → has_space dev ≡ false
    → has_space mount ≡ false
    → length dev < word_size
    → length mount < word_size
    → split_line (dev ++ (space ∷ mount)) 0 [] w ≡ done (record { first = dev; second = mount })
unfolding split_line
split_line_lem dev mount w plain plain' short short' =
    put_word dev (space ∷ mount) [] 0 w plain (omega arith) (omega (arith, short))
    ∙ rw (lt→ltb (length dev) word_size short)
        (second_word mount (record w { first = dev }) plain' short')

-- An entry of the file: a device and where it is mounted.
pub record Entry (e : Text × Text) : Type 0 where
  pub device : has_space e.0 ≡ false
  pub mount : has_space e.1 ≡ false
  pub line : Line (e.0 ++ (space ∷ e.1))

abbrev pub line_of : Text × Text → Text
line_of (dev, mount) = dev ++ (space ∷ mount)

pub data Entries : List (Text × Text) → Type 0 where
  no_entry : Entries []
  one_entry : {e : Text × Text} {es : List (Text × Text)} → Entry e → Entries es → Entries (e ∷ es)

-- The file: the lines, and what is behind them.
unfoldable pub file_of : List (Text × Text) → Text → Text
file_of [] end = end
file_of (e ∷ es) end = line_of e ++ (newline ∷ file_of es end)

-- The entries without those of the device "2", and of these the first of each run of one device.
unfoldable pub not_two : List (Text × Text) → List (Text × Text)
not_two [] = []
not_two (e ∷ es) = let rest = not_two es in if str_eq e.0 two then rest else e ∷ rest

unfoldable pub firsts : Text → List (Text × Text) → List (Text × Text)
firsts last [] = []
firsts last (e ∷ es) =
    let rest = firsts e.0 es in if str_eq last e.0 then firsts last es else e ∷ rest

abbrev pub mounts : List (Text × Text) → List Text
mounts es = map (λ e. e.1) es

-- A line for a device.
calls_after :
    (e : Text × Text) (es : List (Text × Text)) (s : Devices)
    → (visit_device (record { first = e.0; second = e.1 }) s).calls
        ++ mounts
            (firsts (visit_device (record { first = e.0; second = e.1 }) s).last_dev (not_two es))
      ≡ s.calls ++ mounts (firsts s.last_dev (not_two (e ∷ es)))
unfolding firsts not_two
calls_after e es s = elim (Bool-cases (str_eq s.last_dev e.0)) [
  | inl same ↦ elim (Bool-cases (str_eq e.0 two)) [
    | inl is_two ↦ rw (same, is_two) refl
    | inr is_other ↦ rw (same, is_other, same) refl
  ]
  | inr new ↦ elim (Bool-cases (str_eq e.0 two)) [
    | inl is_two ↦ rw (new, is_two) refl
    | inr is_other ↦
        rw (new, is_other, new) (append_assoc s.calls (e.1 ∷ []) (mounts (firsts e.0 (not_two es))))
  ]
]

device_loop_from :
    (es : List (Text × Text)) (end fd : Text) (fuel : ℕ) (s : Devices)
    → Entries es
    → Ends end fd
    → length es < fuel
    → (s' : Devices) × (device_loop fuel (file_of es end) s ≡ done s')
      × (s'.calls ≡ s.calls ++ mounts (firsts s.last_dev (not_two es)))
unfolding device_loop file_of firsts not_two
device_loop_from es end fd zero s entries ends lt = absurd (omega arith)
device_loop_from [] end fd (suc fuel) s entries ends lt =
    let read = get_non_empty_line-stop end fd ends in (s, rw read refl, sym (append-nil s.calls))
device_loop_from (e ∷ es) end fd (suc fuel) s (one_entry entry entries) ends lt =
    let read : get_non_empty_line (line_of e ++ (newline ∷ file_of es end))
        ≡ done (line_of e, file_of es end) =
      get_non_empty_line-Line (line_of e) (newline ∷ file_of es end) (file_of es end) entry.line
        at_newline in
    let w : Words = record { first = e.0; second = e.1 } in
    let sizes = length-append e.0 (space ∷ e.1) in
    let cut =
      split_line_lem e.0 e.1 s.words entry.device entry.mount
        (omega (arith, sizes, entry.line.short)) (omega (arith, sizes, entry.line.short)) in
    let full : (length (line_of e) == 0) ≡ false = ground (arith, sizes) in
    let (s', ends', calls) =
      device_loop_from es end fd fuel (visit_device w s) entries ends (omega arith) in
    (s', rw (read, full, cut) ends', calls ∙ calls_after e es s)

-- For a file of lines with one space each, with any end of the file or an empty line behind them,
-- and with more fuel than it has lines, the loop returns, and `fileinfo` was called for the mount
-- point of the first line of each run of lines with one device, where lines of the device "2" do
-- not count.
pub list_devices_lem :
    (es : List (Text × Text)) (end fd : Text) (words : Words) (fuel : ℕ)
    → Entries es
    → Ends end fd
    → length es < fuel
    → list_devices words fuel (some (file_of es end)) ≡ done (mounts (firsts [] (not_two es)))
unfolding list_devices
list_devices_lem es end fd words fuel entries ends lt =
    let (s, e, calls) =
      device_loop_from es end fd fuel (record { words = words; last_dev = []; calls = [] }) entries
        ends lt in
    rw (e, calls) refl
