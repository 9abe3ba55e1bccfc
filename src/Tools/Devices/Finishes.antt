-- ===== src/Tools/Devices/Finishes.antt =====
-- The loop over the devices ends on every file.
use cs551os.Prelude.{
  ℕ, zero, suc, ◌+◌, ◌<◌, Finishes, [], ◌∷◌, ◌==◌, length, some, done, arith, ◌>>=◌, done-Finishes,
  fault-Finishes, >>=-Finishes, if-Finishes, ltb, ◌&&◌, if◌then◌else◌, ◌++◌,
}
use cs551os.Lines.{Text, get_non_empty_line}
use cs551os.Lines.Laws.{get_non_empty_line-Finishes, get_non_empty_line-length}
use cs551os.Tools.Devices.{
  Words, Devices, word_size, end_word, space, split_line, visit_device, device_loop, list_devices,
}

end_word-Finishes : (i : ℕ) (word : Text) (w : Words) → Finishes (end_word i word w)
end_word-Finishes zero word w =
    if-Finishes (ltb (length word) word_size) _ _ (λ _. done-Finishes) (λ _. fault-Finishes)
end_word-Finishes (suc zero) word w =
    if-Finishes (ltb (length word) word_size) _ _ (λ _. done-Finishes) (λ _. fault-Finishes)
end_word-Finishes (suc (suc i)) word w = fault-Finishes

split_line-Finishes :
    (line : Text) (i : ℕ) (word : Text) (w : Words) → Finishes (split_line line i word w)
unfolding split_line
split_line-Finishes [] i word w = end_word-Finishes i word w
split_line-Finishes (c ∷ line) i word w =
    if-Finishes (c == space)
      (end_word i word w >>= split_line line (i + 1) (if i == 0 then [] else word)) _
      (λ _.
        >>=-Finishes (end_word i word w) (split_line line (i + 1) (if i == 0 then [] else word))
          (end_word-Finishes i word w)
          (λ w' e. split_line-Finishes line (i + 1) (if i == 0 then [] else word) w'))
      (λ _.
        if-Finishes (ltb i 2 && ltb (length word) word_size)
          (split_line line i (word ++ (c ∷ [])) w) _
          (λ _. split_line-Finishes line i (word ++ (c ∷ [])) w) (λ _. fault-Finishes))

device_loop-Finishes :
    (fuel : ℕ) (fd : Text) (s : Devices) → length fd < fuel → Finishes (device_loop fuel fd s)
unfolding device_loop
device_loop-Finishes zero fd s lt = absurd (omega arith)
device_loop-Finishes (suc fuel) fd s lt =
    >>=-Finishes (get_non_empty_line fd) _ (get_non_empty_line-Finishes fd) (λ line read.
      if-Finishes (length line.0 == 0) (done s)
        (split_line line.0 0 [] s.words >>= (λ w. device_loop fuel line.1 (visit_device w s)))
        (λ _. done-Finishes)
        (λ full.
          >>=-Finishes (split_line line.0 0 [] s.words)
            (λ w. device_loop fuel line.1 (visit_device w s))
            (split_line-Finishes line.0 0 [] s.words)
            (λ w e.
              let used = get_non_empty_line-length fd line.0 line.1 read in
              let some_bytes : 0 < length line.0 = ground arith in
              device_loop-Finishes fuel line.1 (visit_device w s) (omega arith))))

-- With more fuel than the file has bytes, the loop over the devices does not run out of it,
-- whatever the file holds: it returns or faults.
pub list_devices-Finishes :
    (words : Words) (fuel : ℕ) (fd : Text)
    → length fd < fuel
    → Finishes (list_devices words fuel (some fd))
unfolding list_devices
list_devices-Finishes words fuel fd lt =
    let start : Devices = record { words = words; last_dev = []; calls = [] } in
    >>=-Finishes (device_loop fuel fd start) (λ s. done s.calls)
      (device_loop-Finishes fuel fd start lt) (λ s e. done-Finishes)
