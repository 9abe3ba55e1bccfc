-- ===== src/Tools/Tests.antt =====
-- Command lines and a file of devices.
use cs551os.Prelude.{◌≡◌, refl, List, [], ◌∷◌, some, done, arith, replicate, Finishes}
use cs551os.Lines.{Text}
use cs551os.Lines.Laws.{Line, at_eof}
use cs551os.Tools.Options.{String, fileinfo_main, fraginfo_main, is_option}
use cs551os.Tools.Options.Spec.{any, given, files}
use cs551os.Tools.Options.Fileinfo.{fileinfo_outcome, fileinfo_main_lem}
use cs551os.Tools.Options.Fraginfo.{fraginfo_outcome, fraginfo_main_lem, picks}
use cs551os.Tools.Devices.{Words, list_devices}
use cs551os.Tools.Devices.Laws.{
  Entry, Entries, no_entry, one_entry, file_of, firsts, not_two, list_devices_lem, mounts,
}
use cs551os.Tools.Devices.Finishes.{list_devices-Finishes}

-- "-pb", "a"
abbrev fileinfo_words : List String
fileinfo_words = (45 ∷ 112 ∷ 98 ∷ []) ∷ (97 ∷ []) ∷ []

fileinfo_main_lem_example :
    fileinfo_main fileinfo_words
    ≡ done (
        fileinfo_outcome
          (any is_option fileinfo_words)
          (given 104 fileinfo_words)
          (given 112 fileinfo_words)
          (given 98 fileinfo_words)
          (files fileinfo_words))
unfolding cs551os.Tools.Options.Spec.all_fit
fileinfo_main_lem_example = fileinfo_main_lem fileinfo_words refl

-- "-d", "-e", "a"
abbrev fraginfo_words : List String
fraginfo_words = (45 ∷ 100 ∷ []) ∷ (45 ∷ 101 ∷ []) ∷ (97 ∷ []) ∷ []

fraginfo_main_lem_example :
    fraginfo_main fraginfo_words
    ≡ done (
        fraginfo_outcome
          (given 104 fraginfo_words)
          (given 100 fraginfo_words)
          (given 101 fraginfo_words)
          (picks fraginfo_words)
          (files fraginfo_words))
unfolding cs551os.Tools.Options.Spec.all_fit
fraginfo_main_lem_example = fraginfo_main_lem fraginfo_words refl

-- "x /a", "x /b", "2 /c", "y /d"
abbrev devices : List (Text × Text)
devices =
    (120 ∷ [], 47 ∷ 97 ∷ [])
    ∷ (120 ∷ [], 47 ∷ 98 ∷ [])
    ∷ (50 ∷ [], 47 ∷ 99 ∷ [])
    ∷ (121 ∷ [], 47 ∷ 100 ∷ [])
    ∷ []

abbrev no_words : Words
no_words = record { first = []; second = [] }

devices-Entries : Entries devices
unfolding cs551os.Lines.Laws.has_newline cs551os.Tools.Devices.Laws.has_space
devices-Entries =
    let one : Entry (120 ∷ [], 47 ∷ 97 ∷ []) = record {
      device = refl;
      mount = refl;
      line = record { plain = refl; short = omega arith };
    } in
    let two : Entry (120 ∷ [], 47 ∷ 98 ∷ []) = record {
      device = refl;
      mount = refl;
      line = record { plain = refl; short = omega arith };
    } in
    let three : Entry (50 ∷ [], 47 ∷ 99 ∷ []) = record {
      device = refl;
      mount = refl;
      line = record { plain = refl; short = omega arith };
    } in
    let four : Entry (121 ∷ [], 47 ∷ 100 ∷ []) = record {
      device = refl;
      mount = refl;
      line = record { plain = refl; short = omega arith };
    } in
    one_entry one (one_entry two (one_entry three (one_entry four no_entry)))

list_devices_lem_example :
    list_devices no_words 9 (some (file_of devices []))
    ≡ done (mounts (firsts [] (not_two devices)))
list_devices_lem_example =
    list_devices_lem devices [] [] no_words 9 devices-Entries at_eof (omega arith)

-- A line that does not fit into the buffer.
list_devices-Finishes_example : Finishes (list_devices no_words 300 (some (replicate 280 97)))
list_devices-Finishes_example = list_devices-Finishes no_words 300 (replicate 280 97) (omega arith)
