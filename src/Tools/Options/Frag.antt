-- ===== src/Tools/Options/Frag.antt =====
-- prj_3/tool/frag.c.
use cs551os.Prelude.{ℕ, ◌%◌, List, [], ◌∷◌, ltb, length, if◌then◌else◌, Run, done, fault, ◌>>=◌}
use cs551os.Tools.Options.{String, Outcome, fraginfo_call}

-- "/home/raj/cs551os/prj_3/src/sampledata.txt"
abbrev pub sample_fname : String
sample_fname =
    47 ∷ 104 ∷ 111 ∷ 109 ∷ 101 ∷ 47 ∷ 114 ∷ 97 ∷ 106 ∷ 47 ∷ 99 ∷ 115 ∷ 53 ∷ 53 ∷ 49 ∷ 111 ∷ 115 ∷ 47
    ∷ 112 ∷ 114 ∷ 106 ∷ 95 ∷ 51 ∷ 47 ∷ 115 ∷ 114 ∷ 99 ∷ 47 ∷ 115 ∷ 97 ∷ 109 ∷ 112 ∷ 108 ∷ 101 ∷ 100
    ∷ 97 ∷ 116 ∷ 97 ∷ 46 ∷ 116 ∷ 120 ∷ 116 ∷ []

-- The buffer `fname` has 250 bytes.
abbrev pub frag_fname : List String → Run String
frag_fname [] = done sample_fname
frag_fname (p ∷ ps) = if ltb (length p) 250 then done p else fault

-- `mode = argv[2]`, an address as an int: there is no such entry without arguments, and with one
-- argument it is the NULL behind it.
abbrev pub frag_mode : ℕ → List String → Run ℕ
frag_mode address [] = fault
frag_mode address (p ∷ []) = done 0
frag_mode address (p ∷ (q ∷ ps)) = done (address % 4294967296)

-- The arguments behind the name of the program, and the address of the second of them. The test
-- `argc = 2` assigns 2.
unfoldable pub frag_main : ℕ → List String → Run Outcome
frag_main address args = do
  fname ← frag_fname args
  mode ← frag_mode address args
  done (fraginfo_call fname mode)
