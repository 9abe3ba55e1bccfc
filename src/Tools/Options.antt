-- ===== src/Tools/Options.antt =====
-- The options of prj_3/tool/fileinfo.c and prj_3/tool/fraginfo.c.
pub mod Spec
pub mod Fileinfo
pub mod Fraginfo
pub mod Frag
use cs551os.Prelude.{
  ℕ, ◌+◌, Bool, true, false, not, ◌&&◌, ◌||◌, List, [], ◌∷◌, ◌==◌, ltb, leb, length, if◌then◌else◌,
  Run, done, fault, bit_or,
}

-- A string is the list of its bytes before the terminator.
abbrev pub String : Type 0
String = List ℕ

-- `strchr(p, c) != NULL`
unfoldable pub strchr : String → ℕ → Bool
strchr [] c = false
strchr (a ∷ p) c = a == c || strchr p c

-- `p[0] == '-'`
unfoldable pub is_option : String → Bool
is_option [] = false
is_option (a ∷ p) = a == 45

-- The default file name, "/home/mthakare/test/sample.txt".
abbrev pub default_fname : String
default_fname =
    47 ∷ 104 ∷ 111 ∷ 109 ∷ 101 ∷ 47 ∷ 109 ∷ 116 ∷ 104 ∷ 97 ∷ 107 ∷ 97 ∷ 114 ∷ 101 ∷ 47 ∷ 116 ∷ 101
    ∷ 115 ∷ 116 ∷ 47 ∷ 115 ∷ 97 ∷ 109 ∷ 112 ∷ 108 ∷ 101 ∷ 46 ∷ 116 ∷ 120 ∷ 116 ∷ []

-- `strcpy(p, argv[agcCount])`: the buffers `p` and `fname` have 256 bytes.
abbrev pub fits : String → Bool
fits p = ltb (length p) 256

-- What a tool comes to: `display_help`, a call of `fileinfo` or of `fraginfo` with a mode, or the
-- loop over the devices.
pub data Outcome : Type 0 where
  help : Outcome
  fileinfo_call : String → ℕ → Outcome
  fraginfo_call : String → ℕ → Outcome
  all_devices : Outcome

-- The variables of `main` of fileinfo.c.
pub record Opts : Type 0 where
  pub mode_i : ℕ
  pub got_f_name : Bool
  pub got_opt : Bool
  pub fname : String

abbrev pub first_opts : Opts
first_opts = record { mode_i = 0; got_f_name = false; got_opt = false; fname = default_fname }

-- `if (strchr(p, c) != NULL) mode = mode | bit`
abbrev pub or_if : Bool → ℕ → ℕ → ℕ
or_if c mode bit = if c then bit_or mode bit else mode

abbrev pub take_option : String → Opts → Opts
take_option p o = record o {
  got_opt = true;
  mode_i = or_if (strchr p 98) (or_if (strchr p 112) o.mode_i 1) 2;
}

unfoldable pub fileinfo_args : List String → Opts → Run Outcome
fileinfo_args [] o = done (fileinfo_call o.fname (if o.got_opt then o.mode_i else 3))
fileinfo_args (p ∷ ps) o =
    let option = fileinfo_args ps (take_option p o) in
    let file = fileinfo_args ps (record o { got_f_name = true; fname = p }) in
    if fits p
    then if is_option p
      then if strchr p 104 then done help else option
      else if o.got_f_name
      then done help
      else file
    else fault

unfoldable pub fileinfo_main : List String → Run Outcome
fileinfo_main args = fileinfo_args args first_opts

-- The variables of `main` of fraginfo.c.
pub record FragOpts : Type 0 where
  pub mode_i : ℕ
  pub got_f_name : Bool
  pub frag_selected : Bool
  pub int_ext : Bool
  pub fname : String

abbrev pub first_frag_opts : FragOpts
first_frag_opts = record {
  mode_i = 0;
  got_f_name = false;
  frag_selected = false;
  int_ext = false;
  fname = default_fname;
}

-- Behind the options: internal fragmentation of a file or of all devices, or external.
abbrev pub frag_outcome : FragOpts → Outcome
frag_outcome o =
    if not o.frag_selected || not o.int_ext
    then if o.got_f_name then fileinfo_call o.fname 4 else all_devices
    else fraginfo_call o.fname o.mode_i

-- -i and -e.
abbrev pub select : Bool → Bool → FragOpts → FragOpts
select c ext o = if c then record o { frag_selected = true; int_ext = ext } else o

unfoldable pub fraginfo_args : List String → FragOpts → Run Outcome
fraginfo_args [] o = done (frag_outcome o)
fraginfo_args (p ∷ ps) o =
    let d = record o { mode_i = or_if (strchr p 100) o.mode_i 16 } in
    let i = select (strchr p 105) false d in
    let option = fraginfo_args ps (select (strchr p 101) true i) in
    let file = fraginfo_args ps (record o { got_f_name = true; fname = p }) in
    if fits p
    then if is_option p
      then if strchr p 104
        then done help
        else if strchr p 105 && d.frag_selected
        then done help
        else if strchr p 101 && i.frag_selected
        then done help
        else option
      else if o.got_f_name
      then done help
      else file
    else fault

unfoldable pub fraginfo_main : List String → Run Outcome
fraginfo_main args = fraginfo_args args first_frag_opts
