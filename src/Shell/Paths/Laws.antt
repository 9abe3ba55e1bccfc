-- ===== src/Shell/Paths/Laws.antt =====
-- Which names of users have paths.
use cs551os.Prelude.{
  ◌+◌, ◌<◌, ◌≤◌, ◌≡◌, refl, false, ◌++◌, ltb, length, length-append, some, done, fault,
  if◌then◌else◌, lt→ltb, arith,
}
use native.Mathlib.Decide.{dec_lt}
use cs551os.Lines.{Text}
use cs551os.Shell.Assoc.{str_eq}
use cs551os.Shell.Paths.{
  paths, strcpy, strcat, user_paths, root, home_path, slash, profile_name, alias_file_name,
}

strcpy-fits : (s : Text) → length s < 256 → strcpy s ≡ done s
unfolding strcpy
strcpy-fits s short = ground (arith, short)

strcat-fits : (s t : Text) → length s + length t < 256 → strcat s t ≡ done (s ++ t)
unfolding strcat
strcat-fits s t short = strcpy-fits (s ++ t) (omega (arith, length-append s t))

strcat-long : (s t : Text) → 256 ≤ length s + length t → strcat s t ≡ fault
unfolding strcat strcpy
strcat-long s t long = ground (arith, length-append s t)

user_paths-short :
    (username : Text)
    → length username < 242
    → user_paths username
      ≡ done ((home_path ++ username) ++ profile_name, (home_path ++ username) ++ slash)
unfolding user_paths
user_paths-short username short =
    let home = home_path ++ username in
    let size : length home ≡ 6 + length username = length-append home_path username in
    rw
      (
        strcpy-fits home_path (omega arith),
        strcat-fits home_path username (omega arith),
        strcpy-fits home (omega (arith, size)),
        strcat-fits home slash (omega (arith, size)),
        strcat-fits home profile_name (omega (arith, size)),
      )
      refl

user_paths-long : (username : Text) → 242 ≤ length username → user_paths username ≡ fault
unfolding user_paths
user_paths-long username long = elim (dec_lt (length username) 249) [
  | yes short ↦
      let home = home_path ++ username in
      let size : length home ≡ 6 + length username = length-append home_path username in
      rw
        (
          strcpy-fits home_path (omega arith),
          strcat-fits home_path username (omega arith),
          strcpy-fits home (omega (arith, size)),
          strcat-fits home slash (omega (arith, size)),
          strcat-long home profile_name (omega (arith, size)),
        )
        refl
  | no at_least ↦ elim (dec_lt (length username) 250) [
    | yes short ↦
        let home = home_path ++ username in
        let size : length home ≡ 6 + length username = length-append home_path username in
        rw
          (
            strcpy-fits home_path (omega arith),
            strcat-fits home_path username (omega arith),
            strcpy-fits home (omega (arith, size)),
            strcat-long home slash (omega (arith, size)),
          )
          refl
    | no more ↦
        rw (strcpy-fits home_path (omega arith), strcat-long home_path username (omega arith)) refl
  ]
]

-- For a user other than root, the paths are those below /home if the name has at most 241 bytes; a
-- longer name writes behind a buffer.
pub paths_lem :
    (username : Text)
    → str_eq username root ≡ false
    → paths (some username) ≡ (
        if ltb (length username) 242
        then done (record {
          profile_file = (home_path ++ username) ++ profile_name;
          home = (home_path ++ username) ++ slash;
          alias_file = ((home_path ++ username) ++ slash) ++ alias_file_name;
        })
        else fault)
unfolding paths
paths_lem username other = elim (dec_lt (length username) 242) [
  | yes short ↦
      let path = (home_path ++ username) ++ slash in
      let size : length path ≡ 7 + length username =
        omega
          (arith, length-append (home_path ++ username) slash, length-append home_path username) in
      rw
        (
          other,
          lt→ltb (length username) 242 short,
          user_paths-short username short,
          strcpy-fits path (omega (arith, size)),
          strcat-fits path alias_file_name (omega (arith, size)),
        )
        refl
  | no long ↦
      let over : ltb (length username) 242 ≡ false = ground (arith, long) in
      rw (other, over, user_paths-long username (omega arith)) refl
]
