-- ===== src/Shell/Paths.antt =====
-- The paths of the profile and of the file of aliases, `main` of prj_1/mrpsh.c.
pub mod Laws
mod Tests
use cs551os.Prelude.{
  ℕ, Bool, not, ◌&&◌, ◌||◌, ◌==◌, List, [], ◌∷◌, ◌++◌, ltb, length, if◌then◌else◌, Option, Run,
  done, fault, access, ◌>>=◌,
}
use cs551os.Lines.{Text}
use cs551os.Shell.Assoc.{str_eq}

-- "root", "/root/PROFILE", "/root/", "/home/", "/", "/PROFILE" and "alias".
abbrev pub root : Text
root = 114 ∷ 111 ∷ 111 ∷ 116 ∷ []

abbrev pub slash : Text
slash = 47 ∷ []

abbrev pub profile_name : Text
profile_name = 47 ∷ 80 ∷ 82 ∷ 79 ∷ 70 ∷ 73 ∷ 76 ∷ 69 ∷ []

abbrev pub root_path : Text
root_path = 47 ∷ 114 ∷ 111 ∷ 111 ∷ 116 ∷ 47 ∷ []

abbrev pub root_profile : Text
root_profile = 47 ∷ 114 ∷ 111 ∷ 111 ∷ 116 ∷ profile_name

abbrev pub home_path : Text
home_path = 47 ∷ 104 ∷ 111 ∷ 109 ∷ 101 ∷ 47 ∷ []

abbrev pub alias_file_name : Text
alias_file_name = 97 ∷ 108 ∷ 105 ∷ 97 ∷ 115 ∷ []

-- `malloc(256)`, and `strcpy` and `strcat` into such a buffer.
abbrev pub path_size : ℕ
path_size = 256

unfoldable pub strcpy : Text → Run Text
strcpy s = if ltb (length s) path_size then done s else fault

unfoldable pub strcat : Text → Text → Run Text
strcat buf s = strcpy (buf ++ s)

-- `profile_file`, `home`, which is a copy of `profile_path`, and `alias_file`.
pub record Paths : Type 0 where
  pub profile_file : Text
  pub home : Text
  pub alias_file : Text

unfoldable pub root_paths : Run (Text × Text)
root_paths = do
  profile_file ← strcpy root_profile
  profile_path ← strcpy root_path
  done (profile_file, profile_path)

unfoldable pub user_paths : Text → Run (Text × Text)
user_paths username = do
  file ← strcpy home_path
  file₁ ← strcat file username
  path ← strcpy file₁
  profile_path ← strcat path slash
  profile_file ← strcat file₁ profile_name
  done (profile_file, profile_path)

-- With what `getenv("USER")` gives: `strcmp` reads through a NULL.
unfoldable pub paths : Option Text → Run Paths
paths user = do
  username ← access user
  (profile_file, profile_path) ← (if str_eq username root then root_paths else user_paths username)
  file ← strcpy profile_path
  alias_file ← strcat file alias_file_name
  done (record { profile_file = profile_file; home = profile_path; alias_file = alias_file })

-- Whether the profile is open in the end: it is there, or it is not there, the user does not answer
-- with n or N, and it can be made.
unfoldable pub profile_opens : (opened no_such_file : Bool) → ℕ → (created : Bool) → Bool
profile_opens opened no_such_file ch created =
    opened || (no_such_file && (not (ch == 110) && not (ch == 78)) && created)
