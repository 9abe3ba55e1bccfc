-- ===== src/Shell/Paths/Tests.antt =====
-- The paths of root.
use cs551os.Prelude.{◌≡◌, refl, some, ◌++◌, done}
use cs551os.Shell.Paths.{
  paths, strcpy, strcat, root, root_path, root_profile, alias_file_name, root_paths,
}

root_test :
    paths (some root)
    ≡ done (record {
      profile_file = root_profile;
      home = root_path;
      alias_file = root_path ++ alias_file_name;
    })
unfolding paths root_paths strcpy strcat
root_test = refl
