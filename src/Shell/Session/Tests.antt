-- ===== src/Shell/Session/Tests.antt =====
-- A session with the aliases l and p, and the next one.
use cs551os.Prelude.{ℕ, ◌≡◌, refl, false, none, List, [], ◌∷◌, map, drop, done, Gives, Run, arith}
use cs551os.Lines.{Text}
use cs551os.Shell.Assoc.{String, AssocAr, add, get, get_hash, char_sum, init}
use cs551os.Shell.Assoc.Refine.{add_all, setting}
use cs551os.Shell.Alias.Laws.{Simple}
use cs551os.Shell.Turn.{Shell, no_action}
use cs551os.Shell.Startup.{to_buffer}
use cs551os.Shell.Session.{bye, start_shell}
use cs551os.Shell.Session.Entries.{Savable, entries}
use cs551os.Shell.Session.Restart.{start_shell-bye}

abbrev zeros : ℕ → String
zeros i = []

abbrev ls : Text
ls = 108 ∷ 115 ∷ []

abbrev pwd : Text
pwd = 112 ∷ 119 ∷ 100 ∷ []

abbrev two : List (String × String)
two = (108 ∷ [], ls) ∷ ((112 ∷ [], pwd) ∷ [])

abbrev table_of : Run AssocAr → AssocAr
table_of (done ar) = ar
table_of r = init zeros zeros

abbrev last_session : AssocAr
last_session = table_of (add_all (init zeros zeros) two)

last_session_ok : add_all (init zeros zeros) two ≡ done last_session
unfolding add_all add init cs551os.Shell.Assoc.add_main get_hash char_sum
last_session_ok = refl

l-Savable : Savable (108 ∷ []) ls
unfolding cs551os.Shell.Alias.Laws.free_of cs551os.Lines.Laws.has_newline
l-Savable = record {
  first = 108;
  others = [];
  is_key = refl;
  name = record { no_tab = refl; no_quote = refl; no_equals = refl };
  value = record {
    simple = record { no_tab = refl; no_quote = refl; no_equals = refl };
    front = 108 ∷ [];
    last = 115;
    ends = refl;
    no_blank = refl;
  };
  line = record { plain = refl; short = omega arith };
  other = λ e. ground arith;
}

p-Savable : Savable (112 ∷ []) pwd
unfolding cs551os.Shell.Alias.Laws.free_of cs551os.Lines.Laws.has_newline
p-Savable = record {
  first = 112;
  others = [];
  is_key = refl;
  name = record { no_tab = refl; no_quote = refl; no_equals = refl };
  value = record {
    simple = record { no_tab = refl; no_quote = refl; no_equals = refl };
    front = 112 ∷ (119 ∷ []);
    last = 100;
    ends = refl;
    no_blank = refl;
  };
  line = record { plain = refl; short = omega arith };
  other = λ e. ground arith;
}

abbrev new_shell : Shell
new_shell = record { home = []; prompt = 58 ∷ []; aliases = init zeros zeros }

-- Only p is left.
one_left : drop 1 (entries last_session) ≡ (112 ∷ [], pwd) ∷ []
unfolding cs551os.Shell.Session.Entries.entries_from add_all add init cs551os.Shell.Assoc.add_main
    get_hash char_sum
one_left = refl

start_shell-bye_example :
    Gives
      (start_shell (λ i. to_buffer) (λ path. false) (λ i. []) 300 [] (bye last_session) new_shell)
      (λ r.
        ((key : String) → get r.0.aliases key ≡ setting none (drop 1 (entries last_session)) key)
        × (r.0.home ≡ [])
        × (r.0.prompt ≡ 58 ∷ [])
        × (r.1 ≡ map (λ e. no_action) (drop 1 (entries last_session))))
start_shell-bye_example =
    start_shell-bye (λ i. to_buffer) (λ path. false) (λ i. []) zeros zeros zeros zeros two
      last_session new_shell 300 (λ i. refl) (l-Savable, (p-Savable, tt)) last_session_ok refl
      (omega arith)
