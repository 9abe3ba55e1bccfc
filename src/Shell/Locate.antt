-- ===== src/Shell/Locate.antt =====
-- Where a conditional has its parts: the loop of `execute` in prj_1/exe.c.
pub mod Laws
use cs551os.Prelude.{ℕ, ◌+◌, ◌-◌, List, [], ◌∷◌, ◌==◌, if◌then◌else◌, ℤ, pos, minus_one}
use cs551os.Shell.Assoc.{String}
use cs551os.Shell.Valid.{Word, if_word, then_word, else_word, fi_word, command, word_of}

-- The locals `then_locn`, `else_locn`, `fi_locn` and `if_cnt`.
pub record Locations : Type 0 where
  pub then_locn : ℤ
  pub else_locn : ℤ
  pub fi_locn : ℤ
  pub if_cnt : ℕ

-- The word at `i`; `next` is the rest of the loop. A "fi" outside of the inner conditionals ends
-- it.
unfoldable pub locate_word : Word → ℕ → Locations → (Locations → Locations) → Locations
locate_word if_word i l next = next (record l { if_cnt = l.if_cnt + 1 })
locate_word then_word i l next = next (if l.if_cnt == 0 then record l { then_locn = pos i } else l)
locate_word else_word i l next = next (if l.if_cnt == 0 then record l { else_locn = pos i } else l)
locate_word fi_word i l next =
    let inner = next (record l { if_cnt = l.if_cnt - 1 }) in
    if l.if_cnt == 0 then record l { fi_locn = pos i } else inner
locate_word command i l next = next l

-- The words from index `i` on.
unfoldable pub locate : List String → ℕ → Locations → Locations
locate [] i l = l
locate (w ∷ ws) i l = locate_word (word_of w) i l (locate ws (i + 1))

abbrev pub no_locations : Locations
no_locations = record {
  then_locn = minus_one;
  else_locn = minus_one;
  fi_locn = minus_one;
  if_cnt = 0;
}
