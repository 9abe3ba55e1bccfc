-- ===== src/Mailbox/Deadlock.antt =====
-- `check_dead_lock` and `indicate_deadlock`: the walk along the first mailbox that each suspended
-- sender waits for. A mailbox owner's local id is its mailbox id, so the walk goes from a sender
-- to the owner of the full mailbox. The `while` loops run on fuel.
pub mod Chain
pub mod Frame
pub mod Odd
use cs551os.Prelude.{
  ℕ, zero, suc, ◌++◌, Bool, Option, none, some, List, [], ◌∷◌, ℤ, pos, negsuc, minus_one, eq_int,
  at, get_elem?, set, if◌then◌else◌, Run, done, out_of_fuel, access, ◌>>=◌,
}
use cs551os.Mailbox.State.{Server, SuspendContext, Effect, copy_ints, reply, set_at}

-- `susContext[id]->suspened_for[0]`
unfoldable pub first_wait : SuspendContext → Run ℤ
first_wait c = access (get_elem? c.suspended_for 0)

-- One round's decision, with the rest of the walk at hand.
unfoldable pub check_node : Option SuspendContext → ℤ → (ℤ → Run ℤ) → Run ℤ
unfolding first_wait
check_node none local_id walk = done (pos 0)
check_node (some c) local_id walk = do
  w ← first_wait c
  let rest = walk w
  if eq_int w local_id then done (pos 1) else if eq_int w minus_one then done (pos 0) else rest

unfoldable pub check_loop : ℕ → Server → (local_id cursor : ℤ) → Run ℤ
unfolding check_node
check_loop zero s local_id cursor = out_of_fuel
check_loop (suc f) s local_id cursor = do
  slot ← access (at s.sus_context cursor)
  check_node slot local_id (λ w. check_loop f s local_id w)

unfoldable pub check_dead_lock : ℕ → Server → ℤ → Run ℤ
unfolding check_loop
check_dead_lock fuel s local_id = check_loop fuel s local_id local_id

-- `fRet`: three ints are written, the fourth is indeterminate.
abbrev pub f_ret_2 : List (Option ℤ)
f_ret_2 = some (negsuc 1) ∷ some (negsuc 1) ∷ []

abbrev pub f_ret_4 : List (Option ℤ)
f_ret_4 = some (negsuc 1) ∷ some (negsuc 1) ∷ some (negsuc 1) ∷ none ∷ []

unfoldable pub wake : SuspendContext → List (Option ℤ) → List Effect
wake c ints = copy_ints c.sus_m_source c.sus_p2 ints ∷ reply c.sus_end_p ∷ []

-- `susContext[id]->suspened_for[0] = -1`
unfoldable pub stop_waiting : Server → ℤ → SuspendContext → Server
stop_waiting s id c = record s {
  sus_context =
      set_at s.sus_context id (some (record c { suspended_for = set c.suspended_for 0 minus_one }));
}

unfoldable pub after : List Effect → Run (ℤ × Server × List Effect) → Run (ℤ × Server × List Effect)
after effects run = do (r, s, more) ← run; done (r, s, effects ++ more)

-- A node past the first is woken, and the cursor moves on twice: `cursor = susp_for_temp`, and
-- then `cursor = susContext[cursor]->suspened_for[0]`.
unfoldable pub pass_node :
    SuspendContext
    → Server
    → (cursor w : ℤ) → (Server → ℤ → Run (ℤ × Server × List Effect))
    → Run (ℤ × Server × List Effect)
unfolding first_wait wake stop_waiting after
pass_node c s cursor w walk = do
  slot ← access (at (stop_waiting s cursor c).sus_context w)
  c' ← access slot
  w' ← first_wait c'
  after (wake c f_ret_4) (walk (stop_waiting s cursor c) w')

-- One round.
unfoldable pub indicate_node :
    Option SuspendContext
    → Server
    → (local_id cursor : ℤ) → (Server → ℤ → Run (ℤ × Server × List Effect))
    → Run (ℤ × Server × List Effect)
unfolding first_wait wake stop_waiting pass_node
indicate_node none s local_id cursor walk = done (pos 0, s, [])
indicate_node (some c) s local_id cursor walk = do
  w ← first_wait c
  let onward = walk s w
  if eq_int w local_id
      then done (pos 1, stop_waiting s cursor c, wake c f_ret_2)
      else if eq_int cursor local_id
      then onward
      else pass_node c s cursor w walk

unfoldable pub indicate_loop : ℕ → Server → (local_id cursor : ℤ) → Run (ℤ × Server × List Effect)
unfolding indicate_node
indicate_loop zero s local_id cursor = out_of_fuel
indicate_loop (suc f) s local_id cursor = do
  slot ← access (at s.sus_context cursor)
  indicate_node slot s local_id cursor (λ s' w. indicate_loop f s' local_id w)

unfoldable pub indicate_deadlock : ℕ → Server → ℤ → Run (ℤ × Server × List Effect)
unfolding indicate_loop
indicate_deadlock fuel s local_id = indicate_loop fuel s local_id local_id
