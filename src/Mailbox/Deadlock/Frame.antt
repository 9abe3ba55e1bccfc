-- ===== src/Mailbox/Deadlock/Frame.antt =====
-- `indicate_deadlock` changes contexts and nothing else of the server.
use cs551os.Prelude.{
  ℕ, zero, suc, ◌≡◌, inl, inr, Option, none, some, List, ℤ, eq_int, at, Run, done, access,
  >>=-eq-done, Bool-cases, arith,
}
use cs551os.Mailbox.State.{Server, SuspendContext, Effect}
use cs551os.Mailbox.Deadlock.{
  first_wait, f_ret_4, wake, stop_waiting, after, pass_node, indicate_node, indicate_loop,
  indicate_deadlock,
}

abbrev Result : Type 0
Result = ℤ × Server × List Effect

-- The mailboxes and the ids of the senders are the same.
abbrev pub SameTables : Server → Server → Type 0
SameTables s s' = (s'.mb_list ≡ s.mb_list) × (s'.sender_db ≡ s.sender_db)

abbrev Keeps : Server → Run Result → Type 0
Keeps s run = (x : Result) → run ≡ done x → SameTables s x.1

after-Keeps :
    (s : Server) (effects : List Effect) (run : Run Result)
    → Keeps s run
    → Keeps s (after effects run)
unfolding after
after-Keeps s effects run k x h =
    let (y, e, h') = >>=-eq-done run _ h in
    let kept : SameTables s y.1 = k y e in (ground arith, ground arith)

pass_node-Keeps :
    (c : SuspendContext) (s : Server) (cursor w : ℤ) (walk : Server → ℤ → Run Result)
    → ((w' : ℤ) → Keeps s (walk (stop_waiting s cursor c) w'))
    → Keeps s (pass_node c s cursor w walk)
unfolding pass_node
pass_node-Keeps c s cursor w walk k x h =
    let (slot, there, h₁) = >>=-eq-done (access (at (stop_waiting s cursor c).sus_context w)) _ h in
    let (c', here, h₂) = >>=-eq-done (access slot) _ h₁ in
    let (w', first, h₃) = >>=-eq-done (first_wait c') _ h₂ in
    after-Keeps s (wake c f_ret_4) (walk (stop_waiting s cursor c) w') (k w') x h₃

indicate_node-Keeps :
    (slot : Option SuspendContext) (s : Server) (local_id cursor : ℤ)
    (walk : Server → ℤ → Run Result)
    → ((s' : Server) (w : ℤ) → Keeps s' (walk s' w))
    → Keeps s (indicate_node slot s local_id cursor walk)
unfolding indicate_node
indicate_node-Keeps none s local_id cursor walk k x h = (ground arith, ground arith)
indicate_node-Keeps (some c) s local_id cursor walk k x h =
    let (w, first, h₁) = >>=-eq-done (first_wait c) _ h in
    elim (Bool-cases (eq_int w local_id)) [
      | inl found ↦ (ground arith, ground arith)
      | inr on ↦ elim (Bool-cases (eq_int cursor local_id)) [
        | inl start ↦ k s w x (rw start at (rw on at h₁))
        | inr past ↦
            pass_node-Keeps c s cursor w walk (k (stop_waiting s cursor c)) x
              (rw past at (rw on at h₁))
      ]
    ]

indicate_loop-Keeps :
    (f : ℕ) (s : Server) (local_id cursor : ℤ) → Keeps s (indicate_loop f s local_id cursor)
unfolding indicate_loop
indicate_loop-Keeps zero s local_id cursor x h = absurd (ground arith)
indicate_loop-Keeps (suc f) s local_id cursor x h =
    let (slot, there, h') = >>=-eq-done (access (at s.sus_context cursor)) _ h in
    indicate_node-Keeps slot s local_id cursor (λ s' w. indicate_loop f s' local_id w)
      (λ s' w. indicate_loop-Keeps f s' local_id w) x h'

pub indicate_deadlock-SameTables :
    (f : ℕ) (s : Server) (local_id : ℤ) (x : Result)
    → indicate_deadlock f s local_id ≡ done x
    → SameTables s x.1
unfolding indicate_deadlock
indicate_deadlock-SameTables f s local_id x h = indicate_loop-Keeps f s local_id local_id x h
