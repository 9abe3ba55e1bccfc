-- ===== src/Mailbox/Woken/Walks.antt =====
-- Whom `indicate_deadlock` wakes, and that each wake ends a wait.
use cs551os.Prelude.{
  ℕ, zero, suc, ◌+◌, ◌≡◌, refl, sym, ◌∙◌, ap, subst, inl, inr, Option, none, some, List, [], ◌∷◌,
  ◌++◌, ℤ, pos, negsuc, minus_one, eq_int, eq_int_iff, at, get_elem?-set_cases, set, Run, done,
  access, access-eq-done, >>=-eq-done, Bool-cases, arith,
}
use cs551os.Mailbox.State.{Server, SuspendContext, Effect, set_at}
use cs551os.Mailbox.Deadlock.{
  indicate_deadlock, indicate_loop, indicate_node, pass_node, after, wake, stop_waiting, first_wait,
  f_ret_2, f_ret_4,
}
use cs551os.Mailbox.Woken.Counts.{waiting, replies, revivals, stop_waiting-waiting, at-pos}
use cs551os.Mailbox.Woken.{Waits, as_receiver, as_sender, AllWoken}

-- A waiting context of the table at an index.
slot-Waits :
    (s : Server) (id : ℤ) (c : SuspendContext) (n : ℕ)
    → at s.sus_context id ≡ some (some c)
    → first_wait c ≡ done (pos n)
    → Waits s c.sus_end_p
slot-Waits s (pos i) c n here waits = as_sender i c n here waits refl
slot-Waits s (negsuc i) c n here waits = absurd (ground arith)

-- A context in place of another, of a process that has the property if it waits.
pub set_context-Fewer :
    (P : ℕ → Type 0) (s : Server) (id : ℤ) (c : SuspendContext)
    → ((k : ℕ) → Waits s k → P k)
    → ((n : ℕ) → first_wait c ≡ done (pos n) → P c.sus_end_p)
    → (k : ℕ) → Waits (record s { sus_context = set_at s.sus_context id (some c) }) k
    → P k
set_context-Fewer P s id c old new k (as_receiver i m here flag is_k) =
    old k (as_receiver i m here flag is_k)
set_context-Fewer P s (negsuc m) c old new k (as_sender i d n here waits is_k) =
    old k (as_sender i d n here waits is_k)
set_context-Fewer P s (pos m) c old new k (as_sender i d n here waits is_k) =
    elim (get_elem?-set_cases s.sus_context m i (some c) here) [
      | inl fresh ↦
          let is_c : d ≡ c = ground arith in
          subst P (sym (ap (λ x. x.sus_end_p) is_c) ∙ is_k)
            (new n (sym (ap first_wait is_c) ∙ waits))
      | inr there ↦ old k (as_sender i d n there waits is_k)
    ]

module _ (P : ℕ → Type 0) where
  -- Whoever waits has the property.
  abbrev pub AllWait : Server → Type 0
  AllWait s = (k : ℕ) → Waits s k → P k

  -- A walk with `n` waiting senders in front of it: all woken have the property, and each ends one
  -- wait.
  abbrev pub Wakes : ℕ → Run (ℤ × Server × List Effect) → Type 0
  Wakes n run =
      (x : ℤ × Server × List Effect)
      → run ≡ done x
      → AllWoken P x.2 × (waiting x.1.sus_context + replies x.2 ≡ n) × (revivals x.2 ≡ 0)

  stop_waiting-AllWait :
      (s : Server) (cursor : ℤ) (c : SuspendContext) → AllWait s → AllWait (stop_waiting s cursor c)
  unfolding stop_waiting first_wait
  stop_waiting-AllWait s cursor c all =
      set_context-Fewer P s cursor (record c { suspended_for = set c.suspended_for 0 minus_one })
        all (λ n waits. absurd (no_wait c.suspended_for n waits))
    where
      no_wait :
          (ws : List ℤ) (n : ℕ)
          → first_wait (record c { suspended_for = set ws 0 minus_one }) ≡ done (pos n)
          → ⊥
      no_wait [] n e = cc
      no_wait (w ∷ ws) n e = cc

  pass_node-Wakes :
      (c : SuspendContext) (s : Server) (cursor w : ℤ)
      (walk : Server → ℤ → Run (ℤ × Server × List Effect))
      → at s.sus_context cursor ≡ some (some c)
      → first_wait c ≡ done w
      → AllWait s
      → ((s' : Server) (w' : ℤ) → AllWait s' → Wakes (waiting s'.sus_context) (walk s' w'))
      → Wakes (waiting s.sus_context) (pass_node c s cursor w walk)
  unfolding pass_node after wake replies revivals
  pass_node-Wakes c s cursor w walk here waits all ih x h =
      let t = stop_waiting s cursor c in
      let (slot, there, h₁) = >>=-eq-done (access (at t.sus_context w)) _ h in
      let (c', is_c, h₂) = >>=-eq-done (access slot) _ h₁ in
      let (w', first, h₃) = >>=-eq-done (first_wait c') _ h₂ in
      let (y, walked, h₄) = >>=-eq-done (walk t w') _ h₃ in
      let (n, is_n) = at-pos t.sus_context w (access-eq-done (at t.sus_context w) there) in
      let waits_n : first_wait c ≡ done (pos n) = waits ∙ ap done is_n in
      let (woken, ends, none_) = ih t w' (stop_waiting-AllWait s cursor c all) y walked in
      let one = stop_waiting-waiting s cursor c n here waits_n in
      let all_of : x.2 ≡ wake c f_ret_4 ++ y.2 = ground arith in
      let same : x.1 ≡ y.1 = ground arith in
      (
        subst (AllWoken P) (sym all_of)
            (all c.sus_end_p (slot-Waits s cursor c n here waits_n), woken),
        rw (all_of, same) (omega (arith, ends, one)),
        rw all_of none_,
      )

  indicate_node-Wakes :
      (s : Server) (local_id cursor : ℤ) (slot : Option SuspendContext) (m : ℕ)
      (walk : Server → ℤ → Run (ℤ × Server × List Effect))
      → local_id ≡ pos m
      → at s.sus_context cursor ≡ some slot
      → AllWait s
      → ((s' : Server) (w : ℤ) → AllWait s' → Wakes (waiting s'.sus_context) (walk s' w))
      → Wakes (waiting s.sus_context) (indicate_node slot s local_id cursor walk)
  unfolding indicate_node wake replies revivals
  indicate_node-Wakes s local_id cursor none m walk is_m here all ih x h =
      let is_x : (pos 0, s, []) ≡ x = ground arith in
      subst
        (λ y.
          AllWoken P y.2
          × (waiting y.1.sus_context + replies y.2 ≡ waiting s.sus_context)
          × (revivals y.2 ≡ 0))
        is_x (tt, omega arith, refl)
  indicate_node-Wakes s local_id cursor (some c) m walk is_m here all ih x h =
      let (w, first, h₁) = >>=-eq-done (first_wait c) _ h in
      elim (Bool-cases (eq_int w local_id)) [
        | inl found ↦
            let is_w : w ≡ pos m = (eq_int_iff w local_id).0 found ∙ is_m in
            let waits : first_wait c ≡ done (pos m) = first ∙ ap done is_w in
            let one = stop_waiting-waiting s cursor c m here waits in
            let woken : x.2 ≡ wake c f_ret_2 = ground arith in
            let same : x.1 ≡ stop_waiting s cursor c = ground arith in
            (
              subst (AllWoken P) (sym woken)
                  (all c.sus_end_p (slot-Waits s cursor c m here waits), tt),
              rw (woken, same) one,
              rw woken refl,
            )
        | inr on ↦ elim (Bool-cases (eq_int cursor local_id)) [
          | inl start ↦ ih s w all x (rw start at (rw on at h₁))
          | inr past ↦
              pass_node-Wakes c s cursor w walk here first all ih x (rw past at (rw on at h₁))
        ]
      ]

  indicate_loop-Wakes :
      (f : ℕ) (s : Server) (local_id cursor : ℤ) (m : ℕ)
      → local_id ≡ pos m
      → AllWait s
      → Wakes (waiting s.sus_context) (indicate_loop f s local_id cursor)
  unfolding indicate_loop
  indicate_loop-Wakes zero s local_id cursor m is_m all x h = absurd (ground arith)
  indicate_loop-Wakes (suc f) s local_id cursor m is_m all x h =
      let (slot, there, h') = >>=-eq-done (access (at s.sus_context cursor)) _ h in
      indicate_node-Wakes s local_id cursor slot m (λ s' w. indicate_loop f s' local_id w) is_m
        (access-eq-done (at s.sus_context cursor) there) all
        (λ s' w all'. indicate_loop-Wakes f s' local_id w m is_m all') x h'

pub indicate_deadlock-Wakes :
    (P : ℕ → Type 0) (f : ℕ) (s : Server) (local_id : ℤ) (m : ℕ)
    → local_id ≡ pos m
    → AllWait P s
    → Wakes P (waiting s.sus_context) (indicate_deadlock f s local_id)
unfolding indicate_deadlock
indicate_deadlock-Wakes P f s local_id m is_m all x h =
    indicate_loop-Wakes P f s local_id local_id m is_m all x h
