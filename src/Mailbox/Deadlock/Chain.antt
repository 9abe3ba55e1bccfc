-- ===== src/Mailbox/Deadlock/Chain.antt =====
-- What `check_dead_lock` decides: a circle in the graph of who waits for whom.
use cs551os.Prelude.{
  ℕ, zero, suc, ◌≡◌, ◌≢◌, ◌⊎◌, inl, inr, ◌↔◌, Option, none, some, ℤ, pos, minus_one, eq_int, at,
  get_elem?, done, access, >>=-eq-done, access-eq-done, Bool-cases, arith,
}
use cs551os.Mailbox.State.{Server, SuspendContext}
use cs551os.Mailbox.Deadlock.{first_wait, check_node, check_loop, check_dead_lock}

-- The sender with local id `a` has a context, and waits first for `b`.
abbrev pub WaitsFor : Server → ℤ → ℤ → Type 0
WaitsFor s a b =
    (c : SuspendContext) × (at s.sus_context a ≡ some (some c))
    × (get_elem? c.suspended_for 0 ≡ some b)

-- From `a` at most `n` such steps, none of them to -1, lead to `target`.
abbrev pub Chain : ℕ → Server → (target a : ℤ) → Type 0
Chain zero s target a = ⊥
Chain (suc n) s target a =
    (w : ℤ) × WaitsFor s a w × ((w ≡ target) ⊎ ((w ≢ minus_one) × Chain n s target w))

node-Chain :
    (slot : Option SuspendContext) (n : ℕ) (s : Server) (target a : ℤ)
    → at s.sus_context a ≡ some slot
    → ((w : ℤ) → check_loop n s target w ≡ done (pos 1) → Chain n s target w)
    → check_node slot target (check_loop n s target) ≡ done (pos 1)
    → Chain (suc n) s target a
unfolding check_node first_wait
node-Chain none n s target a at_a ih h = absurd (ground arith)
node-Chain (some c) n s target a at_a ih h =
    let (w, first, h₁) = >>=-eq-done (first_wait c) _ h in
    (
      w,
      (c, at_a, access-eq-done (get_elem? c.suspended_for 0) first),
      elim (Bool-cases (eq_int w target)) [
        | inl hit ↦ inl (ground arith)
        | inr on ↦ elim (Bool-cases (eq_int w minus_one)) [
          | inl stop ↦ absurd (ground arith)
          | inr go ↦ inr (ground arith, ih w (rw go at (rw on at h₁)))
        ]
      ],
    )

check_loop-Chain :
    (n : ℕ) (s : Server) (target a : ℤ)
    → check_loop n s target a ≡ done (pos 1)
    → Chain n s target a
unfolding check_loop
check_loop-Chain zero s target a h = absurd (ground arith)
check_loop-Chain (suc n) s target a h =
    let (slot, there, h₁) = >>=-eq-done (access (at s.sus_context a)) _ h in
    node-Chain slot n s target a (access-eq-done (at s.sus_context a) there)
      (λ w. check_loop-Chain n s target w) h₁

Chain-check_loop :
    (n : ℕ) (s : Server) (target a : ℤ)
    → Chain n s target a
    → check_loop n s target a ≡ done (pos 1)
unfolding check_loop
Chain-check_loop zero s target a h = absurd h
Chain-check_loop (suc n) s target a (w, (c, at_a, first), next) =
    rw (at_a, first)
      (elim next [
        | inl hit ↦ ground arith
        | inr (go, more) ↦ ground (arith, Chain-check_loop n s target w more)
      ])

-- `check_dead_lock` answers 1 exactly if at most `fuel` steps along the first mailboxes that the
-- suspended senders wait for lead from the sender back to itself.
pub check_dead_lock_iff :
    (fuel : ℕ) (s : Server) (local_id : ℤ)
    → (check_dead_lock fuel s local_id ≡ done (pos 1)) ↔ Chain fuel s local_id local_id
unfolding check_dead_lock
check_dead_lock_iff fuel s local_id =
    (check_loop-Chain fuel s local_id local_id, Chain-check_loop fuel s local_id local_id)
