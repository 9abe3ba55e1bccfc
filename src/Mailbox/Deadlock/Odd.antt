-- ===== src/Mailbox/Deadlock/Odd.antt =====
-- A circle of an odd number of senders, from three on: `indicate_deadlock` leaves the table.
use cs551os.Prelude.{
  ℕ, zero, suc, ◌+◌, ◌<◌, ◌≡◌, ◌≢◌, ◌∙◌, refl, ap, sym, false, some, List, [], ◌∷◌, ℤ, pos,
  minus_one, eq_int, eq_int_refl, get_elem?, get_elem?-set_ne, get_elem?-set_here, set, length,
  done, fault, access, arith,
}
use cs551os.Mailbox.State.{Server, SuspendContext}
use cs551os.Mailbox.Deadlock.{
  first_wait, check_node, check_loop, check_dead_lock, wake, stop_waiting, after, pass_node,
  indicate_node, indicate_loop, indicate_deadlock, f_ret_4,
}

-- The sender `x` waits, for the mailbox `next` first.
pub record Node (s : Server) (x : ℕ) (next : ℤ) : Type 0 where
  pub context : SuspendContext
  pub here : get_elem? s.sus_context x ≡ some (some context)
  pub waits : first_wait context ≡ done next

-- The senders behind the third, two by two, and the first of them, or `a` behind the last.
abbrev pub next_of : List (ℕ × ℕ) → ℕ → ℤ
next_of [] a = pos a
next_of ((x, y) ∷ ps) a = pos x

abbrev pub Waiting : Server → List (ℕ × ℕ) → ℕ → Type 0
Waiting s [] a = Unit {0}
Waiting s ((x, y) ∷ ps) a = Node s x (pos y) × Node s y (next_of ps a) × Waiting s ps a

-- None of them is `x`.
abbrev pub Apart : ℕ → List (ℕ × ℕ) → Type 0
Apart x [] = Unit {0}
Apart x ((y, z) ∷ ps) = (y ≢ x) × (z ≢ x) × Apart x ps

abbrev pub Distinct : List (ℕ × ℕ) → Type 0
Distinct [] = Unit {0}
Distinct ((x, y) ∷ ps) = (y ≢ x) × Apart x ps × Distinct ps

stop_waiting-Node :
    (s : Server) (x y : ℕ) (next : ℤ) (c : SuspendContext)
    → y ≢ x
    → Node s y next
    → Node (stop_waiting s (pos x) c) y next
unfolding stop_waiting
stop_waiting-Node s x y next c ne n = record {
  context = n.context;
  here = get_elem?-set_ne s.sus_context _ (λ e. ne (sym e)) ∙ n.here;
  waits = n.waits;
}

stop_waiting-Waiting :
    (s : Server) (x a : ℕ) (c : SuspendContext) (ps : List (ℕ × ℕ))
    → Apart x ps
    → Waiting s ps a
    → Waiting (stop_waiting s (pos x) c) ps a
stop_waiting-Waiting s x a c [] apart w = tt
stop_waiting-Waiting s x a c ((y, z) ∷ ps) (ne, ne', apart) (n, n', w) = (
  stop_waiting-Node s x y (pos z) c ne n,
  stop_waiting-Node s x z (next_of ps a) c ne' n',
  stop_waiting-Waiting s x a c ps apart w,
)

first_wait-stopped :
    (c : SuspendContext) (w : ℤ)
    → first_wait c ≡ done w
    → first_wait (record c { suspended_for = set c.suspended_for 0 minus_one }) ≡ done minus_one
unfolding first_wait
first_wait-stopped c w e = first (c.suspended_for) e
  where
    first :
        (l : List ℤ)
        → access (get_elem? l 0) ≡ done w
        → access (get_elem? (set l 0 minus_one) 0) ≡ done minus_one
    first [] h = absurd (ground arith)
    first (v ∷ l) h = refl

-- The sender that was passed waits for -1.
stopped-Node :
    (s : Server) (x : ℕ) (next : ℤ) (n : Node s x next)
    → Node (stop_waiting s (pos x) n.context) x minus_one
unfolding stop_waiting
stopped-Node s x next n = record {
  context = record n.context { suspended_for = set n.context.suspended_for 0 minus_one };
  here = get_elem?-set_here s.sus_context x _ n.here;
  waits = first_wait-stopped n.context next n.waits;
}

eq_int_pos : (x y : ℕ) → x ≢ y → eq_int (pos x) (pos y) ≡ false
eq_int_pos x y ne = ground arith

module _ (f : ℕ) (s : Server) (a : ℕ) where
  round_start :
      (b : ℕ)
      → b ≢ a
      → Node s a (pos b)
      → indicate_loop (suc f) s (pos a) (pos a) ≡ indicate_loop f s (pos a) (pos b)
  unfolding indicate_loop indicate_node
  round_start b ne n = rw (n.here, n.waits, eq_int_pos b a ne, eq_int_refl (pos a)) refl

  round_pass :
      (x y : ℕ) (next : ℤ)
      → x ≢ a
      → y ≢ a
      → y ≢ x
      → (n : Node s x (pos y)) → Node s y next
      → indicate_loop (suc f) s (pos a) (pos x)
        ≡ after
            (wake n.context f_ret_4)
            (indicate_loop f (stop_waiting s (pos x) n.context) (pos a) next)
  unfolding indicate_loop indicate_node pass_node
  round_pass x y next ne ne' ne'' n n' =
      let behind = stop_waiting-Node s x y next n.context ne'' n' in
      rw (n.here, n.waits, eq_int_pos y a ne', eq_int_pos x a ne, behind.here, behind.waits) refl

  round_stopped :
      (b : ℕ) → b ≢ a → Node s b minus_one → indicate_loop (suc f) s (pos a) (pos b) ≡ fault
  unfolding indicate_loop indicate_node pass_node
  round_stopped b ne n = rw (n.here, n.waits, eq_int_pos b a ne) refl

abbrev pub NotThese : ℕ → ℕ → List (ℕ × ℕ) → Type 0
NotThese a b ps = Apart a ps × Apart b ps

-- From the next sender to pass, once `b` was passed: at the end the walk is at `b` again.
walk-fault :
    (fuel : ℕ) (s : Server) (a b : ℕ) (ps : List (ℕ × ℕ))
    → b ≢ a
    → Node s a (pos b)
    → Node s b minus_one
    → Waiting s ps a
    → Distinct ps
    → NotThese a b ps
    → length ps + 1 < fuel
    → indicate_loop fuel s (pos a) (next_of ps a) ≡ fault
unfolding after
walk-fault zero s a b ps ne n m w d apart lt = absurd (omega arith)
walk-fault (suc zero) s a b ps ne n m w d apart lt = absurd (omega arith)
walk-fault (suc (suc f)) s a b [] ne n m w d apart lt =
    round_start (suc f) s a b ne n ∙ round_stopped f s a b ne m
walk-fault (suc (suc f)) s a b ((x, y) ∷ ps) ne n m (here, there, w) (y_x, x_ps, d)
      ((x_a, y_a, a_ps), (x_b, y_b, b_ps)) lt =
    let t = stop_waiting s (pos x) here.context in
    round_pass (suc f) s a x y (next_of ps a) x_a y_a y_x here there
    ∙ ap (after (wake here.context f_ret_4)) (
        walk-fault (suc f) t a b ps ne
          (stop_waiting-Node s x a (pos b) here.context (λ e. x_a (sym e)) n)
          (stop_waiting-Node s x b minus_one here.context (λ e. x_b (sym e)) m)
          (stop_waiting-Waiting s x a here.context ps x_ps w) d (a_ps, b_ps) (omega arith))

-- The circle of `a`, of `b` and `c`, and of the pairs, each waiting for the next.
pub record OddCircle (s : Server) (a b c : ℕ) (ps : List (ℕ × ℕ)) : Type 0 where
  pub first : Node s a (pos b)
  pub others : Waiting s ((b, c) ∷ ps) a
  pub distinct : Distinct ((b, c) ∷ ps)
  pub apart : Apart a ((b, c) ∷ ps)

indicate_deadlock-Odd :
    (fuel : ℕ) (s : Server) (a b c : ℕ) (ps : List (ℕ × ℕ))
    → OddCircle s a b c ps
    → length ps + 3 < fuel
    → indicate_deadlock fuel s (pos a) ≡ fault
unfolding indicate_deadlock after
indicate_deadlock-Odd zero s a b c ps circle lt = absurd (omega arith)
indicate_deadlock-Odd (suc zero) s a b c ps circle lt = absurd (omega arith)
indicate_deadlock-Odd (suc (suc f)) s a b c ps circle lt =
    let (here, there, w) = circle.others in
    let (c_b, b_ps, d) = circle.distinct in
    let (b_a, c_a, a_ps) = circle.apart in
    let t = stop_waiting s (pos b) here.context in
    round_start (suc f) s a b b_a circle.first
    ∙ (round_pass f s a b c (next_of ps a) b_a c_a c_b here there
        ∙ ap (after (wake here.context f_ret_4)) (
            walk-fault f t a b ps b_a
              (stop_waiting-Node s b a (pos b) here.context (λ e. b_a (sym e)) circle.first)
              (stopped-Node s b (pos c) here) (stop_waiting-Waiting s b a here.context ps b_ps w) d
              (a_ps, b_ps) (omega arith)))

-- The check goes once around.
check-Odd :
    (fuel : ℕ) (s : Server) (a : ℕ) (ps : List (ℕ × ℕ)) (x y : ℕ)
    → Waiting s ((x, y) ∷ ps) a
    → Apart a ((x, y) ∷ ps)
    → length ps + length ps + 1 < fuel
    → check_loop fuel s (pos a) (pos x) ≡ done (pos 1)
unfolding check_loop check_node
check-Odd zero s a ps x y w apart lt = absurd (omega arith)
check-Odd (suc zero) s a ps x y w apart lt = absurd (omega arith)
check-Odd (suc (suc f)) s a [] x y (here, there, w) (x_a, y_a, apart) lt =
    rw (here.here, here.waits, eq_int_pos y a y_a, there.here, there.waits, eq_int_refl (pos a))
      refl
check-Odd (suc (suc f)) s a ((x', y') ∷ ps) x y (here, there, w) (x_a, y_a, apart) lt =
    rw (here.here, here.waits, eq_int_pos y a y_a, there.here, there.waits, eq_int_pos x' a apart.0)
      (check-Odd f s a ps x' y' w apart (omega arith))

-- In a circle of an odd number of senders, at least three, that wait for each other, the deadlock
-- is found, and with the same fuel its indication reads outside of `susContext`: the contexts of
-- the senders that it wakes then hold -1, and the walk comes back to the first of them.
pub deadlock-Odd :
    (fuel : ℕ) (s : Server) (a b c : ℕ) (ps : List (ℕ × ℕ))
    → OddCircle s a b c ps
    → length ps + length ps + 3 < fuel
    → (check_dead_lock fuel s (pos a) ≡ done (pos 1)) × (indicate_deadlock fuel s (pos a) ≡ fault)
unfolding check_dead_lock check_loop check_node
deadlock-Odd zero s a b c ps circle lt = absurd (omega arith)
deadlock-Odd (suc f) s a b c ps circle lt = (
  rw (circle.first.here, circle.first.waits, eq_int_pos b a circle.apart.0)
      (check-Odd f s a ps b c circle.others circle.apart (omega arith)),
  indicate_deadlock-Odd (suc f) s a b c ps circle (omega arith),
)
