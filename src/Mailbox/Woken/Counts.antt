-- ===== src/Mailbox/Woken/Counts.antt =====
-- How many senders wait, and how many processes are answered.
use cs551os.Prelude.{
  ℕ, zero, suc, ◌+◌, ◌≤◌, ◌≡◌, refl, Option, none, some, List, [], ◌∷◌, ◌++◌, ℤ, pos, negsuc,
  minus_one, at, get_elem?, set, Run, done, fault, out_of_fuel, arith,
}
use cs551os.Mailbox.State.{
  Server, SuspendContext, Effect, copy_bytes, copy_ints, revive, reply, set_at,
}
use cs551os.Mailbox.Deadlock.{first_wait, stop_waiting}

-- A sender waits while the first of the mailboxes it is suspended for is one.
abbrev pub wait_of : Run ℤ → ℕ
wait_of (done (pos n)) = 1
wait_of (done (negsuc n)) = 0
wait_of fault = 0
wait_of out_of_fuel = 0

abbrev pub context_wait : Option SuspendContext → ℕ
context_wait none = 0
context_wait (some c) = wait_of (first_wait c)

unfoldable pub waiting : List (Option SuspendContext) → ℕ
waiting [] = 0
waiting (c ∷ cs) = context_wait c + waiting cs

-- The processes that are answered, and the receivers among them, which are revived first.
unfoldable pub replies : List Effect → ℕ
replies [] = 0
replies (copy_bytes to address bytes ∷ es) = replies es
replies (copy_ints to address ints ∷ es) = replies es
replies (revive k ∷ es) = replies es
replies (reply k ∷ es) = 1 + replies es

unfoldable pub revivals : List Effect → ℕ
revivals [] = 0
revivals (copy_bytes to address bytes ∷ es) = revivals es
revivals (copy_ints to address ints ∷ es) = revivals es
revivals (revive k ∷ es) = 1 + revivals es
revivals (reply k ∷ es) = revivals es

pub replies-append : (es fs : List Effect) → replies (es ++ fs) ≡ replies es + replies fs
unfolding replies
replies-append [] fs = omega arith
replies-append (copy_bytes to address bytes ∷ es) fs = replies-append es fs
replies-append (copy_ints to address ints ∷ es) fs = replies-append es fs
replies-append (revive k ∷ es) fs = replies-append es fs
replies-append (reply k ∷ es) fs = omega (arith, replies-append es fs)

pub revivals-append : (es fs : List Effect) → revivals (es ++ fs) ≡ revivals es + revivals fs
unfolding revivals
revivals-append [] fs = omega arith
revivals-append (copy_bytes to address bytes ∷ es) fs = revivals-append es fs
revivals-append (copy_ints to address ints ∷ es) fs = revivals-append es fs
revivals-append (revive k ∷ es) fs = omega (arith, revivals-append es fs)
revivals-append (reply k ∷ es) fs = revivals-append es fs

waiting-set :
    (cs : List (Option SuspendContext)) (i : ℕ) (c d : Option SuspendContext)
    → get_elem? cs i ≡ some c
    → waiting (set cs i d) + context_wait c ≡ waiting cs + context_wait d
unfolding waiting
waiting-set [] i c d e = absurd (ground arith)
waiting-set (x ∷ cs) zero c d e = let same : x ≡ c = ground arith in rw same (omega arith)
waiting-set (x ∷ cs) (suc i) c d e = omega (arith, waiting-set cs i c d e)

pub waiting-set_at :
    (cs : List (Option SuspendContext)) (id : ℤ) (c d : Option SuspendContext)
    → at cs id ≡ some c
    → waiting (set_at cs id d) + context_wait c ≡ waiting cs + context_wait d
waiting-set_at cs (pos i) c d e = waiting-set cs i c d e
waiting-set_at cs (negsuc i) c d e = absurd (ground arith)

pub wait_of-le : (r : Run ℤ) → wait_of r ≤ 1
wait_of-le (done (pos n)) = omega arith
wait_of-le (done (negsuc n)) = omega arith
wait_of-le fault = omega arith
wait_of-le out_of_fuel = omega arith

-- A place of the table is not negative.
pub at-pos {ℓ} :
    {A : Type ℓ} (xs : List A) (w : ℤ) {x : A} → at xs w ≡ some x → (n : ℕ) × (w ≡ pos n)
at-pos xs (pos n) e = (n, refl)
at-pos xs (negsuc n) e = absurd cc

stopped-wait :
    (c : SuspendContext)
    → context_wait (some (record c { suspended_for = set c.suspended_for 0 minus_one })) ≡ 0
unfolding first_wait
stopped-wait c = go c.suspended_for
  where
    go : (ws : List ℤ) → context_wait (some (record c { suspended_for = set ws 0 minus_one })) ≡ 0
    go [] = refl
    go (w ∷ ws) = refl

-- One sender less waits.
pub stop_waiting-waiting :
    (s : Server) (id : ℤ) (c : SuspendContext) (n : ℕ)
    → at s.sus_context id ≡ some (some c)
    → first_wait c ≡ done (pos n)
    → waiting (stop_waiting s id c).sus_context + 1 ≡ waiting s.sus_context
unfolding stop_waiting
stop_waiting-waiting s id c n here waits =
    let set_lem =
      waiting-set_at s.sus_context id (some c)
        (some (record c { suspended_for = set c.suspended_for 0 minus_one })) here in
    let one : context_wait (some c) ≡ 1 = rw waits refl in
    omega (arith, set_lem, one, stopped-wait c)
