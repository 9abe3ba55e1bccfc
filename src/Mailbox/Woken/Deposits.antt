-- ===== src/Mailbox/Woken/Deposits.antt =====
-- Whom `do_deposit` wakes.
use cs551os.Prelude.{
  ℕ, ◌+◌, ◌≤◌, ◌≡◌, ap, access-eq-done, refl, sym, subst, inl, inr, ◌⊎◌, Option, none, some, List,
  [], ◌∷◌, ◌++◌, ℤ, pos, eq_int, at, take, done, access, >>=-eq-done, Bool-cases, arith,
}
use cs551os.Mailbox.State.{Server, Mail, Message, SuspendContext, Effect, copy_ints, Outcome}
use cs551os.Mailbox.Lookup.{get_sender_local_id}
use cs551os.Mailbox.Deadlock.{check_dead_lock, indicate_deadlock, first_wait, f_ret_2}
use cs551os.Mailbox.Deposit.{
  deposit_loop, with_context, sus_context_of, answer_deposit, walk_fuel, suspend_sender,
  finish_deposit, do_deposit, max_dest,
}
use cs551os.Mailbox.Woken.Counts.{
  waiting, replies, revivals, replies-append, revivals-append, waiting-set_at, wait_of-le, at-pos,
}
use cs551os.Mailbox.Woken.Walks.{AllWait, set_context-Fewer, indicate_deadlock-Wakes}
use cs551os.Mailbox.Woken.{Waits, AllWoken, AllWoken-append, AllWoken-map}
use cs551os.Mailbox.Woken.Loop.{Sound, deposit_loop-Sound}

-- Whoever waits, or the caller.
abbrev pub WaitsOr : ℕ → Server → ℕ → Type 0
WaitsOr caller s k = Waits s k ⊎ (k ≡ caller)

-- Every process woken has the property, and each answer that revives no receiver is to one of `n`
-- waiting senders that waits no more.
abbrev pub Balanced : (ℕ → Type 0) → ℕ → Outcome → Type 0
Balanced P n o =
    AllWoken P o.effects
    × (waiting o.server.sus_context + replies o.effects ≤ n + revivals o.effects)

answer_deposit-Woken :
    (P : ℕ → Type 0) (m_in : Message) (s : Server) (effects : List Effect) (local_id dead : ℤ)
    (m : ℕ) (o : Outcome)
    → local_id ≡ pos m
    → AllWoken P effects
    → replies effects ≡ revivals effects
    → AllWait P s
    → answer_deposit m_in s effects local_id dead ≡ done o
    → Balanced P (waiting s.sus_context) o
unfolding answer_deposit replies revivals
answer_deposit-Woken P m_in s effects local_id dead m o is_m old even all h =
    elim (Bool-cases (eq_int dead (pos 1))) [
      | inl one ↦
          let (x, walked, h₁) =
            >>=-eq-done (indicate_deadlock walk_fuel s local_id) _ (rw one at h) in
          let last = copy_ints m_in.m_source m_in.p2 f_ret_2 ∷ [] in
          let e : o.effects ≡ effects ++ (x.2 ++ last) = ground arith in
          let same : o.server ≡ x.1 = ground arith in
          let (woken, ends, none_) =
            indicate_deadlock-Wakes P walk_fuel s local_id m is_m all x walked in
          (
            subst (AllWoken P) (sym e)
                (AllWoken-append P effects (x.2 ++ last) old (AllWoken-append P x.2 last woken tt)),
            rw (e, same)
                (omega (
                  arith,
                  ends,
                  none_,
                  even,
                  replies-append effects (x.2 ++ last),
                  revivals-append effects (x.2 ++ last),
                  replies-append x.2 last,
                  revivals-append x.2 last,
                )),
          )
      | inr other ↦
          let e : o.effects ≡ effects = ground arith in
          let same : o.server ≡ s = ground arith in
          (subst (AllWoken P) (sym e) old, rw (e, same) (omega (arith, even)))
    ]

with_context-AllWait :
    (P : ℕ → Type 0) (m_in : Message) (mail : Mail) (dests : List ℤ) (s : Server) (id : ℤ)
    → AllWait P s
    → P m_in.who_p
    → AllWait P (with_context m_in mail dests s id)
unfolding with_context sus_context_of
with_context-AllWait P m_in mail dests s id all caller =
    set_context-Fewer P s id (sus_context_of m_in mail dests) all (λ n waits. caller)

-- The caller's context waits in the place of another one.
with_context-waiting :
    (m_in : Message) (mail : Mail) (dests : List ℤ) (s : Server) (id : ℤ)
    (slot : Option SuspendContext)
    → at s.sus_context id ≡ some slot
    → waiting (with_context m_in mail dests s id).sus_context ≤ waiting s.sus_context + 1
unfolding with_context
with_context-waiting m_in mail dests s id slot here =
    let c = sus_context_of m_in mail dests in
    omega (arith, waiting-set_at s.sus_context id slot (some c) here, wait_of-le (first_wait c))

suspend_sender-Woken :
    (m_in : Message) (mail : Mail) (s₀ s : Server) (dests : List ℤ) (effects : List Effect)
    (o : Outcome)
    → Sound s₀ s effects
    → suspend_sender m_in mail s dests effects ≡ done o
    → Balanced (WaitsOr m_in.who_p s₀) (waiting s₀.sus_context + 1) o
unfolding suspend_sender
suspend_sender-Woken m_in mail s₀ s dests effects o (woken, fewer, same, even) h =
    let P = WaitsOr m_in.who_p s₀ in
    let (id, found, h₁) = >>=-eq-done (get_sender_local_id s m_in.i1) _ h in
    let (slot, there, h₂) = >>=-eq-done (access (at s.sus_context id)) _ h₁ in
    let here = access-eq-done (at s.sus_context id) there in
    let (m, is_m) = at-pos s.sus_context id here in
    let t = with_context m_in mail dests s id in
    let (dead, checked, h₃) = >>=-eq-done (check_dead_lock walk_fuel t id) _ h₂ in
    let (all, balance) =
      answer_deposit-Woken P m_in t effects id dead m o is_m
        (AllWoken-map (Waits s₀) P effects (λ k w. inl w) woken) even
        (with_context-AllWait P m_in mail dests s id (λ k w. inl (fewer k w)) (inr refl)) h₃ in
    let more = with_context-waiting m_in mail dests s id slot here in
    (all, omega (arith, balance, more, ap waiting same))

ended :
    (m_in : Message) (s₀ s : Server) (effects : List Effect) (o : Outcome)
    → Sound s₀ s effects
    → o.effects ≡ effects
    → o.server ≡ s
    → Balanced (WaitsOr m_in.who_p s₀) (waiting s₀.sus_context + 1) o
ended m_in s₀ s effects o (woken, fewer, same, even) e e' = (
  subst (AllWoken (WaitsOr m_in.who_p s₀)) (sym e)
      (AllWoken-map (Waits s₀) (WaitsOr m_in.who_p s₀) effects (λ k w. inl w) woken),
  rw (e, e', same) (omega (arith, even)),
)

finish_deposit-Woken :
    (early : Option ℤ) (dests : List ℤ) (m_in : Message) (mail : Mail) (s₀ s : Server)
    (effects : List Effect) (o : Outcome)
    → Sound s₀ s effects
    → finish_deposit early dests m_in mail s effects ≡ done o
    → Balanced (WaitsOr m_in.who_p s₀) (waiting s₀.sus_context + 1) o
unfolding finish_deposit
finish_deposit-Woken (some code) dests m_in mail s₀ s effects o sound h =
    ended m_in s₀ s effects o sound (ground arith) (ground arith)
finish_deposit-Woken none [] m_in mail s₀ s effects o sound h =
    ended m_in s₀ s effects o sound (ground arith) (ground arith)
finish_deposit-Woken none (d ∷ ds) m_in mail s₀ s effects o sound h =
    suspend_sender-Woken m_in mail s₀ s (d ∷ ds) effects o sound h

-- A call of `do_deposit` that returns has revived or answered only processes that the server holds
-- for suspended, as the receiver of a mailbox or as a sender that waits for one, and the caller
-- itself; and every answer to a sender ends a wait: the contexts that wait behind the call, and the
-- answers that revive no receiver, are together no more than the contexts that waited in front of
-- it, and one for the caller.
pub do_deposit-AllWoken :
    (dest : List ℤ) (text : List ℕ) (m_in : Message) (s : Server) (o : Outcome)
    → do_deposit dest text m_in s ≡ done o
    → AllWoken (WaitsOr m_in.who_p s) o.effects
      × (waiting o.server.sus_context + replies o.effects
          ≤ waiting s.sus_context + 1 + revivals o.effects)
unfolding do_deposit replies revivals
do_deposit-AllWoken dest text m_in s o h =
    let mail : Mail = record { bytes = text; sender_id = m_in.i1 } in
    let (e, loop, h') = >>=-eq-done (deposit_loop (take max_dest dest) m_in.i1 mail s [] []) _ h in
    finish_deposit-Woken e.early e.sus_dests m_in mail s e.server e.effects o
      (deposit_loop-Sound s (take max_dest dest) m_in.i1 mail s [] [] e (tt, (λ k w. w), refl, refl)
        loop)
      h'
