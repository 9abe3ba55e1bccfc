-- ===== src/Mailbox/Woken/Loop.antt =====
-- Whom the loop of `do_deposit` wakes.
use cs551os.Prelude.{
  ℕ, zero, suc, ◌≡◌, refl, ◌∙◌, subst, inl, inr, true, Option, none, some, List, [], ◌∷◌, ◌++◌, ℤ,
  pos, negsuc, minus_one, eq_int, if◌then◌else◌, done, >>=-eq-done, Bool-cases, arith,
}
use cs551os.Mailbox.State.{Server, MailBox, Mail, Effect, mailbox, put_mailbox}
use cs551os.Mailbox.Slots.{mailbox-slot}
use cs551os.Mailbox.Queue.{put_msg}
use cs551os.Mailbox.Lookup.{get_mb_id, is_valid_sender}
use cs551os.Mailbox.Deposit.{
  Step, rejected, delivered, blocked, note_suspended, settle, deliver, judge, route, deposit_one,
  LoopEnd, deposit_next, deposit_loop,
}
use cs551os.Mailbox.Woken.Counts.{replies, revivals, replies-append, revivals-append}
use cs551os.Mailbox.Woken.{
  Waits, as_receiver, AllWoken, AllWoken-append, AllWoken-map, Fewer, SameReceiver,
  put_mailbox-Fewer, put_msg-SameReceiver,
}

-- A step wakes waiting receivers only, and lets no further one wait.
abbrev StepOk : Server → Step → Type 0
StepOk s (rejected code) = Unit {0}
StepOk s (delivered s' effects) =
    AllWoken (Waits s) effects
    × Fewer s s'
    × (s'.sus_context ≡ s.sus_context)
    × (replies effects ≡ revivals effects)
StepOk s (blocked s' id) = Fewer s s' × (s'.sus_context ≡ s.sus_context)

note_suspended-SameReceiver :
    (m m' : MailBox) (pid : ℤ) → note_suspended m pid ≡ done m' → SameReceiver m m'
unfolding note_suspended
note_suspended-SameReceiver m m' pid e = record { flag = ground arith; slot = ground arith }

SameReceiver-trans : (a b c : MailBox) → SameReceiver a b → SameReceiver b c → SameReceiver a c
SameReceiver-trans a b c h k = record { flag = k.flag ∙ h.flag; slot = k.slot ∙ h.slot }

receiver-Waits :
    (s : Server) (id : ℤ) (m : MailBox)
    → mailbox s id ≡ done m
    → (k : ℕ) → (m.rx_suspended ≡ true) × (m.sus_end_p ≡ k)
    → Waits s k
receiver-Waits s id m at_id k (flag, is_k) =
    let (i, is_i, there) = mailbox-slot s id at_id in as_receiver i m there flag is_k

deliver-StepOk :
    (s : Server) (id pid : ℤ) (mail : Mail) (step : Step)
    → deliver s id pid mail ≡ done step
    → StepOk s step
unfolding deliver settle
deliver-StepOk s id pid mail step e =
    let (m, at_id, e₁) = >>=-eq-done (mailbox s id) _ e in
    let ((r, m', effects), put, e₂) = >>=-eq-done (put_msg m mail) _ e₁ in
    let (same, woken, even) = put_msg-SameReceiver m m' mail r effects put in
    elim (Bool-cases (eq_int r minus_one)) [
      | inl full ↦
          let (m'', noted, e₃) = >>=-eq-done (note_suspended m' pid) _ (rw full at e₂) in
          let is_step : step ≡ blocked (put_mailbox s id m'') id = ground arith in
          rw is_step (
            put_mailbox-Fewer s id m m'' at_id
                (SameReceiver-trans m m' m'' same (note_suspended-SameReceiver m' m'' pid noted)),
            refl,
          )
      | inr stored ↦
          let is_step : step ≡ delivered (put_mailbox s id m') effects = ground arith in
          rw is_step (
            AllWoken-map _ (Waits s) effects (receiver-Waits s id m at_id) woken,
            put_mailbox-Fewer s id m m' at_id same,
            refl,
            even,
          )
    ]

judge-StepOk :
    (s : Server) (id pid valid : ℤ) (mail : Mail) (step : Step)
    → judge s id pid mail valid ≡ done step
    → StepOk s step
unfolding judge
judge-StepOk s id pid valid mail step e = elim (Bool-cases (eq_int valid (pos 1))) [
  | inl one ↦ deliver-StepOk s id pid mail step (rw one at e)
  | inr other ↦
      let is_step : step ≡ rejected (if eq_int valid minus_one then negsuc 3 else negsuc 4) =
        ground arith in
      rw is_step tt
]

route-StepOk :
    (s : Server) (pid : ℤ) (mail : Mail) (id : ℤ) (step : Step)
    → route s pid mail id ≡ done step
    → StepOk s step
unfolding route
route-StepOk s pid mail (negsuc n) step e =
    let is_step : step ≡ rejected (negsuc 2) = ground arith in rw is_step tt
route-StepOk s pid mail (pos id) step e =
    let (valid, v, e') = >>=-eq-done (is_valid_sender s (pos id) pid) _ e in
    judge-StepOk s (pos id) pid valid mail step e'

deposit_one-StepOk :
    (s : Server) (dest pid : ℤ) (mail : Mail) (step : Step)
    → deposit_one s dest pid mail ≡ done step
    → StepOk s step
unfolding deposit_one
deposit_one-StepOk s dest pid mail step e =
    let (id, found, e') = >>=-eq-done (get_mb_id s dest) _ e in route-StepOk s pid mail id step e'

-- What the loop has done since the server was `s₀`.
abbrev pub Sound : Server → Server → List Effect → Type 0
Sound s₀ s effects =
    AllWoken (Waits s₀) effects
    × Fewer s₀ s
    × (s.sus_context ≡ s₀.sus_context)
    × (replies effects ≡ revivals effects)

Sound-end :
    (s₀ s : Server) (effects : List Effect) (early : Option ℤ) (dests : List ℤ) (e : LoopEnd)
    → Sound s₀ s effects
    → done (record { early = early; server = s; sus_dests = dests; effects = effects }) ≡ done e
    → Sound s₀ e.server e.effects
Sound-end s₀ s effects early dests e sound h =
    let is_e : record { early = early; server = s; sus_dests = dests; effects = effects } ≡ e =
      ground arith in
    subst (λ x. Sound s₀ x.server x.effects) is_e sound

pub deposit_loop-Sound :
    (s₀ : Server) (ds : List ℤ) (pid : ℤ) (mail : Mail) (s : Server) (dests : List ℤ)
    (effects : List Effect) (e : LoopEnd)
    → Sound s₀ s effects
    → deposit_loop ds pid mail s dests effects ≡ done e
    → Sound s₀ e.server e.effects
unfolding deposit_loop deposit_next
deposit_loop-Sound s₀ [] pid mail s dests effects e sound h =
    Sound-end s₀ s effects none dests e sound h
deposit_loop-Sound s₀ (pos zero ∷ ds) pid mail s dests effects e sound h =
    Sound-end s₀ s effects none dests e sound h
deposit_loop-Sound s₀ (negsuc n ∷ ds) pid mail s dests effects e sound h =
    Sound-end s₀ s effects none dests e sound h
deposit_loop-Sound s₀ (pos (suc n) ∷ ds) pid mail s dests effects e (woken, fewer, same, even) h =
    let (step, one, rest) = >>=-eq-done (deposit_one s (pos (suc n)) pid mail) _ h in
    next step (deposit_one-StepOk s (pos (suc n)) pid mail step one)
      (λ s' dests' effects' sound' h'.
        deposit_loop-Sound s₀ ds pid mail s' dests' effects' e sound' h')
      rest
  where
    next :
        (step : Step)
        → StepOk s step
        → ((s' : Server) (dests' : List ℤ) (effects' : List Effect)
            → Sound s₀ s' effects'
            → deposit_loop ds pid mail s' dests' effects' ≡ done e
            → Sound s₀ e.server e.effects)
        → deposit_next step s dests effects (deposit_loop ds pid mail) ≡ done e
        → Sound s₀ e.server e.effects
    next (rejected code) ok ih h' =
        Sound-end s₀ s effects (some code) dests e (woken, fewer, same, even) h'
    next (delivered s' more) (here, fewer', same', even') ih h' =
        ih s' dests (effects ++ more)
          (
            AllWoken-append (Waits s₀) effects more woken
                (AllWoken-map (Waits s) (Waits s₀) more fewer here),
            λ k w. fewer k (fewer' k w),
            same' ∙ same,
            omega (arith, replies-append effects more, revivals-append effects more, even, even'),
          )
          h'
    next (blocked s' id) (fewer', same') ih h' =
        ih s' (dests ++ (id ∷ [])) effects
          (woken, (λ k w. fewer k (fewer' k w)), same' ∙ same, even) h'
