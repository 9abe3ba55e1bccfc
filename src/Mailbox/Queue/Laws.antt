-- ===== src/Mailbox/Queue/Laws.antt =====
-- What one mailbox does over a sequence of `putMsg` and `getMsg`.
use cs551os.Prelude.{
  ℕ, ◌+◌, ◌-◌, ◌≤◌, ◌<◌, ◌≡◌, refl, ap, true, false, some, List, [], ◌∷◌, ◌++◌, ℤ, pos, minus_one,
  is_neg, leb, if◌then◌else◌, length, length-append, Run, done, access, subst, ◌>>=◌, arith,
}
use native.Mathlib.Decide.{dec_lt}
use mathlib.Core.List.{tail}
use cs551os.Mailbox.State.{MailBox, Mail, Effect, mb_capacity}
use cs551os.Mailbox.Queue.{c_string, unsuspend_rx, put_msg, take_front, get_msg}

-- `m` holds the mails `q`: the counter agrees with them, there is room for them, and a suspended
-- receiver has none.
pub record IsQueue (m : MailBox) (q : List Mail) : Type 0 where
  pub stored : m.queue ≡ some q
  pub counted : m.num_messages ≡ length q
  pub bounded : length q ≤ mb_capacity
  pub idle : m.rx_suspended ≡ true → q ≡ []

-- A client's calls on one mailbox whose receiver is not suspended, and what each returns.
pub data Op : Type 0 where
  put : Mail → Op
  get : Op

abbrev pub Reply : Type 0
Reply = ℤ × List ℕ

-- The code's replies.
pub run : MailBox → List Op → Run (List Reply)
run m [] = done []
run m (put mail ∷ ops) = do
  (r, m', effects) ← put_msg m mail
  rest ← run m' ops
  done ((r, []) ∷ rest)
run m (get ∷ ops) = do (r, text, m') ← get_msg m; rest ← run m' ops; done ((r, text) ∷ rest)

-- A queue of at most `mb_capacity` mails, first in, first out.
pub fifo : List Mail → List Op → Run (List Reply)
fifo q [] = done []
fifo q (put mail ∷ ops) =
    let full = fifo q ops in
    let room = fifo (q ++ (mail ∷ [])) ops in
    if leb mb_capacity (length q)
    then (do rest ← full; done ((minus_one, []) ∷ rest))
    else (do rest ← room; done ((pos 0, []) ∷ rest))
fifo [] (get ∷ ops) = do rest ← fifo [] ops; done ((minus_one, []) ∷ rest)
fifo (mail ∷ q) (get ∷ ops) = do
  text ← c_string mail.bytes
  rest ← fifo q ops
  done ((pos 0, text) ∷ rest)

-- `m` holds the mails `q`, and nobody waits for one.
pub record Holds (m : MailBox) (q : List Mail) : Type 0 where
  pub queue : m.queue ≡ some q
  pub count : m.num_messages ≡ length q
  pub awake : m.rx_suspended ≡ false

abbrev pub stored : MailBox → List Mail → Mail → MailBox
stored m q mail = record m { queue = some (q ++ (mail ∷ [])); num_messages = m.num_messages + 1 }

abbrev pub taken : MailBox → List Mail → MailBox
taken m q = record m { queue = some q; num_messages = m.num_messages - 1 }

module _ {m : MailBox} {q : List Mail} (h : Holds m q) where
  put_msg-full : (mail : Mail) → mb_capacity ≤ length q → put_msg m mail ≡ done (minus_one, m, [])
  unfolding put_msg
  put_msg-full mail le = ground (arith, h.count)

  put_msg-room :
      (mail : Mail) → length q < mb_capacity → put_msg m mail ≡ done (pos 0, stored m q mail, [])
  unfolding put_msg
  put_msg-room mail lt = ground (arith, h.count, h.queue, h.awake)

  stored-Holds : (mail : Mail) → Holds (stored m q mail) (q ++ (mail ∷ []))
  stored-Holds mail = record {
    queue = refl;
    count = omega (arith, length-append {0} q (mail ∷ []), h.count);
    awake = h.awake;
  }

get_msg-nil : {m : MailBox} → Holds m [] → get_msg m ≡ done (minus_one, [], m)
unfolding get_msg
get_msg-nil h = rw h.queue

get_msg-cons :
    {m : MailBox} {mail : Mail} {q : List Mail}
    → Holds m (mail ∷ q)
    → get_msg m ≡ (do text ← c_string mail.bytes; done (pos 0, text, taken m q))
unfolding get_msg take_front
get_msg-cons {m} h = ap (λ o. access o >>= take_front m) h.queue

taken-Holds : {m : MailBox} {mail : Mail} {q : List Mail} → Holds m (mail ∷ q) → Holds (taken m q) q
taken-Holds h = record { queue = refl; count = omega (arith, h.count); awake = h.awake }

-- For a mailbox whose receiver is not suspended, a sequence of `putMsg` and `getMsg` answers as the
-- bounded queue of the mails that it holds, an overread of an unterminated mail included.
pub run_refines : (ops : List Op) {m : MailBox} {q : List Mail} → Holds m q → run m ops ≡ fifo q ops
unfolding run fifo
run_refines [] h = refl
run_refines (put mail ∷ ops) {m} {q} h = elim (dec_lt (length q) mb_capacity) [
  | yes lt ↦ rw (put_msg-room h mail lt, run_refines ops (stored-Holds h mail)) (ground arith)
  | no ge ↦ rw (put_msg-full h mail (omega arith), run_refines ops h) (ground arith)
]
run_refines (get ∷ ops) {q = []} h = rw (get_msg-nil h, run_refines ops h)
run_refines (get ∷ ops) {q = mail ∷ q} h =
    rw (get_msg-cons h) (ground (arith, run_refines ops (taken-Holds h)))

-- Every mail of a list in turn, with all the effects.
pub put_all : MailBox → List Mail → Run (MailBox × List Effect)
put_all m [] = done (m, [])
put_all m (mail ∷ mails) = do
  (r, m', effects) ← put_msg m mail
  (m'', more) ← put_all m' mails
  done (m'', effects ++ more)

pub handed : MailBox → List Mail → List Effect
handed m [] = []
handed m (mail ∷ mails) = unsuspend_rx m mail ++ handed m mails

put_msg-handed :
    {m : MailBox} (mail : Mail)
    → IsQueue m []
    → m.rx_suspended ≡ true
    → put_msg m mail ≡ done (pos 0, m, unsuspend_rx m mail)
unfolding put_msg
put_msg-handed mail ok asleep = ground (arith, ok.counted)

-- In a well-formed mailbox whose receiver is suspended, every later mail is handed to the buffer of
-- that one call: none is queued, the flag `rx_suspended` stays set, and `getMsg` still finds
-- nothing.
pub put_all-suspended :
    (mails : List Mail) {m : MailBox} {q : List Mail}
    → IsQueue m q
    → m.rx_suspended ≡ true
    → (put_all m mails ≡ done (m, handed m mails)) × (get_msg m ≡ done (minus_one, [], m))
unfolding put_all handed get_msg
put_all-suspended [] ok asleep = (refl, rw (ok.stored, ok.idle asleep))
put_all-suspended (mail ∷ mails) {m} ok asleep =
    let (all, nothing) = put_all-suspended mails ok asleep in
    let empty : IsQueue m [] = subst (IsQueue m) (ok.idle asleep) ok in
    (rw (put_msg-handed mail empty asleep, all), nothing)

-- What `putMsg` leaves in the mailbox.
pub after_put : MailBox → List Mail → Mail → List Mail
after_put m q mail =
    if leb mb_capacity m.num_messages then q else if m.rx_suspended then q else q ++ (mail ∷ [])

-- `putMsg` keeps the invariant, and queues the mail behind the others exactly if there is room
-- and no receiver waits.
pub put_msg-IsQueue :
    {m m' : MailBox} {q : List Mail} (mail : Mail) {r : ℤ} {effects : List Effect}
    → IsQueue m q
    → put_msg m mail ≡ done (r, m', effects)
    → IsQueue m' (after_put m q mail)
unfolding put_msg after_put
put_msg-IsQueue {q = q} mail ok e = ground (arith, length-append {0} q (mail ∷ []))

-- `getMsg` takes the oldest mail and keeps the invariant; it answers a negative number on an empty
-- queue only, and changes nothing then.
pub get_msg-IsQueue :
    {m m' : MailBox} {q : List Mail} {r : ℤ} {text : List ℕ}
    → IsQueue m q
    → get_msg m ≡ done (r, text, m')
    → IsQueue m' (tail q) × (is_neg r ≡ true → (m' ≡ m) × (q ≡ []))
unfolding get_msg take_front
get_msg-IsQueue {q = []} ok e = (ground arith, ground arith)
get_msg-IsQueue {q = mail ∷ q} ok e = (ground arith, ground arith)
