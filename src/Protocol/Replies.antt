-- ===== src/Protocol/Replies.antt =====
-- What a returned reply says about the wire: which frame it answers, and what the last packet heard
-- reported.
use disc_stakka_web.Base.{
  ℕ, zero, suc, ◌+◌, Bool, true, false, ◌==◌, ltb, leb, Option, none, some, ◌≡◌, refl, arith, List,
  [], subst, ◌∷◌, ◌⊎◌, ◌&&◌, bit_and,
}
use disc_stakka_web.Effect.Triple.{
  Triple, bind_lem, weaken, pure_lem, raise_lem, if_lem, fuel_lem, Any, any_lem,
}
use disc_stakka_web.Transport.{Transport}
use disc_stakka_web.Protocol.Packet.{
  Packet, status_word, is_set, carries_status, cmd_request_state, ack_ms, poll_ms, st_disc_in_bay,
}
use disc_stakka_web.Protocol.Handle.{
  DiscStakka, WireEvent, heard, wrote, Operands, answers, read, write, await_reply, command, frame,
  now_ms,
}
use disc_stakka_web.Protocol.Waiting.{
  observe, satisfies, poll_state, wait_state, require_from, require, status,
}
use disc_stakka_web.Protocol.Moves.{disc_in_bay}

-- The frame carries this message number and this command.
abbrev pub is_request : ℕ → ℕ → List ℕ → Bool
is_request m c (_ ∷ _ ∷ _ ∷ msgid ∷ cmd ∷ _) = msgid == m && cmd == c
is_request m c _ = false

-- A frame with this number and command was written.
abbrev pub Asked : ℕ → ℕ → List WireEvent → Type 0
Asked m c [] = ⊥
Asked m c (heard p ∷ l) = Asked m c l
Asked m c (wrote f ∷ l) = (is_request m c f ≡ true) ⊎ Asked m c l

-- The last event was to hear `p`, and `p` carries the number of a frame of the command `c`.
abbrev pub Reply : ℕ → Packet → List WireEvent → Type 0
Reply c p [] = ⊥
Reply c p (heard q ∷ l) = (q ≡ p) × Asked p.msgid c l
Reply c p (wrote f ∷ l) = ⊥

abbrev pub Answered : ℕ → Option Packet → List WireEvent → Type 0
Answered c none l = Unit
Answered c (some p) l = Reply c p l

-- What `read` returned was just heard, on top of events with `I`.
abbrev Fresh : (List WireEvent → Type 0) → Option Packet → List WireEvent → Type 0
Fresh I none l = I l
Fresh I (some p) [] = ⊥
Fresh I (some p) (heard q ∷ l) = (q ≡ p) × I l
Fresh I (some p) (wrote f ∷ l) = ⊥

Fresh-Asked :
    (m c : ℕ) (r : Option Packet) (l : List WireEvent) → Fresh (Asked m c) r l → Asked m c l
Fresh-Asked m c none l h = h
Fresh-Asked m c (some p) [] h = elim h [ ]
Fresh-Asked m c (some p) (heard q ∷ l) h = h.1
Fresh-Asked m c (some p) (wrote f ∷ l) h = elim h [ ]

Fresh-Answered :
    (m c : ℕ) (r : Option Packet) (l : List WireEvent)
    → answers m r ≡ true
    → Fresh (Asked m c) r l
    → Answered c r l
Fresh-Answered m c none l a h = tt
Fresh-Answered m c (some p) [] a h = elim h [ ]
Fresh-Answered m c (some p) (heard q ∷ l) a h =
    let same : m ≡ p.msgid = ground arith in (h.0, subst (λ k. Asked k c l) same h.1)
Fresh-Answered m c (some p) (wrote f ∷ l) a h = elim h [ ]

-- The last packet heard has this status word, and answers a request of the state.
abbrev pub Reported : ℕ → List WireEvent → Type 0
Reported st [] = ⊥
Reported st (heard q ∷ l) = (status_word q ≡ st) × Asked q.msgid cmd_request_state l
Reported st (wrote f ∷ l) = ⊥

-- The last packet heard answers a request of the state, and has the flag set or not.
abbrev pub FlagReported : ℕ → Bool → List WireEvent → Type 0
FlagReported mask b [] = ⊥
FlagReported mask b (heard q ∷ l) =
    (is_set (status_word q) mask ≡ b) × Asked q.msgid cmd_request_state l
FlagReported mask b (wrote f ∷ l) = ⊥

abbrev pub BayReported : Bool → List WireEvent → Type 0
BayReported = FlagReported st_disc_in_bay

-- The last packet heard answers a request of the state, carries status flags, and has those under
-- the mask as wanted.
abbrev pub Satisfied : ℕ → ℕ → List WireEvent → Type 0
Satisfied mask want [] = ⊥
Satisfied mask want (heard q ∷ l) =
    (carries_status q.cmd ≡ true)
    × (bit_and (status_word q) mask ≡ want)
    × Asked q.msgid cmd_request_state l
Satisfied mask want (wrote f ∷ l) = ⊥

Reply-Reported :
    (p : Packet) (l : List WireEvent) → Reply cmd_request_state p l → Reported (status_word p) l
Reply-Reported p [] h = h
Reply-Reported p (heard q ∷ l) h = rw (h.0) (refl, h.1)
Reply-Reported p (wrote f ∷ l) h = h

pub Reported-Flag :
    (mask st : ℕ) (l : List WireEvent) → Reported st l → FlagReported mask (is_set st mask) l
Reported-Flag mask st [] h = h
Reported-Flag mask st (heard q ∷ l) h = rw (h.0) (refl, h.1)
Reported-Flag mask st (wrote f ∷ l) h = h

Reply-Satisfied :
    (mask want : ℕ) (p : Packet) (l : List WireEvent)
    → carries_status p.cmd ≡ true
    → satisfies mask want p ≡ true
    → Reply cmd_request_state p l
    → Satisfied mask want l
Reply-Satisfied mask want p [] c e h = h
Reply-Satisfied mask want p (heard q ∷ l) c e h = rw (h.0) (c, ground arith, h.1)
Reply-Satisfied mask want p (wrote f ∷ l) c e h = h

module _ {W J : Type 0} (T : Transport W) (fuel : ℕ) where
  read-Fresh :
      (I : List WireEvent → Type 0) (n : ℕ)
      → Triple Any
          (λ (s : DiscStakka W J). I s.events)
          (read T n)
          (λ r s. Fresh I r s.events)
          (λ _. Any)
  unfolding read
  read-Fresh I n = record { holds = λ s p. ground arith }

  write-Asked :
      (m c : ℕ) (x : Operands)
      → Triple {S = DiscStakka W J} Any Any (write T m c x) (λ _ s. Asked m c s.events) (λ _. Any)
  unfolding write frame
  write-Asked m c x = record { holds = λ s p. ground arith }

  now_ms-keeps : (P : DiscStakka W J → Type 0) → Triple Any P (now_ms T) (λ _. P) (λ _. Any)
  unfolding now_ms
  now_ms-keeps P = record { holds = λ s p. p }

  await_reply-Answered :
      (rounds m c deadline : ℕ)
      → Triple Any
          (λ (s : DiscStakka W J). Asked m c s.events)
          (await_reply T rounds m deadline)
          (λ r s. Answered c r s.events)
          (λ _. Any)
  unfolding await_reply
  await_reply-Answered zero m c deadline = fuel_lem (λ s p. tt)
  await_reply-Answered (suc rounds) m c deadline = bind_lem (now_ms-keeps _) λ now.
      if_lem (ltb now deadline)
        (λ _. bind_lem (read-Fresh (Asked m c) poll_ms) λ reply.
          if_lem (answers m reply) (λ a. pure_lem _ (λ s p. Fresh-Answered m c reply s.events a p))
            (λ _.
              weaken (await_reply-Answered rounds m c deadline)
                (λ s p. Fresh-Asked m c reply s.events p) (λ a s p. p) (λ e s p. p)))
        (λ _. pure_lem _ (λ s p. tt))

  -- The reply that `command` returns is the packet heard last, and it carries the message number of
  -- a frame of that command that was written before.
  pub command-Answered :
      (cmd : ℕ) (x : Operands) (timeout : ℕ)
      → Triple {S = DiscStakka W J} Any Any
          (command T fuel cmd x timeout)
          (λ r s. Answered cmd r s.events)
          (λ _. Any)
  unfolding command
  command-Answered cmd x timeout = bind_lem (read-Fresh (λ _. Unit) timeout) (elim [
    | none ↦ raise_lem _ (λ s p. tt)
    | some p ↦
        bind_lem (weaken (write-Asked _ cmd x) (λ s p. tt) (λ a s p. p) (λ e s p. p))
          λ _. bind_lem (now_ms-keeps _) (λ now. await_reply-Answered fuel _ cmd (now + timeout))
  ])

  require_from-Reply :
      (tries left cmd : ℕ) (x : Operands)
      → Triple {S = DiscStakka W J} Any Any
          (require_from T fuel tries left cmd x)
          (λ p s. Reply cmd p s.events)
          (λ _. Any)
  unfolding require_from
  require_from-Reply tries zero cmd x = raise_lem _ (λ s p. tt)
  require_from-Reply tries (suc left) cmd x = bind_lem (command-Answered cmd x ack_ms) (elim [
    | some q ↦ pure_lem q (λ s p. p)
    | none ↦ bind_lem {Q = λ _. Any} any_lem (λ _. require_from-Reply tries left cmd x)
  ])

  require-Reply :
      (cmd : ℕ) (x : Operands)
      → Triple {S = DiscStakka W J} Any Any
          (require T fuel cmd x)
          (λ p s. Reply cmd p s.events)
          (λ _. Any)
  unfolding require
  require-Reply cmd x = require_from-Reply 3 3 cmd x

  pub status-Reported :
      Triple {S = DiscStakka W J} Any Any (status T fuel) (λ st s. Reported st s.events) (λ _. Any)
  unfolding status
  status-Reported =
      bind_lem (require-Reply cmd_request_state _)
        λ p. pure_lem _ (λ s r. Reply-Reported p s.events r)

  -- What `disc_in_bay` returns is what the reply to a request of the state has just reported.
  pub disc_in_bay-BayReported :
      Triple {S = DiscStakka W J} Any Any
        (disc_in_bay T fuel)
        (λ out s. BayReported out s.events)
        (λ _. Any)
  unfolding disc_in_bay
  disc_in_bay-BayReported =
      bind_lem status-Reported λ st. pure_lem _ (λ s r. Reported-Flag st_disc_in_bay st s.events r)

  -- `wait_state` returns `true` only if the last packet heard answers a request of the state with a
  -- reply that carries status flags, and these are as wanted.

  observe-Satisfied :
      (mask want : ℕ) (r : Option Packet)
      → Triple {S = DiscStakka W J} Any
          (λ s. Answered cmd_request_state r s.events)
          (observe mask want r)
          (λ found s. found ≡ true → Satisfied mask want s.events)
          (λ _. Any)
  unfolding observe
  observe-Satisfied mask want none = pure_lem _ (λ s p no. cc)
  observe-Satisfied mask want (some q) =
      if_lem (carries_status q.cmd)
        (λ c. record { holds = λ s p yes'. Reply-Satisfied mask want q s.events c yes' p })
        (λ _. pure_lem _ (λ s p no. cc))

  poll_state-Satisfied :
      (rounds mask want deadline : ℕ)
      → Triple {S = DiscStakka W J} Any Any
          (poll_state T fuel rounds mask want deadline)
          (λ found s. found ≡ true → Satisfied mask want s.events)
          (λ _. Any)
  unfolding poll_state
  poll_state-Satisfied zero mask want deadline = fuel_lem (λ s p. tt)
  poll_state-Satisfied (suc rounds) mask want deadline =
      bind_lem (command-Answered cmd_request_state _ ack_ms) λ reply.
        bind_lem (observe-Satisfied mask want reply) λ found. bind_lem (now_ms-keeps _) λ now.
          if_lem found (λ e. pure_lem _ (λ s p _. p e))
            (λ _.
              if_lem (leb deadline now) (λ _. pure_lem _ (λ s p no. cc))
                (λ _.
                  weaken (poll_state-Satisfied rounds mask want deadline) (λ s p. tt) (λ a s p. p)
                    (λ e s p. p)))

  pub wait_state-Satisfied :
      (mask want timeout : ℕ)
      → Triple {S = DiscStakka W J} Any Any
          (wait_state T fuel mask want timeout)
          (λ found s. found ≡ true → Satisfied mask want s.events)
          (λ _. Any)
  unfolding wait_state
  wait_state-Satisfied mask want timeout =
      bind_lem (now_ms-keeps _) (λ now. poll_state-Satisfied fuel mask want (now + timeout))
