-- ===== src/Protocol/Events.antt =====
-- Predicates on what went over the wire: one that every packet heard and every frame of an allowed
-- command keeps, is kept by every operation.
use disc_stakka_web.Base.{
  ℕ, zero, suc, ◌+◌, Bool, true, ltb, leb, Option, none, some, ◌≡◌, arith, List, ◌∷◌, all,
}
use disc_stakka_web.Effect.Triple.{Keeps, bind_lem, pure_lem, raise_lem, if_lem, fuel_lem}
use disc_stakka_web.Transport.{Transport}
use disc_stakka_web.Protocol.Packet.{
  Packet, status_word, carries_status, cmd_request_state, ack_ms, poll_ms,
}
use disc_stakka_web.Protocol.Handle.{
  DiscStakka, WireEvent, heard, wrote, Operands, operands, answers, read, write, await_reply,
  command, traced, frame, now_ms, is_byte,
}
use disc_stakka_web.Protocol.Waiting.{observe, poll_state, wait_state}
use disc_stakka_web.Protocol.Stable.{Stable}

-- `I` speaks of the events, the trace callback and what the callbacks work on; `C` are the changes
-- that a progress callback may make.
pub record WireInvariant {J : Type 0} (allowed : ℕ → Operands → Bool) (C : (J → J) → Type 0)
    (I : List WireEvent → Option (ℕ → J → J) → J → Type 0) : Type 0 where
  pub hears :
      (p : Packet) (l : List WireEvent) (t : Option (ℕ → J → J)) (j : J)
      → I l t j
      → I (heard p ∷ l) t j
  pub sends :
      (unit msgid cmd : ℕ) (x : Operands) (l : List WireEvent) (t : Option (ℕ → J → J)) (j : J)
      → allowed cmd x ≡ true
      → all is_byte (frame unit msgid cmd x) ≡ true
      → I l t j
      → I (wrote (frame unit msgid cmd x) ∷ l) t j
  pub observes :
      (st : ℕ) (l : List WireEvent) (t : Option (ℕ → J → J)) (j : J)
      → I l t j
      → I l t (traced t st j)
  pub changes :
      (f : J → J) (l : List WireEvent) (t : Option (ℕ → J → J)) (j : J)
      → C f
      → I l t j
      → I l t (f j)

-- A predicate on the events alone.
pub record EventInvariant (allowed : ℕ → Operands → Bool) (I : List WireEvent → Type 0)
    : Type 0 where
  pub hears : (p : Packet) (l : List WireEvent) → I l → I (heard p ∷ l)
  pub sends :
      (unit msgid cmd : ℕ) (x : Operands) (l : List WireEvent)
      → allowed cmd x ≡ true
      → all is_byte (frame unit msgid cmd x) ≡ true
      → I l
      → I (wrote (frame unit msgid cmd x) ∷ l)

abbrev pub AnyChange : {J : Type 0} → (J → J) → Type 0
AnyChange f = Unit

pub on_events :
    {J : Type 0} {allowed : ℕ → Operands → Bool} {I : List WireEvent → Type 0}
    → EventInvariant allowed I
    → WireInvariant {J = J} allowed AnyChange (λ l _ _. I l)
on_events inv = record {
  hears = λ p l t j h. inv.hears p l h;
  sends = λ u m c x l t j a b h. inv.sends u m c x l a b h;
  observes = λ st l t j h. h;
  changes = λ f l t j c h. h;
}

module _ {W J : Type 0} (T : Transport W) (fuel : ℕ) {allowed : ℕ → Operands → Bool}
    {C : (J → J) → Type 0} (I : List WireEvent → Option (ℕ → J → J) → J → Type 0)
    (inv : WireInvariant allowed C I) where
  abbrev pub On : DiscStakka W J → Type 0
  On s = I s.events s.trace s.caller

  pub read-On : (n : ℕ) → Keeps On (read T n)
  unfolding read
  read-On n = record { holds = λ s p. grind (arith, inv.hears) }

  pub write-On : (m c : ℕ) (x : Operands) → allowed c x ≡ true → Keeps On (write T m c x)
  unfolding write
  write-On m c x h = record {
    holds = λ s p. ground (arith, inv.sends s.unit m c x s.events s.trace s.caller h);
  }

  now_ms-On : Keeps On (now_ms T)
  unfolding now_ms
  now_ms-On = record { holds = λ s p. p }

  await_reply-On : (rounds msgid deadline : ℕ) → Keeps On (await_reply T rounds msgid deadline)
  unfolding await_reply
  await_reply-On zero msgid deadline = fuel_lem (λ s p. p)
  await_reply-On (suc rounds) msgid deadline = bind_lem now_ms-On λ now.
      if_lem (ltb now deadline)
        (λ _. bind_lem (read-On poll_ms) λ reply.
          if_lem (answers msgid reply) (λ _. pure_lem _ (λ s p. p))
            (λ _. await_reply-On rounds msgid deadline))
        (λ _. pure_lem _ (λ s p. p))

  pub command-On :
      (cmd : ℕ) (x : Operands) (timeout : ℕ)
      → allowed cmd x ≡ true
      → Keeps On (command T fuel cmd x timeout)
  unfolding command
  command-On cmd x timeout h = bind_lem (read-On timeout) (elim [
    | none ↦ raise_lem _ (λ s p. p)
    | some p ↦
        bind_lem (write-On _ cmd x h)
          λ _. bind_lem now_ms-On (λ now. await_reply-On fuel _ (now + timeout))
  ])

  observe-On : (mask want : ℕ) (reply : Option Packet) → Keeps On (observe mask want reply)
  unfolding observe
  observe-On mask want none = pure_lem _ (λ s p. p)
  observe-On mask want (some q) =
      if_lem (carries_status q.cmd)
        (λ _. record { holds = λ s p. inv.observes (status_word q) s.events s.trace s.caller p })
        (λ _. pure_lem _ (λ s p. p))

  poll_state-On :
      (rounds mask want deadline : ℕ)
      → allowed cmd_request_state (operands 0 0) ≡ true
      → Keeps On (poll_state T fuel rounds mask want deadline)
  unfolding poll_state
  poll_state-On zero mask want deadline h = fuel_lem (λ s p. p)
  poll_state-On (suc rounds) mask want deadline h =
      bind_lem (command-On cmd_request_state _ ack_ms h) λ reply.
        bind_lem (observe-On mask want reply) λ found. bind_lem now_ms-On λ now.
          if_lem found (λ _. pure_lem _ (λ s p. p))
            (λ _.
              if_lem (leb deadline now) (λ _. pure_lem _ (λ s p. p))
                (λ _. poll_state-On rounds mask want deadline h))

  pub events-Stable : Stable T fuel On allowed C On (λ _. On)
  unfolding wait_state
  events-Stable = record {
    command_keeps = λ cmd x h. command-On cmd x ack_ms h;
    wait_keeps = λ mask want timeout h _.
        bind_lem now_ms-On (λ now. poll_state-On fuel mask want (now + timeout) h);
    calls = λ f s c p. inv.changes f s.events s.trace s.caller c p;
    raises = λ e s p. p;
  }
