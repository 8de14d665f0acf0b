-- ===== src/Protocol/Halting.antt =====
-- With a clock that ticks, and more fuel than the longest time limit in milliseconds, every loop of
-- the protocol ends by its own test.
use disc_stakka_web.Base.{
  ℕ, zero, suc, ◌+◌, ◌≤◌, ◌<◌, Bool, true, false, ltb, leb, if◌then◌else◌, Option, none, some, ◌≡◌,
  refl, arith,
}
use disc_stakka_web.Effect.{M, ◌>>=◌, pure}
use disc_stakka_web.Effect.Triple.{
  Triple, bind_lem, weaken, pure_lem, raise_lem, if_lem, gets_lem, known_lem,
}
use disc_stakka_web.Transport.{Transport, IsTicking}
use disc_stakka_web.Protocol.Packet.{Packet, carries_status, cmd_request_state, ack_ms, poll_ms}
use disc_stakka_web.Protocol.Handle.{
  DiscStakka, Operands, operands, Call, answers, read, write, await_reply, command, frame, now_ms,
}
use disc_stakka_web.Protocol.Waiting.{observe, poll_state, wait_state}
use disc_stakka_web.Protocol.Stable.{Stable}

module _ {W J : Type 0} (T : Transport W) (tick : IsTicking T) where
  -- The clock has reached `t`.
  abbrev pub Since : ℕ → DiscStakka W J → Type 0
  Since t s = t ≤ T.now_ms s.io

  abbrev pub Never : DiscStakka W J → Type 0
  Never s = ⊥

  pub read-Ends :
      (n t : ℕ)
      → 0 < n
      → Triple {S = DiscStakka W J} Never (Since t) (read T n) (λ _. Since (t + 1)) (λ _. Since t)
  unfolding read
  read-Ends n t h = record {
    holds = λ s p. ground (
      arith,
      tick.read_later 64 n s.io,
      tick.read_waits 64 n s.io h,
      tick.close_later (T.read 64 n s.io).1,
    );
  }

  pub write-Ends :
      (m c : ℕ) (x : Operands) (t : ℕ)
      → Triple {S = DiscStakka W J} Never (Since t) (write T m c x) (λ _. Since t) (λ _. Since t)
  unfolding write
  write-Ends m c x t = record {
    holds = λ s p. ground (
      arith,
      tick.write_later (frame s.unit m c x) s.io,
      tick.close_later (T.write (frame s.unit m c x) s.io).1,
    );
  }

  abbrev Ends : {A : Type 0} → ℕ → M (DiscStakka W J) A → Type 0
  Ends t m = Triple Never (Since t) m (λ _. Since t) (λ _. Since t)

  pub now_ms-Ends :
      (t : ℕ)
      → Triple {S = DiscStakka W J} Never
          (Since t)
          (now_ms T)
          (λ n s. (n ≡ T.now_ms s.io) × Since t s)
          (λ _. Since t)
  unfolding now_ms
  now_ms-Ends t = gets_lem _ (λ s p. (refl, p))

  -- A round that begins before the deadline moves the clock on.
  await_reply-Ends :
      (k msgid deadline t : ℕ) → deadline ≤ t + k → Ends t (await_reply T (suc k) msgid deadline)
  unfolding await_reply
  await_reply-Ends zero msgid deadline t h = record {
    holds = λ s p. ground (arith, (now_ms-Ends t).holds s p);
  }
  await_reply-Ends (suc k) msgid deadline t h = bind_lem (now_ms-Ends t) λ now.
      if_lem (ltb now deadline)
        (λ early.
          bind_lem
            (weaken (read-Ends poll_ms t (omega arith)) (λ s p. p.1) (λ a s p. p) (λ e s p. p))
            λ reply.
              if_lem (answers msgid reply) (λ _. pure_lem _ (λ s p. omega arith))
                (λ _.
                  weaken (await_reply-Ends k msgid deadline (t + 1) (omega arith)) (λ s p. p)
                    (λ a s p. omega arith) (λ e s p. omega arith)))
        (λ late. pure_lem _ (λ s p. p.1))

  pub command-ticks :
      (k cmd : ℕ) (x : Operands) (timeout t : ℕ)
      → 0 < timeout
      → timeout ≤ k
      → Triple {S = DiscStakka W J} Never
          (Since t)
          (command T (suc k) cmd x timeout)
          (λ _. Since (t + 1))
          (λ _. Since t)
  unfolding command
  command-ticks k cmd x timeout t pos fuel = bind_lem (read-Ends timeout t pos) (elim [
    | none ↦ raise_lem _ (λ s p. omega arith)
    | some p ↦
        bind_lem
          (weaken (write-Ends _ cmd x (t + 1)) (λ s p. p) (λ a s p. p) (λ e s p. omega arith))
          λ _.
            bind_lem (weaken (now_ms-Ends (t + 1)) (λ s p. p) (λ a s p. p) (λ e s p. omega arith))
              λ now.
                known_lem (t + 1 ≤ now) (λ s p. omega arith)
                  λ later.
                    weaken (await_reply-Ends k _ (now + timeout) now (omega arith))
                      (λ s p. omega arith) (λ a s p. omega arith) (λ e s p. omega arith)
  ])

  observe-Ends : (mask want : ℕ) (reply : Option Packet) (t : ℕ) → Ends t (observe mask want reply)
  unfolding observe
  observe-Ends mask want none t = pure_lem _ (λ s p. p)
  observe-Ends mask want (some q) t =
      if_lem (carries_status q.cmd) (λ _. record { holds = λ s p. p }) (λ _. pure_lem _ (λ s p. p))

  -- A round of `poll_state`, from what is known of the rounds that follow it.
  poll_round-Ends :
      (k mask want deadline t : ℕ) (rest : Call W J Bool)
      → ack_ms ≤ k
      → ((now : ℕ)
          → leb deadline now ≡ false
          → t + 1 ≤ now
          → Triple Never (Since (t + 1)) rest (λ _. Since t) (λ _. Since t))
      → Ends t (
          command T (suc k) cmd_request_state (operands 0 0) ack_ms >>= λ reply.
          observe mask want reply >>= λ found. now_ms T >>= λ now.
          if found then pure true else (if leb deadline now then pure false else rest))
  poll_round-Ends k mask want deadline t rest fuel again =
      bind_lem (command-ticks k _ _ ack_ms t (omega arith) fuel) λ reply.
        bind_lem
          (weaken (observe-Ends mask want reply (t + 1)) (λ s p. p) (λ a s p. p)
            (λ e s p. omega arith))
          λ found.
            bind_lem (weaken (now_ms-Ends (t + 1)) (λ s p. p) (λ a s p. p) (λ e s p. omega arith))
              λ now.
                if_lem found (λ _. pure_lem _ (λ s p. omega arith))
                  (λ _.
                    if_lem (leb deadline now) (λ _. pure_lem _ (λ s p. omega arith))
                      (λ before.
                        known_lem (t + 1 ≤ now) (λ s p. omega arith)
                          λ later.
                            weaken (again now before later) (λ s p. p.1) (λ a s p. p) (λ e s p. p)))

  poll_state-Ends :
      (k rounds mask want deadline t : ℕ)
      → ack_ms ≤ k
      → deadline ≤ t + rounds
      → Ends t (poll_state T (suc k) (suc rounds) mask want deadline)
  unfolding poll_state
  poll_state-Ends k zero mask want deadline t fuel h =
      poll_round-Ends k mask want deadline t _ fuel (λ now before later. absurd (ground arith))
  poll_state-Ends k (suc rounds) mask want deadline t fuel h =
      poll_round-Ends k mask want deadline t _ fuel λ now before later.
        weaken (poll_state-Ends k rounds mask want deadline (t + 1) fuel (omega arith)) (λ s p. p)
          (λ a s p. omega arith) (λ e s p. omega arith)

  wait_state-Ends :
      (k mask want timeout t : ℕ)
      → ack_ms ≤ k
      → timeout ≤ k
      → Ends t (wait_state T (suc k) mask want timeout)
  unfolding wait_state
  wait_state-Ends k mask want timeout t fuel h = bind_lem (now_ms-Ends t) λ now.
      known_lem (t ≤ now) (λ s p. omega arith)
        λ later.
          weaken (poll_state-Ends k k mask want (now + timeout) now fuel (omega arith))
            (λ s p. omega arith) (λ a s p. omega arith) (λ e s p. omega arith)

  -- Every operation that `Stable` composes ends.
  pub halting :
      (k t : ℕ)
      → 30_000 ≤ k
      → Stable T (suc k) Never (λ _ _. true) (λ _. Unit) (Since t) (λ _. Since t)
  halting k t fuel = record {
    command_keeps = λ cmd x _.
        weaken (command-ticks k cmd x ack_ms t (omega arith) (omega arith)) (λ s p. p)
          (λ a s p. omega arith) (λ e s p. p);
    wait_keeps = λ mask want timeout _ short.
        wait_state-Ends k mask want timeout t (omega arith) (omega arith);
    calls = λ f s _ p. p;
    raises = λ e s p. p;
  }
