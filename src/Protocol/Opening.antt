-- ===== src/Protocol/Opening.antt =====
-- Opening the unit ends, if the clock ticks.
use disc_stakka_web.Base.{
  ℕ, zero, suc, ◌+◌, ◌≤◌, true, ◌==◌, ltb, if◌then◌else◌, Option, none, some, ◌≡◌, ◌≢◌, arith,
  ltb→lt,
}
use disc_stakka_web.Effect.{Exc, Done, ◌>>=◌, running, any_exception}
use disc_stakka_web.Effect.Triple.{
  Triple, bind_lem, handle_lem, weaken, pure_lem, raise_lem, if_lem, skip_lem, known_lem, ended_lem,
}
use disc_stakka_web.Transport.{Transport, IsTicking, finished, failed, broken}
use disc_stakka_web.Protocol.Packet.{Packet, cmd_new_unit, cmd_get_serial, ack_ms, poll_ms, u32}
use disc_stakka_web.Protocol.Handle.{DiscStakka, Operands, operands, Call, write, close, command}
use disc_stakka_web.Protocol.Connection.{
  read_firmware, set_serial, set_firmware, set_unit, set_open, sleep, open_io, ask_serial, greet,
  handshake, try_open, open_from, is_connected, open_unit, reconnect,
}
use disc_stakka_web.Protocol.Halting.{
  Since, Never, now_ms-Ends, read-Ends, write-Ends, command-ticks,
}

pub no_pass : (now deadline : ℕ) → deadline ≤ now → ltb now deadline ≡ true → ⊥
no_pass now deadline late early = let before = ltb→lt now deadline early in omega arith

module _ {W J : Type 0} (T : Transport W) (tick : IsTicking T) (k : ℕ) (enough : 5_000 ≤ k) where
  abbrev Reached : ℕ → DiscStakka W J → Type 0
  Reached t = Since T tick t

  abbrev pub Ends : {A : Type 0} → ℕ → Call W J A → Type 0
  Ends t m = Triple (Never T tick) (Reached t) m (λ _. Reached t) (λ _. Reached t)

  set_unit-Ends : (n t : ℕ) → Ends t (set_unit T (suc k) n)
  unfolding set_unit
  set_unit-Ends n t = record { holds = λ s p. p }

  set_serial-Ends : (n t : ℕ) → Ends t (set_serial T (suc k) n)
  unfolding set_serial
  set_serial-Ends n t = record { holds = λ s p. p }

  command-Ends : (cmd : ℕ) (x : Operands) (t : ℕ) → Ends t (command T (suc k) cmd x ack_ms)
  command-Ends cmd x t =
      weaken (command-ticks T tick k cmd x ack_ms t (omega arith) (omega arith)) (λ s p. p)
        (λ a s p. omega arith) (λ e s p. p)

  ask_serial-Ends : (t : ℕ) → Ends t (ask_serial T (suc k))
  unfolding ask_serial
  ask_serial-Ends t =
      bind_lem (command-Ends _ _ t)
        (elim [ none ↦ raise_lem _ (λ s p. p) | some p ↦ set_serial-Ends (u32 p) t ])

  -- A pass of `greet` at a packet, from what is known of the passes that follow it.
  answer-Ends :
      (t : ℕ) (p : Packet) (msgid : ℕ) (rest : Call W J Done)
      → Ends t rest
      → Ends t (
          set_unit T (suc k) p.unit >>= λ _.
          if p.cmd == cmd_new_unit
          then (write T msgid cmd_get_serial (operands 0 0) >>= λ _. rest)
          else (if p.cmd == cmd_get_serial
              then set_serial T (suc k) (u32 p)
              else ask_serial T (suc k)))
  answer-Ends t p msgid rest again = bind_lem (set_unit-Ends p.unit t) λ _.
      if_lem (p.cmd == cmd_new_unit) (λ _. bind_lem (write-Ends T tick _ _ _ t) (λ _. again))
        (λ _.
          if_lem (p.cmd == cmd_get_serial) (λ _. set_serial-Ends (u32 p) t)
            (λ _. ask_serial-Ends t))

  greet-Ends :
      (rounds deadline t : ℕ)
      → deadline ≤ t + rounds
      → Ends t (greet T (suc k) (suc rounds) deadline)
  unfolding greet
  greet-Ends zero deadline t h = bind_lem (now_ms-Ends T tick t) λ now.
      if_lem (ltb now deadline)
        (λ early. known_lem ⊥ (λ s p. no_pass now deadline (omega arith) early) (λ no. absurd no))
        (λ late. raise_lem _ (λ s p. p.1))
  greet-Ends (suc rounds) deadline t h =
      let later = greet-Ends rounds deadline (t + 1) (omega arith) in
      bind_lem (now_ms-Ends T tick t) λ now.
        if_lem (ltb now deadline)
          (λ early.
            bind_lem
              (weaken (read-Ends T tick poll_ms t (omega arith)) (λ s p. p.1) (λ a s p. p)
                (λ e s p. p))
              (elim [
                | none ↦ weaken later (λ s p. p) (λ a s p. omega arith) (λ e s p. omega arith)
                | some p ↦
                    weaken (answer-Ends (t + 1) p _ _ later) (λ s p. p) (λ a s p. omega arith)
                      (λ e s p. omega arith)
              ]))
          (λ late. raise_lem _ (λ s p. p.1))

  handshake-Ends : (t : ℕ) → Ends t (handshake T (suc k))
  unfolding handshake read_firmware set_firmware
  handshake-Ends t = bind_lem (now_ms-Ends T tick t) λ now.
      known_lem (t ≤ now) (λ s p. omega arith)
        λ later.
          bind_lem
            (weaken (greet-Ends k (now + 5_000) now (omega arith)) (λ s p. omega arith)
              (λ a s p. omega arith) (λ e s p. omega arith))
            λ _.
              bind_lem
                (bind_lem (command-Ends _ _ t)
                  λ a. bind_lem (command-Ends _ _ t) (λ b. pure_lem _ (λ s p. p)))
                (λ version. record { holds = λ s p. p })

  set_open-Ends : (t : ℕ) → Ends t (set_open T (suc k))
  unfolding set_open
  set_open-Ends t = record { holds = λ s p. p }

  open_io-Ends : (t : ℕ) → Ends t (open_io T (suc k))
  unfolding open_io
  open_io-Ends t = record { holds = λ s p. omega (arith, tick.open_later s.io) }

  close-Ends : (t : ℕ) → Ends t (close T)
  unfolding close
  close-Ends t = record { holds = λ s p. omega (arith, tick.close_later s.io) }

  sleep-Ends : (ms t : ℕ) → Ends t (sleep T (suc k) ms)
  unfolding sleep
  sleep-Ends ms t = record { holds = λ s p. omega (arith, tick.sleep_later ms s.io) }

  try_open-Ends : (t : ℕ) → Ends t (try_open T (suc k))
  unfolding try_open
  try_open-Ends t = bind_lem (open_io-Ends t) (elim [
    | failed ↦ pure_lem _ (λ s p. p)
    | broken ↦ raise_lem _ (λ s p. p)
    | finished _ ↦ bind_lem (set_open-Ends t) λ _.
        handle_lem any_exception _ (bind_lem (handshake-Ends t) (λ _. pure_lem _ (λ s p. p)))
          (λ e c. bind_lem (close-Ends t) (λ _. pure_lem _ (λ s p. p))) (λ e s c p. p)
  ])

  open_from-Ends : (left : ℕ) (last : Option Exc) (t : ℕ) → Ends t (open_from T (suc k) left last)
  unfolding open_from
  open_from-Ends zero last t = raise_lem _ (λ s p. p)
  open_from-Ends (suc left) last t = bind_lem (try_open-Ends t) (elim [
    | none ↦ skip_lem (λ s p. p)
    | some e ↦
        bind_lem (if_lem (left == 0) (λ _. skip_lem (λ s p. p)) (λ _. sleep-Ends 400 t))
          (λ _. open_from-Ends left (some e) t)
  ])

  is_connected-Ends : (t : ℕ) → Ends t (is_connected T (suc k))
  unfolding is_connected
  is_connected-Ends t = record { holds = λ s p. p }

  pub open_unit-Ends : (attempts t : ℕ) → Ends t (open_unit T (suc k) attempts)
  unfolding open_unit
  open_unit-Ends attempts t =
      bind_lem (is_connected-Ends t)
        λ opened. if_lem opened (λ _. skip_lem (λ s p. p)) (λ _. open_from-Ends attempts none t)

  pub reconnect-Ends : (t : ℕ) → Ends t (reconnect T (suc k))
  unfolding reconnect
  reconnect-Ends t = bind_lem (close-Ends t) (λ _. open_unit-Ends 3 t)

  -- With a clock that ticks and fuel for 5,000 milliseconds, opening the unit returns or raises after
  -- any number of attempts, and so does reconnecting to it.
  pub opening_ends :
      (attempts : ℕ) (s : DiscStakka W J)
      → ((open_unit T (suc k) attempts s).0 ≢ running) × ((reconnect T (suc k) s).0 ≢ running)
  opening_ends attempts s = (
    ended_lem (open_unit-Ends attempts (T.now_ms s.io)) s (omega arith) (λ _ b. b),
    ended_lem (reconnect-Ends (T.now_ms s.io)) s (omega arith) (λ _ b. b),
  )
