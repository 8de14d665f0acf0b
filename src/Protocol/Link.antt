-- ===== src/Protocol/Link.antt =====
-- `open` ends with a unit that has shaken hands, or with the handle closed.
use disc_stakka_web.Base.{
  ℕ, zero, suc, ◌+◌, Bool, true, false, ◌==◌, ltb, Option, none, some, ◌≡◌, refl, arith,
}
use disc_stakka_web.Effect.{Exc, M, ◌>>◌, pure, any_exception}
use disc_stakka_web.Effect.Triple.{
  Triple, After, Any, bind_lem, if_lem, skip_lem, raise_lem, pure_lem, fuel_lem, handle_lem, weaken,
}
use disc_stakka_web.Transport.{Transport, finished, failed, broken}
use disc_stakka_web.Protocol.Packet.{poll_ms, ack_ms, cmd_new_unit, cmd_get_serial, u32}
use disc_stakka_web.Protocol.Handle.{
  DiscStakka, Operands, operands, answers, close, read, write, now_ms, await_reply, command,
}
use disc_stakka_web.Protocol.Connection.{
  read_firmware, set_serial, set_firmware, set_unit, set_open, sleep, open_io, ask_serial, greet,
  handshake, try_open, open_from, is_connected, open_unit,
}

abbrev pub IsKnown : Option ℕ → Type 0
IsKnown none = ⊥
IsKnown (some n) = Unit

module _ {W J : Type 0} (T : Transport W) (fuel : ℕ) where
  abbrev pub Closed : DiscStakka W J → Type 0
  Closed s = s.is_open ≡ false

  -- The handle is open, and the serial is known if `b` says so.
  abbrev pub Linked : Bool → DiscStakka W J → Type 0
  Linked b s = (s.is_open ≡ true) × (b ≡ true → IsKnown s.serial)

  abbrev Stays : {A : Type 0} → Bool → M (DiscStakka W J) A → Type 0
  Stays b m = Triple Any (Linked b) m (λ _. Linked b) (λ _. Any)

  read-Stays : (b : Bool) (n : ℕ) → Stays b (read T n)
  unfolding read
  read-Stays b n = record { holds = λ s p. ground arith }

  write-Stays : (b : Bool) (m c : ℕ) (x : Operands) → Stays b (write T m c x)
  unfolding write
  write-Stays b m c x = record { holds = λ s p. ground arith }

  now_ms-Stays : (b : Bool) → Stays b (now_ms T)
  unfolding now_ms
  now_ms-Stays b = record { holds = λ s p. p }

  await_reply-Stays : (b : Bool) (rounds m deadline : ℕ) → Stays b (await_reply T rounds m deadline)
  unfolding await_reply
  await_reply-Stays b zero m deadline = fuel_lem (λ s p. tt)
  await_reply-Stays b (suc rounds) m deadline = bind_lem (now_ms-Stays b) λ now.
      if_lem (ltb now deadline)
        (λ _. bind_lem (read-Stays b poll_ms) λ reply.
          if_lem (answers m reply) (λ _. pure_lem _ (λ s p. p))
            (λ _. await_reply-Stays b rounds m deadline))
        (λ _. pure_lem _ (λ s p. p))

  command-Stays :
      (b : Bool) (cmd : ℕ) (x : Operands) (timeout : ℕ) → Stays b (command T fuel cmd x timeout)
  unfolding command
  command-Stays b cmd x timeout = bind_lem (read-Stays b timeout) (elim [
    | none ↦ raise_lem _ (λ s p. tt)
    | some p ↦
        bind_lem (write-Stays b _ cmd x)
          λ _. bind_lem (now_ms-Stays b) (λ now. await_reply-Stays b fuel _ (now + timeout))
  ])

  abbrev Learns : {A : Type 0} → M (DiscStakka W J) A → Type 0
  Learns m = Triple Any (Linked false) m (λ _. Linked true) (λ _. Any)

  set_serial-Learns : (n : ℕ) → Learns (set_serial T fuel n)
  unfolding set_serial
  set_serial-Learns n = record { holds = λ s p. (p.0, λ _. tt) }

  ask_serial-Learns : Learns (ask_serial T fuel)
  unfolding ask_serial
  ask_serial-Learns =
      bind_lem (command-Stays false cmd_get_serial (operands 0 0) ack_ms)
        (elim [ none ↦ raise_lem _ (λ s p. tt) | some p ↦ set_serial-Learns (u32 p) ])

  set_unit-Stays : (b : Bool) (n : ℕ) → Stays b (set_unit T fuel n)
  unfolding set_unit
  set_unit-Stays b n = record { holds = λ s p. p }

  greet-Learns : (rounds deadline : ℕ) → Learns (greet T fuel rounds deadline)
  unfolding greet
  greet-Learns zero deadline = fuel_lem (λ s p. tt)
  greet-Learns (suc rounds) deadline = bind_lem (now_ms-Stays false) λ now.
      if_lem (ltb now deadline)
        (λ _. bind_lem (read-Stays false poll_ms) (elim [
          | none ↦ greet-Learns rounds deadline
          | some p ↦ bind_lem (set_unit-Stays false p.unit) λ _.
              if_lem (p.cmd == cmd_new_unit)
                (λ _.
                  bind_lem (write-Stays false _ cmd_get_serial (operands 0 0))
                    (λ _. greet-Learns rounds deadline))
                (λ _.
                  if_lem (p.cmd == cmd_get_serial) (λ _. set_serial-Learns (u32 p))
                    (λ _. ask_serial-Learns))
        ]))
        (λ _. raise_lem _ (λ s p. tt))

  handshake-Learns : Learns (handshake T fuel)
  unfolding handshake read_firmware set_firmware
  handshake-Learns = bind_lem (now_ms-Stays false) λ now.
      bind_lem (greet-Learns fuel (now + 5_000)) λ _.
        bind_lem
          (bind_lem (command-Stays true _ _ ack_ms)
            λ a. bind_lem (command-Stays true _ _ ack_ms) (λ b. pure_lem _ (λ s p. p)))
          (λ version. record { holds = λ s p. p })

  -- What a pass of `open` leaves behind.
  abbrev Tried : Option Exc → DiscStakka W J → Type 0
  Tried none = Linked true
  Tried (some e) = Closed

  open_io-Closed : Triple Any Closed (open_io T fuel) (λ _. Closed) (λ _. Closed)
  unfolding open_io
  open_io-Closed = record { holds = λ s p. p }

  set_open-Linked : Triple Any Closed (set_open T fuel) (λ _. Linked false) (λ _. Closed)
  unfolding set_open
  set_open-Linked = record { holds = λ s p. (refl, λ no. cc) }

  close-Closed : Triple Any Any (close T) (λ _. Closed) (λ _. Closed)
  unfolding close
  close-Closed = record { holds = λ s p. refl }

  try_open-Tried : Triple Any Closed (try_open T fuel) Tried (λ _. Closed)
  unfolding try_open
  try_open-Tried = bind_lem open_io-Closed (elim [
    | failed ↦ pure_lem _ (λ s p. p)
    | broken ↦ raise_lem _ (λ s p. p)
    | finished _ ↦ bind_lem set_open-Linked λ _.
        handle_lem any_exception (λ e. close T >> pure (some e))
          (bind_lem handshake-Learns (λ _. pure_lem _ (λ s p. p)))
          (λ e c. bind_lem close-Closed (λ _. pure_lem _ (λ s p. p))) (λ e s no. cc)
  ])

  sleep-Closed : (n : ℕ) → Triple Any Closed (sleep T fuel n) (λ _. Closed) (λ _. Closed)
  unfolding sleep
  sleep-Closed n = record { holds = λ s p. p }

  open_from-Linked :
      (left : ℕ) (last : Option Exc)
      → Triple Any Closed (open_from T fuel left last) (λ _. Linked true) (λ _. Closed)
  unfolding open_from
  open_from-Linked zero last = raise_lem _ (λ s p. p)
  open_from-Linked (suc left) last = bind_lem try_open-Tried (elim [
    | none ↦ skip_lem (λ s p. p)
    | some e ↦
        bind_lem (if_lem (left == 0) (λ _. skip_lem (λ s p. p)) (λ _. sleep-Closed 400))
          (λ _. open_from-Linked left (some e))
  ])

  open_unit-Linked :
      (attempts : ℕ)
      → Triple Any Closed (open_unit T fuel attempts) (λ _. Linked true) (λ _. Closed)
  unfolding open_unit is_connected
  open_unit-Linked attempts = record {
    holds = λ s p. simp p ((open_from-Linked attempts none).holds s p);
  }

  -- From a closed handle, an `open` that returns leaves it open with the serial known, and one that
  -- raises leaves it closed, whatever the transport does.
  pub open_links_or_closes :
      (attempts : ℕ) (s : DiscStakka W J)
      → s.is_open ≡ false
      → After Any
          (λ _ s'. (s'.is_open ≡ true) × IsKnown s'.serial)
          (λ _ s'. s'.is_open ≡ false)
          (open_unit T fuel attempts s).0
          (open_unit T fuel attempts s).1
  open_links_or_closes attempts s p =
      (weaken (open_unit-Linked attempts) (λ s p. p) (λ a s p. (p.0, p.1 refl)) (λ e s p. p)).holds
        s p
