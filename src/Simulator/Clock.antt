-- ===== src/Simulator/Clock.antt =====
-- The virtual clock of the software unit ticks: tests/clock.py, with which discstakka/simulator.py runs
-- in the tests. The default `RealClock` moves by itself and is not modelled.
use disc_stakka_web.Base.{
  ℕ, zero, suc, ◌+◌, ltb, if◌then◌else◌, List, ◌∷◌, length, ◌≡◌, refl, arith, ◌∙◌, take, List-cases,
  inl, inr,
}
use disc_stakka_web.Transport.{IsTicking}
use disc_stakka_web.Simulator.Carousel.{
  Carousel, Happening, taken, disc_arrives, disc_drawn_off, ack_expired, back_in_slot, settled,
  arrived, stored, happen, run_due, run_due_from,
}
use disc_stakka_web.Simulator.Commands.{handle, handle_due, handle_heard, perform}
use disc_stakka_web.Simulator.Bus.{
  Bus, simulated, read, write, hear, open_handle, close_handle, advance,
}

happen-clock : (h : Happening) (c : Carousel) → (happen h c).clock ≡ c.clock
unfolding happen
happen-clock taken c = refl
happen-clock disc_arrives c = refl
happen-clock disc_drawn_off c = refl
happen-clock ack_expired c = ground arith
happen-clock back_in_slot c = ground arith
happen-clock settled c = refl
happen-clock (arrived target presenting) c = ground arith
happen-clock (stored slot) c = refl

run_due_from-clock : (rounds : ℕ) (c : Carousel) → (run_due_from rounds c).clock ≡ c.clock
unfolding run_due_from
run_due_from-clock zero c = refl
run_due_from-clock (suc rounds) c = elim (List-cases c.events) [
  | inl e ↦ ground arith
  | inr (d, ds, e) ↦ ground (
    arith,
    run_due_from-clock rounds (happen d.happening (record c { events = ds })),
    happen-clock d.happening (record c { events = ds }),
  )
]

pub run_due-clock : (c : Carousel) → (run_due c).clock ≡ c.clock
unfolding run_due
run_due-clock c = run_due_from-clock (length c.events) c

perform-clock : (cmd : ℕ) (args : List ℕ) (c : Carousel) → (perform cmd args c).1.clock ≡ c.clock
unfolding perform
perform-clock cmd args c = ground arith

handle_heard-clock :
    (cmd : ℕ) (args : List ℕ) (c : Carousel) → (handle_heard cmd args c).1.clock ≡ c.clock
unfolding handle_heard
handle_heard-clock cmd args c =
    ground (arith, perform-clock cmd args (record c { log = (cmd, args) ∷ c.log }))

handle_due-clock :
    (cmd : ℕ) (args : List ℕ) (c : Carousel) → (handle_due cmd args c).1.clock ≡ c.clock
unfolding handle_due
handle_due-clock cmd args c = ground (
  arith,
  handle_heard-clock cmd args c,
  handle_heard-clock cmd args (record c { drawn = c.drawn + 1 }),
)

handle-clock : (cmd : ℕ) (args : List ℕ) (c : Carousel) → (handle cmd args c).1.clock ≡ c.clock
unfolding handle
handle-clock cmd args c = handle_due-clock cmd args (run_due c) ∙ run_due-clock c

hear-clock :
    (m cmd : ℕ) (args : List ℕ) (b : Bus) → (hear m cmd args b).carousel.clock ≡ b.carousel.clock
unfolding hear
hear-clock m cmd args b = ground (arith, handle-clock cmd args b.carousel)

write-clock : (buf : List ℕ) (b : Bus) → (write buf b).1.carousel.clock ≡ b.carousel.clock
unfolding write
write-clock (r ∷ t ∷ u ∷ m ∷ cmd ∷ args) b = ground (arith, hear-clock m cmd (take 5 args) b)
write-clock _ b = ground arith

-- Under the virtual clock of tests/clock.py, a read that waits moves the time on, and nothing moves it
-- back.
pub simulated-IsTicking : IsTicking simulated
unfolding open_handle close_handle read advance
simulated-IsTicking = record {
  open_later = λ b. ground arith;
  close_later = λ b. ground arith;
  read_later =
      λ n t b. ground (arith, run_due-clock (advance (if ltb 143 t then 143 else t) b.carousel));
  read_waits = λ n t b h e.
      ground (arith, run_due-clock (advance (if ltb 143 t then 143 else t) b.carousel));
  write_later = λ buf b. omega (arith, write-clock buf b);
  sleep_later = λ ms b. ground arith;
}
