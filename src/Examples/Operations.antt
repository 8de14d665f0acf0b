-- ===== src/Examples/Operations.antt =====
-- The operations on the unit, at concrete inputs.
use disc_stakka_web.Simulator.Carousel.{Carousel, insert_disc, take_disc, push}
use disc_stakka_web.Simulator.Heap.{IsSorted}
use disc_stakka_web.Simulator.Timers.{due_count, run_due_leaves_nothing_due}
use disc_stakka_web.Base.{true, false, none, some, [], ◌≡◌, ◌≢◌, ◌==◌, refl, arith}
use disc_stakka_web.Effect.{ok, running}
use disc_stakka_web.Effect.Triple.{After, Any}
use disc_stakka_web.Simulator.Carousel.{run_due, happen, busy}
use disc_stakka_web.Simulator.Commands.{status, status_reply, handle, handle_due}
use disc_stakka_web.Simulator.Clock.{simulated-IsTicking}
use disc_stakka_web.Simulator.Answers.{
  carrying, Logs, status_reply_reads_back, handle_tells_what_it_did,
}
use disc_stakka_web.Simulator.Bus.{Bus, simulated}
use disc_stakka_web.Simulator.Bus
use disc_stakka_web.Protocol.Packet.{
  Packet, packet, status_word, is_set, st_busy, st_homed, st_disc_waiting, st_new_disc_ack,
  st_disc_in_bay, st_ack_timeout, cmd_request_state, cmd_retract, cmd_accept_disc, cmd_clear_err_2,
  carries_status,
}
use disc_stakka_web.Protocol.Handle
use disc_stakka_web.Protocol.Handle.{
  DiscStakka, operands, command, await_reply, frame, next_msgid, answers, now_ms,
}
use disc_stakka_web.Protocol.Waiting
use disc_stakka_web.Protocol.Waiting.{
  position, wait_state, ensure_homed, observe, poll_state, wait_idle, require_from, require,
}
use disc_stakka_web.Protocol.Moves.{
  move_to, reset, park, wait_for_insert, wait_for_take, ingest, retract, disc_in_bay,
  refuse_with_a_disc_out, move_in_range, require_retract,
}
use disc_stakka_web.Protocol.Connection.{open_unit, reconnect}
use disc_stakka_web.Protocol.Replies.{Reply, Satisfied, FlagReported, BayReported}
use disc_stakka_web.Protocol.Results.{
  command_pairs_reply, wait_state_saw_status, move_to_ends_idle, ensure_homed_saw_homed,
  retract_saw_empty_bay,
}
use disc_stakka_web.Protocol.EmptyBay.{IsGuarded}
use disc_stakka_web.Protocol.Rotation.{moves_see_an_empty_bay}
use disc_stakka_web.Protocol.Confinement.{OnlySends, request_or, operations_are_confined}
use disc_stakka_web.Protocol.Termination.{operations_end}
use disc_stakka_web.Protocol.Opening.{opening_ends}
use disc_stakka_web.Protocol.Link.{IsKnown, open_links_or_closes}
use disc_stakka_web.Examples.Inputs.{fuel, enough, carousel, linked, closed}

abbrev reply : Packet
reply = record { tag = 1; unit = 0; msgid = 1; cmd = 1; x1 = 0; x2 = 0; x3 = 1; x4 = 0 }

asked : (command simulated fuel 1 (operands 0 0) 3_000 linked).0 ≡ ok (some reply)
unfolding command Handle.read Bus.read packet Handle.write next_msgid Bus.write run_due now_ms
    await_reply handle handle_due status
asked = refl

moves_see_an_empty_bay_example :
    IsGuarded (move_to simulated fuel 18 true none linked).1.events
    × IsGuarded (reset simulated fuel none linked).1.events
    × IsGuarded (park simulated fuel none linked).1.events
moves_see_an_empty_bay_example = moves_see_an_empty_bay simulated fuel 18 true none linked tt

operations_end_example :
    ((move_to simulated fuel 18 true none linked).0 ≢ running)
    × ((reset simulated fuel none linked).0 ≢ running)
    × ((park simulated fuel none linked).0 ≢ running)
    × ((ingest simulated fuel none linked).0 ≢ running)
    × ((retract simulated fuel none linked).0 ≢ running)
    × ((wait_for_insert simulated fuel linked).0 ≢ running)
    × ((wait_for_take simulated fuel linked).0 ≢ running)
operations_end_example =
    operations_end simulated simulated-IsTicking 30_000 enough 18 true none linked

opening_ends_example :
    ((open_unit simulated fuel 3 closed).0 ≢ running)
    × ((reconnect simulated fuel closed).0 ≢ running)
opening_ends_example = opening_ends simulated simulated-IsTicking 30_000 (omega arith) 3 closed

open_links_or_closes_example :
    After Any
      (λ _ s'. (s'.is_open ≡ true) × IsKnown s'.serial)
      (λ _ s'. s'.is_open ≡ false)
      (open_unit simulated fuel 3 closed).0
      (open_unit simulated fuel 3 closed).1
open_links_or_closes_example = open_links_or_closes simulated fuel 3 closed refl

operations_are_confined_example :
    OnlySends (request_or cmd_retract) (retract simulated fuel none linked).1.events
    × OnlySends (request_or cmd_accept_disc) (ingest simulated fuel none linked).1.events
    × OnlySends (request_or cmd_clear_err_2) (position simulated fuel linked).1.events
    × OnlySends (λ cmd. cmd == cmd_request_state) (wait_for_insert simulated fuel linked).1.events
    × OnlySends (λ cmd. cmd == cmd_request_state) (wait_for_take simulated fuel linked).1.events
operations_are_confined_example = operations_are_confined simulated fuel none linked refl

waited : (wait_state simulated fuel st_busy 0 500 linked).0 ≡ ok true
unfolding wait_state poll_state observe wait_idle require_from require ensure_homed disc_in_bay
    refuse_with_a_disc_out move_in_range move_to retract require_retract is_set Waiting.status
    carries_status status_word command Handle.read Bus.read packet Handle.write next_msgid Bus.write
    run_due now_ms await_reply handle handle_due status
waited = refl

moved : (move_to simulated fuel 18 true none linked).0 ≡ ok tt
unfolding wait_state poll_state observe wait_idle require_from require ensure_homed disc_in_bay
    refuse_with_a_disc_out move_in_range move_to retract require_retract is_set Waiting.status
    carries_status status_word command Handle.read Bus.read packet Handle.write next_msgid Bus.write
    run_due now_ms await_reply handle handle_due status happen
moved = refl

homed : (ensure_homed simulated fuel none linked).0 ≡ ok tt
unfolding wait_state poll_state observe wait_idle require_from require ensure_homed disc_in_bay
    refuse_with_a_disc_out move_in_range move_to retract require_retract is_set Waiting.status
    carries_status status_word command Handle.read Bus.read packet Handle.write next_msgid Bus.write
    run_due now_ms await_reply handle handle_due status
homed = refl

withdrawn : (retract simulated fuel none linked).0 ≡ ok true
unfolding wait_state poll_state observe wait_idle require_from require ensure_homed disc_in_bay
    refuse_with_a_disc_out move_in_range move_to retract require_retract is_set Waiting.status
    carries_status status_word command Handle.read Bus.read packet Handle.write next_msgid Bus.write
    run_due now_ms await_reply handle handle_due status happen
withdrawn = refl

command_pairs_reply_example :
    Reply 1 reply (command simulated fuel 1 (operands 0 0) 3_000 linked).1.events
command_pairs_reply_example =
    command_pairs_reply simulated fuel 1 (operands 0 0) 3_000 linked reply asked

wait_state_saw_status_example :
    Satisfied st_busy 0 (wait_state simulated fuel st_busy 0 500 linked).1.events
wait_state_saw_status_example = wait_state_saw_status simulated fuel st_busy 0 500 linked waited

move_to_ends_idle_example :
    Satisfied st_busy 0 (move_to simulated fuel 18 true none linked).1.events
move_to_ends_idle_example = move_to_ends_idle simulated fuel 18 true none linked moved

ensure_homed_saw_homed_example :
    FlagReported st_homed true (ensure_homed simulated fuel none linked).1.events
ensure_homed_saw_homed_example = ensure_homed_saw_homed simulated fuel none linked homed

retract_saw_empty_bay_example : BayReported false (retract simulated fuel none linked).1.events
retract_saw_empty_bay_example = retract_saw_empty_bay simulated fuel none linked true withdrawn

status_reply_reads_back_example :
    let st = status_word (carrying reply (status_reply carousel)) in
    (is_set st st_busy ≡ busy carousel)
    × (is_set st st_disc_waiting ≡ carousel.disc_waiting)
    × (is_set st st_new_disc_ack ≡ carousel.new_disc_ack)
    × (is_set st st_disc_in_bay ≡ carousel.disc_in_bay)
    × (is_set st st_ack_timeout ≡ carousel.ack_timeout)
    × (is_set st st_homed ≡ carousel.homed)
status_reply_reads_back_example = status_reply_reads_back carousel reply

handle_tells_what_it_did_example :
    Logs (handle 0x01 [] carousel).0 (0x01, []) carousel (handle 0x01 [] carousel).1
handle_tells_what_it_did_example = handle_tells_what_it_did 0x01 [] carousel

abbrev fed : Carousel
fed = insert_disc (some 1_000_000) carousel

run_due_leaves_nothing_due_example :
    (due_count (run_due fed).clock (run_due fed).events ≡ 0)
    × ((run_due fed).clock ≡ fed.clock)
    × IsSorted (run_due fed)
    × IsSorted (handle 0x01 [] fed).1
    × IsSorted (insert_disc none fed)
    × IsSorted (take_disc none fed)
unfolding insert_disc push
run_due_leaves_nothing_due_example = run_due_leaves_nothing_due fed none 0x01 [] (tt, tt)
