-- ===== src/Lib.antt =====
-- Disc Stakka Web: a web front end for a carousel of a hundred discs that hangs on USB.
--
-- The web application (app.py) answers requests from the catalogue and starts jobs on the controller. The
-- program has one unit, owned by one worker. A flow (discstakka/flows.py) drives it through the
-- wire protocol (discstakka/protocol.py), reports through a job (discstakka/jobs.py), writes the
-- catalogue (discstakka/catalog/db.py) and leaves a trace (discstakka/trace.py). The controller
-- (discstakka/device.py) runs the flow. The protocol talks to a transport (discstakka/transport.py),
-- which is the USB device or the simulated unit (discstakka/simulator.py).
--
-- Base passes on the library's names. Effect has the monad of all the components: a call changes a
-- state and returns, raises one of Python's exceptions, or is still running when the fuel of a loop is
-- used up. Effect/Triple has the logic of pre- and postconditions over it: `After B Q E r s` says `Q`
-- of a call that returned, `E` of one that raised, and `B` of one that ran out of fuel.
--
-- Slots            discstakka/slots.py, the constants.
-- Transport        discstakka/transport.py, the interface: a record of functions over the state of the
--                  bus. `IsTicking` is what the ends of the loops rest on: the clock does not go back, and a
--                  read that waits for a report and returns takes at least a millisecond.
-- Protocol/Packet  discstakka/protocol.py, the packets, the status word and the constants.
-- Protocol/Handle  `_read`, `_write`, `close` and `command` of the class `DiscStakka`. The state keeps, as
--                  `events`, every frame handed to the transport and every packet received, newest first.
--                  `caller` is what the progress and trace callbacks work on.
-- Protocol/Waiting `wait_state`, `wait_idle`, `require`, `status`, `position` and `ensure_homed`.
-- Protocol/Moves   `reset`, `move_to`, `park`, `ingest`, `retract`, the waits for a hand, and `set_led`.
-- Protocol/Connection  `open`, `reconnect`, `_handshake`, `_read_firmware`, `connected`, `present`, `alive`.
-- Protocol/Stable  composes the operations once for every predicate on the state; Events, Replies,
--                  EmptyBay, Rotation, Confinement, Halting, Termination, Opening, Results and Link apply it.
-- Simulator        discstakka/simulator.py: Carousel has the class `Carousel` and what its timers do,
--                  Commands its method `handle`, Bus the class `SimulatedTransport`; the others are proofs.
--                  A heap is kept as the list of what it gives out, and the random numbers are a function,
--                  `chance`. The clock is the virtual one of tests/clock.py, which a read or a sleep moves
--                  on; that of `RealClock`, the default outside the tests, moves by itself and is not modelled.
-- Jobs             discstakka/jobs.py: the class `Job`; Jobs/Registry the class `JobRegistry`.
-- Catalog/Db       discstakka/catalog/schema.sql and the writes of discstakka/catalog/db.py: tables as lists
--                  of rows, the constraints as tests that raise, transactions as two copies of the tables.
--                  Catalog/Edit has `update_disc`, Catalog/Slots the free slots, Catalog/Listing the listing
--                  and its pages, Catalog/BySlot its order by slot, Catalog/Stats the counts, Catalog/Recent
--                  the events; Valid and Writes are proofs. What SQLite does for `LIKE`, `=` and the order of
--                  titles is a parameter.
-- Catalog/Taxonomy discstakka/catalog/taxonomy.py; Canonical is its proof.
-- Catalog/Art      discstakka/catalog/art.py: `fetch_url`, over a parameter `Network`. Art/Files has `store`,
--                  `remove` and `ingest`, over a parameter `Imaging`; the others are proofs.
-- Trace            discstakka/trace.py.
-- Flows            discstakka/flows.py: `run_reset` and `run_eject`; Flows/Add has `run_add`. Holding,
--                  Operations, Eject and Load follow the rows of the catalogue through a flow; Kept composes
--                  the flows once for predicates on the unit, and Rotation and Ending apply it.
-- Controller/Run   discstakka/device.py: `_run_owned` and `_log_failure`. Finish and Worker are proofs.
-- Controller/Keep  `tend` of the same file, one pass of the thread that keeps the unit open. Tending is
--                  its proof.
-- Controller/Claims  `_claimed`, `probe` and `reconnect` of the same file; Claiming is their proof.
-- Controller/Submit  `current` and `submit` of the same file, on a store of jobs. Threads has the steps of all
--                  threads on the two locks, and Orderly what holds in every state that they reach.
-- Web              app.py: the state of the server, `job_using`, `start_job` and `_form_slot`. Web/Pages has the
--                  handlers that read, Web/Edits those that write the catalogue, Web/Hardware those that start a
--                  job, Web/Device those of the device, given how their call of the controller ended, and
--                  Web/Respond the routes and sequences of requests. A request is one step: its handler
--                  runs to its end before a worker or another request goes on. Invariant, Reads and Writes
--                  compose the handlers once for every predicate on the controller and the connection; Gets
--                  and Safety apply it, Rows and Guarded have the lemmas of Safety. Recording follows the
--                  form that records a disc by hand through the constraints of the tables, Correcting the
--                  two corrections of a row, Answers a job from its start to its page. `art.ingest` is a
--                  parameter there, with its result or its error.
-- Examples         runs against the simulated unit under the virtual clock, and the theorems at concrete
--                  inputs.
--
-- Numbers are natural; bytes keep their `% 256`. Times are milliseconds. The loops that wait for the
-- clock run on fuel, one unit for a round. A round takes at least a millisecond, and the longest limit
-- is 30 seconds, so fuel of 30,001 rounds is enough; this is proved. The loop of `fetch_url` has fuel for
-- four requests, one more than it follows redirects, and never runs out of it. The loop of
-- the simulated unit has as much fuel as there are timers, and that this is enough is proved too.
--
-- Not modelled: `info` of the controller; a worker that acts between two statements of one request; hidapi
-- and its thread; `connect`, `init` and `_migrate` of the catalogue; the configuration, the start of the
-- server, the tools, and the text of log files with its time stamps. A message is kept as its format and
-- arguments, a text from outside as its code points. That `db.connect` gives a result is a hypothesis of
-- the theorems on the worker.
pub mod Base
pub mod Effect
pub mod Slots
pub mod Transport
pub mod Protocol
pub mod Simulator
pub mod Jobs
pub mod Catalog
pub mod Web
pub mod Trace
pub mod Flows
pub mod Controller
mod Examples
