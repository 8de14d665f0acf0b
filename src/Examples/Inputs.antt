-- ===== src/Examples/Inputs.antt =====
-- The states that the examples start from: a software unit with a disc in slot 18, and a catalogue
-- that has this disc.
use disc_stakka_web.Base.{ℕ, true, false, none, some, [], ◌∷◌, arith, ◌≤◌}
use disc_stakka_web.Effect.{format, nil, Done, ok}
use disc_stakka_web.Simulator.Carousel.{Carousel, initial}
use disc_stakka_web.Simulator.Bus.{Bus, plugged}
use disc_stakka_web.Protocol.Handle.{DiscStakka}
use disc_stakka_web.Jobs.{Job, Kind, Phase}
use disc_stakka_web.Catalog.Db.{Disc, Status, Db, Conn, Query}
use disc_stakka_web.Flows.{Shared}
use disc_stakka_web.Flows.Kept.{IsTotal}

abbrev pub fuel : ℕ
fuel = 30_001

pub enough : 30_000 ≤ 30_000
enough = omega arith

abbrev pub carousel : Carousel
carousel = record initial { occupied = 18 ∷ []; homed = true }

abbrev pub disc : Disc
disc = record {
  id = 7;
  slot = 18;
  title = format "Abbey Road" nil;
  subtitle = none;
  category = none;
  platform = none;
  notes = none;
  art_path = none;
  status = Status.stored;
  checked_out_at = none;
  created_at = 5;
  updated_at = 5;
}

abbrev pub db : Db
db = record { discs = disc ∷ []; events = [] }

abbrev pub conn : Conn
conn = record { live = db; saved = db; now = 9 }

abbrev pub job : Job
job = record {
  id = record { second = 1; number = 1 };
  kind = Kind.eject;
  title = format "Eject slot 18" nil;
  disc_id = some 7;
  slot = some 18;
  phase = Phase.moving;
  message = format "Starting..." nil;
  deadline = none;
  failure = none;
  result = record { disc_id = none; needs_details = false };
  created_at = 1;
}

abbrev pub shared : Shared
shared = record {
  job = job;
  conn = conn;
  trace = record { recording = true; last = none; lines = [] };
}

-- A closed handle, and an open one.
abbrev pub closed : DiscStakka Bus Shared
closed = record {
  io = plugged carousel;
  is_open = false;
  unit = 0;
  serial = none;
  firmware = none;
  trace = none;
  caller = shared;
  events = [];
}

abbrev pub linked : DiscStakka Bus Shared
linked = record closed {
  io = record (plugged carousel) {
    opened = true;
    latched = some (0x01 ∷ 0 ∷ 0 ∷ 0x01 ∷ 0 ∷ 0 ∷ 1 ∷ 0 ∷ []);
  };
  is_open = true;
  serial = some 233_745_409;
}

-- The database opens.
abbrev pub connect : Query Done
connect c = (ok tt, c)

pub connect-IsTotal : IsTotal connect
connect-IsTotal c = ground arith
