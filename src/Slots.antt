-- ===== src/Slots.antt =====
-- discstakka/slots.py: the carousel's geometry.
use disc_stakka_web.Base.{ℕ}

abbrev pub slot_min : ℕ
slot_min = 1

abbrev pub slot_max : ℕ
slot_max = 100

abbrev pub home : ℕ
home = 0
