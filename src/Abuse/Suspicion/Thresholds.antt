-- ===== src/Abuse/Suspicion/Thresholds.antt =====
-- abuse/suspicion.ts, `THRESHOLDS`: in thousandths of a point.
use the_room_backend.Base.{ℕ}

abbrev pub throttle : ℕ
throttle = 30000

abbrev pub challenge : ℕ
challenge = 60000

abbrev pub severe : ℕ
severe = 90000

abbrev pub most : ℕ
most = 150000
