-- ===== src/Can/Tests.antt =====
-- The length codes at concrete sizes.
use spcd_actuator.Prelude.{◌≤◌, ◌↔◌, arith}
use spcd_actuator.Can.Dlc.{round_up_dlc, round_up_dlc_least}

round_up_dlc_least_example : (33 ≤ 48) ↔ (round_up_dlc 33 ≤ 14)
round_up_dlc_least_example = round_up_dlc_least 33 14 (omega arith) (omega arith)
