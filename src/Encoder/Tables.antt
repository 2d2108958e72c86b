-- ===== src/Encoder/Tables.antt =====
-- fw/math/inc/math/commutation.h, encoder_comp.h and cogging.h: the interpolation of the periodic
-- tables. A table is its bytes.
use spcd_actuator.Prelude.{ℕ, ◌+◌, ◌*◌, ◌%◌, ◌^◌, ◌-◌, List, get_or, ltb, if◌then◌else◌}
use spcd_actuator.Floats.{Floats}
use spcd_actuator.Link.Protocol.{read_word}
use spcd_actuator.Motor.Start.{two_pi, wrap_zero_to_two_pi}

-- `static_cast<float>` of an int8_t that is given as a byte.
unfoldable pub of_i8 : (fl : Floats) → ℕ → fl.F
of_i8 fl b = fl.of_i32 (if ltb b 128 then b else b + (2 ^ 32 - 256))

module _ (fl : Floats) where
  -- `InterpolateCommutationOffset`, in 64 floats
  unfoldable pub interpolate_commutation : List ℕ → fl.F → fl.F
  interpolate_commutation table raw_angle_rad =
      let wrapped = wrap_zero_to_two_pi fl raw_angle_rad in
      let scaled = fl.mul wrapped (fl.div (fl.lit 64 0) (two_pi fl)) in
      let index = fl.to_u32 scaled in
      let i0 = index % 64 in
      let i1 = (i0 + 1) % 64 in
      let a = fl.of_bits (read_word table (i0 * 4)) in
      let b = fl.of_bits (read_word table (i1 * 4)) in
      fl.add a (fl.mul (fl.sub scaled (fl.of_u32 index)) (fl.sub b a))

  -- `InterpolateEncoderComp` and `InterpolateCogging`, in a table of so many bytes
  unfoldable pub interpolate_bytes : ℕ → List ℕ → fl.F → fl.F → fl.F
  interpolate_bytes size table scale position_rad =
      let wrapped = wrap_zero_to_two_pi fl position_rad in
      let fraction = fl.mul wrapped (fl.div (fl.lit 1 0) (two_pi fl)) in
      let scaled = fl.mul fraction (fl.lit size 0) in
      let index = fl.to_u32 scaled in
      let i0 = index % size in
      let i1 = (i0 + 1) % size in
      let a = fl.mul (of_i8 fl (get_or table i0 0)) scale in
      let b = fl.mul (of_i8 fl (get_or table i1 0)) scale in
      fl.add a (fl.mul (fl.sub scaled (fl.of_u32 index)) (fl.sub b a))

  abbrev pub interpolate_encoder_comp : List ℕ → fl.F → fl.F → fl.F
  interpolate_encoder_comp table scale position_rad = interpolate_bytes 256 table scale position_rad

  abbrev pub interpolate_cogging : List ℕ → fl.F → fl.F → fl.F
  interpolate_cogging table scale position_rad = interpolate_bytes 1024 table scale position_rad
