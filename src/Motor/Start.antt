-- ===== src/Motor/Start.antt =====
-- motor_control_service.cc: `StartServo`, `StartCurrent`, `StartMit`, and the angle arithmetic of
-- fw/math/inc/math/constants.h that they use.
use spcd_actuator.Prelude.{Bool, true, false, ◌&&◌, if◌then◌else◌, not}
use spcd_actuator.Floats.{Floats}
use spcd_actuator.Link.Commands.{ServoCommand, MitCommand, Result, ok, failed, not_ready}
use spcd_actuator.Motor.Parts.{
  Mode, servo, current, mit, Motor, Readings, switch, call, stop, go, prime_foc, sample_blocking,
  reset_pll, set_refs, set_omega, start_servo, set_servo, start_mit, set_mit,
}

-- `kPi`, `k2Pi`, as the literals of the source
abbrev pub two_pi : (fl : Floats) → fl.F
two_pi fl = fl.lit 6283185307179586 15

abbrev pub pi : (fl : Floats) → fl.F
pi fl = fl.lit 3141592653589793 15

-- `WrapZeroToTwoPi`
unfoldable pub wrap_zero_to_two_pi : (fl : Floats) → fl.F → fl.F
wrap_zero_to_two_pi fl x =
    let divisor = fl.to_i32 (fl.div x (two_pi fl)) in
    let rest = fl.sub x (fl.mul (fl.of_i32 divisor) (two_pi fl)) in
    if fl.le (fl.lit 0 0) rest then rest else fl.add rest (two_pi fl)

-- `WrapNegPiToPi`
unfoldable pub wrap_neg_pi_to_pi : (fl : Floats) → fl.F → fl.F
wrap_neg_pi_to_pi fl x =
    let wrapped = wrap_zero_to_two_pi fl x in
    if fl.le (fl.neg (pi fl)) x && fl.le x (pi fl)
    then x
    else if fl.lt (pi fl) wrapped
    then fl.sub wrapped (two_pi fl)
    else wrapped

-- `MapSingleTurnCommand`, at the measured position.
unfoldable pub map_single_turn : (fl : Floats) → fl.F → fl.F → fl.F
map_single_turn fl measured command_rad =
    let wanted = wrap_zero_to_two_pi fl command_rad in
    if not (fl.is_finite command_rad)
    then command_rad
    else fl.add measured (wrap_neg_pi_to_pi fl (fl.sub wanted (wrap_zero_to_two_pi fl measured)))

unfoldable pub map_command : {fl : Floats} → fl.F → ServoCommand fl → ServoCommand fl
map_command {fl} measured c = record c {
  position_rad = map_single_turn fl measured c.position_rad;
  stop_position_rad = map_single_turn fl measured c.stop_position_rad;
}

abbrev pub is_servo : Mode → Bool
is_servo servo = true
is_servo _ = false

abbrev pub is_current : Mode → Bool
is_current current = true
is_current _ = false

abbrev pub is_mit : Mode → Bool
is_mit mit = true
is_mit _ = false

-- `Stop(); encoder_->SampleBlocking(); encoder_->ResetPll();`
unfoldable pub stop_and_align : {fl : Floats} → Motor fl → Motor fl
stop_and_align m = call reset_pll (call sample_blocking (stop m))

-- What a start of a mode does: it is refused, it gives the running controllers a new command, or it
-- begins. The tests are those of the PWM, of the encoder, and whether the mode runs already.
pub data Gate : Type 0 where
  refuse : Result → Gate
  retarget begin : Gate

unfoldable pub gate : Bool → Bool → Bool → Gate
gate false valid running = refuse not_ready
gate true false running = refuse failed
gate true true true = retarget
gate true true false = begin

-- The end of a start after `PrimeFoc`; the controller that was started stops where it fails.
unfoldable pub finish_mode :
    {fl : Floats} → Mode → Readings fl → Motor fl × Bool → Motor fl × Result
finish_mode mode r (m, true) = (go mode r m, ok)
finish_mode mode r (m, false) =
    (switch (λ s. record s { servo_active = false; mit_active = false }) m, failed)

unfoldable pub start_servo_as :
    {fl : Floats} → Gate → ServoCommand fl → Readings fl → Motor fl → Motor fl × Result
start_servo_as (refuse why) command_in r m = (m, why)
start_servo_as retarget command_in r m = (
  call (set_omega r.omega_elec r.velocity_mech) (
      call (set_refs command_in.id_ref_A r.foc_iq_ref_A)
        (call (set_servo (map_command r.position_before_rad command_in)) m)),
  ok,
)
start_servo_as {fl} begin command_in r m = finish_mode servo r (
    prime_foc r.electrical_rad command_in.id_ref_A (fl.lit 0 0) r (
      switch (λ s. record s { servo_active = true })
        (call (start_servo (map_command r.position_rad command_in)) (stop_and_align m))))

-- `StartServo`
unfoldable pub do_start_servo :
    {fl : Floats} → ServoCommand fl → Readings fl → Motor fl → Motor fl × Result
do_start_servo command_in r m =
    let running = is_servo m.on.mode && (m.on.servo_active && m.on.foc_active) in
    start_servo_as (gate r.pwm_init_ok r.encoder_valid running) command_in r m

unfoldable pub start_current_as :
    {fl : Floats} → Gate → fl.F → fl.F → Readings fl → Motor fl → Motor fl × Result
start_current_as (refuse why) id_A iq_A r m = (m, why)
start_current_as retarget id_A iq_A r m =
    (call (set_omega r.omega_elec r.velocity_mech) (call (set_refs id_A iq_A) m), ok)
start_current_as begin id_A iq_A r m =
    finish_mode current r (prime_foc r.electrical_rad id_A iq_A r (stop_and_align m))

-- `StartCurrent`
unfoldable pub do_start_current :
    {fl : Floats} → fl.F → fl.F → Readings fl → Motor fl → Motor fl × Result
do_start_current id_A iq_A r m =
    let running = is_current m.on.mode && m.on.foc_active in
    start_current_as (gate r.pwm_init_ok r.encoder_valid running) id_A iq_A r m

unfoldable pub start_mit_as :
    {fl : Floats} → Gate → MitCommand fl → Readings fl → Motor fl → Motor fl × Result
start_mit_as (refuse why) command r m = (m, why)
start_mit_as {fl} retarget command r m = (
  call (set_omega r.omega_elec r.velocity_mech)
      (call (set_refs (fl.lit 0 0) r.foc_iq_ref_A) (call (set_mit command) m)),
  ok,
)
start_mit_as {fl} begin command r m = finish_mode mit r (
    prime_foc r.electrical_rad (fl.lit 0 0) (fl.lit 0 0) r
      (switch (λ s. record s { mit_active = true }) (call (start_mit command) (stop_and_align m))))

-- `StartMit`
unfoldable pub do_start_mit :
    {fl : Floats} → MitCommand fl → Readings fl → Motor fl → Motor fl × Result
do_start_mit command r m =
    let running = is_mit m.on.mode && (m.on.mit_active && m.on.foc_active) in
    start_mit_as (gate r.pwm_init_ok r.encoder_valid running) command r m
