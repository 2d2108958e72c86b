-- ===== src/Snapshot.antt =====
-- fw/middleware/inc/middleware/snapshot/snapshot_service.h: capture of PWM-rate samples in the
-- control interrupt, and their transmission from the main loop. An `int16_t` is its bit pattern.
mod Invariant
mod Capture
mod Transmit
mod Tests
use spcd_actuator.Prelude.{
  ℕ, zero, suc, ◌+◌, ◌-◌, ◌*◌, ◌/◌, Bool, true, false, ◌&&◌, List, [], ◌∷◌, ◌++◌, if◌then◌else◌,
  ltb, leb, ◌==◌, u8, u16, u32, u64, set, take, drop, replicate, length,
}
use spcd_actuator.Floats.{Floats}

-- `SnapshotService::State`
pub data State : Type 0 where
  idle capturing ready sending : State

-- `kSnapMaxSamples`, `kSnapChannelCount`, `kSnapSamplesPerFrame`, `kSnapChDefault`
abbrev pub max_samples : ℕ
max_samples = 512

abbrev pub channel_count : ℕ
channel_count = 7

abbrev pub samples_per_frame : ℕ
samples_per_frame = 4

abbrev pub channel_default : ℕ
channel_default = 127

pub record Service : Type 0 where
  pub state : State
  pub sequence : ℕ
  pub target : ℕ
  pub count : ℕ
  pub send_index : ℕ
  pub decimate : ℕ
  pub decimation_count : ℕ
  pub nominal_sample_hz : ℕ
  pub dt_total_us : ℕ
  pub duration_us : ℕ
  pub samples : List ℕ

abbrev pub is_idle : State → Bool
is_idle idle = true
is_idle _ = false

-- `Arm`: the new service and the returned flag.
pub arm : ℕ → ℕ → ℕ → ℕ → Service → Service × Bool
arm sequence sample_count decimate nominal_sample_hz s =
    let wanted = if sample_count == 0 then max_samples else sample_count in
    let clamped = if ltb max_samples wanted then max_samples else wanted in
    if is_idle s.state
    then (
      record s {
        sequence = sequence;
        target = clamped;
        decimate = if decimate == 0 then 1 else decimate;
        nominal_sample_hz = nominal_sample_hz;
        count = 0;
        decimation_count = 0;
        send_index = 0;
        duration_us = 0;
        dt_total_us = 0;
        state = capturing;
      },
      true,
    )
    else (s, false)

pub abort : Service → Service
abort s = record s { state = idle }

-- `ToMilli16`
pub to_milli16 : (fl : Floats) → fl.F → ℕ
to_milli16 fl value =
    let milli = fl.mul value (fl.lit 1000 0) in
    if fl.lt (fl.lit 32767 0) milli
    then 32767
    else if fl.lt milli (fl.neg (fl.lit 32768 0))
    then 32768
    else fl.to_i16 milli

-- The seven writes `row[0] = …; … row[6] = …`, as `words` into the array from `base`.
abbrev pub write_row : ℕ → List ℕ → List ℕ → List ℕ
write_row base [] samples = samples
write_row base (w ∷ ws) samples = write_row (base + 1) ws (set samples base w)

-- `PushIsr` once the row's values are converted: `row` is the seven 16-bit words.
pub push_row : List ℕ → ℕ → State → Service → Service
push_row row dt_us capturing s =
    let tick = u8 (s.decimation_count + 1) in
    let step_us = u32 (dt_us * s.decimate) in
    let written = record s {
      decimation_count = 0;
      samples = write_row (s.count * channel_count) row s.samples;
      duration_us = u32 (s.duration_us + step_us);
      dt_total_us = u64 (s.dt_total_us + step_us);
      count = u16 (s.count + 1);
    } in
    if ltb tick s.decimate
    then record s { decimation_count = tick }
    else if leb s.target written.count
    then record written { state = ready }
    else written
push_row row dt_us _ s = s

-- The seven arguments of `PushIsr` as the words that it stores.
pub row_of : (fl : Floats) → fl.F → fl.F → fl.F → fl.F → fl.F → fl.F → fl.F → List ℕ
unfolding to_milli16
row_of fl id_A iq_A i1_A i2_A i3_A theta_mech_rad theta_elec_rad =
    to_milli16 fl id_A
    ∷ to_milli16 fl iq_A
    ∷ to_milli16 fl i1_A
    ∷ to_milli16 fl i2_A
    ∷ to_milli16 fl i3_A
    ∷ to_milli16 fl theta_mech_rad
    ∷ to_milli16 fl theta_elec_rad
    ∷ []

-- `PushIsr`
pub push_isr :
    (fl : Floats) → fl.F → fl.F → fl.F → fl.F → fl.F → fl.F → fl.F → ℕ → Service → Service
unfolding row_of push_row
push_isr fl id_A iq_A i1_A i2_A i3_A theta_mech_rad theta_elec_rad dt_us s =
    push_row (row_of fl id_A iq_A i1_A i2_A i3_A theta_mech_rad theta_elec_rad) dt_us s.state s

-- What goes out: the meta frame and the data frames, less the header fields that the link fills in.
pub data Frame : Type 0 where
  -- seq, n_samples, sample_hz, channel_mask, channels, decimate, duration_us
  meta : ℕ → ℕ → ℕ → ℕ → ℕ → ℕ → ℕ → Frame
  -- seq, start_index, n, samples
  chunk : ℕ → ℕ → ℕ → List ℕ → Frame

-- `FillMeta`
pub fill_meta : Service → Frame
fill_meta s =
    let average_us = u32 (s.dt_total_us / s.count) in
    let measured = if ltb 0 average_us then 1000000 / average_us else s.nominal_sample_hz in
    let hz =
      if ltb 0 s.count && ltb 0 s.dt_total_us then measured else s.nominal_sample_hz / s.decimate in
    meta s.sequence s.count (u16 hz) channel_default channel_count s.decimate s.duration_us

-- How many samples the next data frame carries.
abbrev pub frame_samples : Service → ℕ
frame_samples s =
    let remaining = u16 (s.count + 65536 - s.send_index) in
    if ltb samples_per_frame remaining then samples_per_frame else u8 remaining

-- `FillDataFrame`: the words of the samples, then zeros up to 28 words.
pub fill_data_frame : Service → Frame
fill_data_frame s =
    let n = frame_samples s in
    let words = n * channel_count in
    chunk s.sequence s.send_index n (
      take words (drop (s.send_index * channel_count) s.samples)
      ++ replicate (samples_per_frame * channel_count - words) 0)

-- The link accepts a frame or not (its FIFO is full): one answer for each attempt to send, and
-- refusal when there are no more answers.
abbrev pub next_answer : List Bool → Bool
next_answer [] = false
next_answer (b ∷ bs) = b

abbrev pub other_answers : List Bool → List Bool
other_answers [] = []
other_answers (b ∷ bs) = bs

-- `send_index_ = static_cast<uint16_t>(send_index_ + frame.n)`
pub advance : Service → Service
advance s = record s { send_index = u16 (s.send_index + frame_samples s) }

-- The `for` loop of `PollSend`, over the frames that may still be sent in this call.
pub send_frames : ℕ → List Bool → Service → Service × List Frame
send_frames zero answers s = (s, [])
send_frames (suc n) answers s =
    let frame = fill_data_frame s in
    let rest = send_frames n (other_answers answers) (advance s) in
    if leb s.count s.send_index
    then (record s { state = idle }, [])
    else if next_answer answers
    then (rest.0, frame ∷ rest.1)
    else (s, [])

-- The bound of the loop.
abbrev pub frames_per_poll : ℕ
frames_per_poll = 16

-- `send_index_ = 0; state_ = State::Sending;`
abbrev pub start_sending : Service → Service
start_sending s = record s { send_index = 0; state = sending }

-- `PollSend`, with a link: the service afterwards and the frames that the link accepted.
pub poll_from : State → List Bool → Service → Service × List Frame
poll_from ready answers s =
    let (s', frames) = send_frames frames_per_poll (other_answers answers) (start_sending s) in
    if next_answer answers then (s', fill_meta s ∷ frames) else (s, [])
poll_from sending answers s = send_frames frames_per_poll answers s
poll_from _ answers s = (s, [])

pub poll_send : List Bool → Service → Service × List Frame
unfolding poll_from
poll_send answers s = poll_from s.state answers s
