-- ===== src/Snapshot/Invariant.antt =====
-- The invariant of the snapshot service, kept by every operation in any order.
use spcd_actuator.Prelude.{
  ℕ, zero, suc, ◌+◌, ◌*◌, ◌≤◌, ◌<◌, Bool, List, [], ◌∷◌, ◌≡◌, refl, ◌∙◌, arith, length, set,
  length-set,
}
use spcd_actuator.Snapshot.{
  State, idle, capturing, ready, sending, Service, arm, abort, push_row, write_row, poll_send,
  send_frames, channel_count, max_samples, advance, poll_from, frames_per_poll, start_sending,
  other_answers,
}

-- The size of `samples_`.
abbrev pub array_words : ℕ
array_words = 3584

pub record IsValid (s : Service) : Type 0 where
  pub limit : s.target ≤ max_samples
  pub filled : s.count ≤ s.target
  pub room : s.state ≡ capturing → s.count < s.target
  pub sent : s.send_index ≤ s.count
  pub decimating : (0 < s.decimate) × (s.decimate < 256)
  pub ticking : s.decimation_count < s.decimate
  pub array : length s.samples ≡ array_words

pub length-write_row :
    (row : List ℕ) (base : ℕ) (xs : List ℕ) → length (write_row base row xs) ≡ length xs
length-write_row [] base xs = refl
length-write_row (w ∷ ws) base xs =
    length-write_row ws (base + 1) (set xs base w) ∙ length-set xs base w

pub arm-IsValid :
    (sequence n decimate hz : ℕ) {s : Service}
    → decimate < 256
    → IsValid s
    → IsValid (arm sequence n decimate hz s).0
unfolding arm
arm-IsValid sequence n decimate hz h v = ground arith

pub push_row-IsValid :
    (row : List ℕ) (dt : ℕ) (st : State) (s : Service)
    → s.state ≡ st
    → IsValid s
    → IsValid (push_row row dt st s)
unfolding push_row
push_row-IsValid row dt st s e v =
    ground (arith, length-write_row row (s.count * channel_count) s.samples)

pub advance-IsValid : (s : Service) → IsValid s → s.send_index < s.count → IsValid (advance s)
unfolding advance
advance-IsValid s v h = ground arith

pub state-advance : (s : Service) → (advance s).state ≡ s.state
unfolding advance
state-advance s = refl

pub start_sending-IsValid : (s : Service) → IsValid s → IsValid (start_sending s)
start_sending-IsValid s v = ground arith

pub send_frames-IsValid :
    (n : ℕ) (answers : List Bool) (s : Service)
    → IsValid s
    → s.state ≡ sending
    → IsValid (send_frames n answers s).0
unfolding send_frames
send_frames-IsValid zero answers s v e = v
send_frames-IsValid (suc n) answers s v e = ground (
  arith,
  advance-IsValid s v,
  state-advance s,
  send_frames-IsValid n (other_answers answers) (advance s),
)

poll_from-IsValid :
    (st : State) (answers : List Bool) (s : Service)
    → s.state ≡ st
    → IsValid s
    → IsValid (poll_from st answers s).0
unfolding poll_from
poll_from-IsValid idle answers s e v = v
poll_from-IsValid capturing answers s e v = v
poll_from-IsValid ready answers s e v = ground (
  arith,
  send_frames-IsValid frames_per_poll (other_answers answers) (start_sending s)
      (start_sending-IsValid s v),
)
poll_from-IsValid sending answers s e v = send_frames-IsValid frames_per_poll answers s v e

-- What the interrupt and the main loop can ask of the service, in any order. The words of a row and
-- the time step come from the control interrupt.
pub data Op : Type 0 where
  arm_op : ℕ → ℕ → (decimate : ℕ) → decimate < 256 → ℕ → Op
  abort_op : Op
  push_op : List ℕ → ℕ → Op
  poll_op : List Bool → Op

pub apply : Op → Service → Service
apply (arm_op sequence n decimate h hz) s = (arm sequence n decimate hz s).0
apply abort_op s = abort s
apply (push_op row dt) s = push_row row dt s.state s
apply (poll_op answers) s = (poll_send answers s).0

pub apply_all : List Op → Service → Service
apply_all [] s = s
apply_all (op ∷ ops) s = apply_all ops (apply op s)

pub poll_send-IsValid :
    (answers : List Bool) (s : Service) → IsValid s → IsValid (poll_send answers s).0
unfolding poll_send
poll_send-IsValid answers s v = poll_from-IsValid s.state answers s refl v

apply-IsValid : (op : Op) (s : Service) → IsValid s → IsValid (apply op s)
unfolding apply abort
apply-IsValid (arm_op sequence n decimate h hz) s v = arm-IsValid sequence n decimate hz h v
apply-IsValid abort_op s v = ground arith
apply-IsValid (push_op row dt) s v = push_row-IsValid row dt s.state s refl v
apply-IsValid (poll_op answers) s v = poll_send-IsValid answers s v

-- No sequence of operations, of the interrupt and of the main loop in any order, breaks the
-- invariant of the service: the counters stay within the 512 samples, a capture that is running has
-- room for one more, the decimation counter stays below the factor, and the array keeps its size.
pub apply_all-IsValid : (ops : List Op) (s : Service) → IsValid s → IsValid (apply_all ops s)
unfolding apply_all
apply_all-IsValid [] s v = v
apply_all-IsValid (op ∷ ops) s v = apply_all-IsValid ops (apply op s) (apply-IsValid op s v)
