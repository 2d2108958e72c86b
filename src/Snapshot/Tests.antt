-- ===== src/Snapshot/Tests.antt =====
-- The theorems on the snapshot service at a small capture.
use spcd_actuator.Prelude.{
  ℕ, true, List, [], ◌∷◌, ◌++◌, ◌≡◌, refl, arith, replicate, length, length-replicate,
}
use spcd_actuator.Snapshot.{
  idle, capturing, ready, Service, meta, chunk, arm, push_row, poll_send, fill_meta,
  fill_data_frame, send_frames, poll_from, advance,
}
use spcd_actuator.Snapshot.Invariant.{
  IsValid, arm_op, abort_op, push_op, poll_op, apply_all, apply_all-IsValid,
}
use spcd_actuator.Snapshot.Capture.{captured, every, push_rows, captured-push_rows, captured-arm}
use spcd_actuator.Snapshot.Transmit.{words, todo, poll_send-todo, transmit, transmit_complete}

zeros : List ℕ
zeros = replicate 3584 0

-- The service as the constructor leaves it.
abbrev fresh : Service
fresh = record {
  state = idle;
  sequence = 0;
  target = 0;
  count = 0;
  send_index = 0;
  decimate = 1;
  decimation_count = 0;
  nominal_sample_hz = 15000;
  dt_total_us = 0;
  duration_us = 0;
  samples = zeros;
}

length-zeros : length zeros ≡ 3584
unfolding zeros
length-zeros = length-replicate {A = ℕ} 3584 0

fresh-IsValid : IsValid fresh
fresh-IsValid = ground (arith, length-zeros)

abbrev row : ℕ → List ℕ
row n = replicate 7 n

-- Two samples, of every second row.
abbrev running : Service
running = record fresh { state = capturing; target = 2; decimate = 2 }

running-IsValid : IsValid running
running-IsValid = ground (arith, length-zeros)

abbrev full : Service
full = record fresh { state = ready; target = 2; count = 2; decimate = 2 }

full-IsValid : IsValid full
full-IsValid = ground (arith, length-zeros)

capture_two :
    captured (push_rows 67 (row 1 ∷ row 2 ∷ row 3 ∷ row 4 ∷ row 5 ∷ []) running) ≡ row 2 ++ row 4
unfolding push_rows push_row zeros
capture_two = refl

send_two :
    (poll_send (true ∷ true ∷ []) full).1
    ≡ meta 0 2 7500 127 7 2 0 ∷ chunk 0 0 2 (replicate 28 0) ∷ []
unfolding poll_send poll_from send_frames zeros fill_meta fill_data_frame advance
send_two = refl

apply_all-IsValid_example : IsValid (
    apply_all
      (arm_op 7 2 3 (omega arith) 15000 ∷ push_op (row 1) 67 ∷ poll_op (true ∷ []) ∷ abort_op ∷ [])
      fresh)
apply_all-IsValid_example =
    apply_all-IsValid
      (arm_op 7 2 3 (omega arith) 15000 ∷ push_op (row 1) 67 ∷ poll_op (true ∷ []) ∷ abort_op ∷ [])
      fresh fresh-IsValid

captured-push_rows_example :
    captured (push_rows 67 (row 1 ∷ row 2 ∷ row 3 ∷ []) running)
    ≡ captured running ++ every 2 2 0 (row 1 ∷ row 2 ∷ row 3 ∷ [])
captured-push_rows_example =
    captured-push_rows 67 (row 1 ∷ row 2 ∷ row 3 ∷ []) running running-IsValid refl (omega arith)

captured-arm_example :
    captured (push_rows 67 (row 1 ∷ row 2 ∷ []) (arm 9 600 0 15000 fresh).0)
    ≡ every 512 1 0 (row 1 ∷ row 2 ∷ [])
captured-arm_example =
    captured-arm 67 9 600 0 15000 (row 1 ∷ row 2 ∷ []) fresh fresh-IsValid refl (omega arith)
      (omega arith)

poll_send-todo_example :
    words (poll_send (true ∷ []) full).1 ++ todo (poll_send (true ∷ []) full).0 ≡ todo full
poll_send-todo_example = poll_send-todo (true ∷ []) full full-IsValid

transmit_complete_example :
    ((transmit 9 full).0.state ≡ idle) × (words (transmit 9 full).1 ≡ captured full)
transmit_complete_example = transmit_complete full full-IsValid refl
