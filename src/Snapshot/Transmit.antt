-- ===== src/Snapshot/Transmit.antt =====
-- What `PollSend` puts on the link: the captured words, in order, each once, whatever frames the
-- link refuses on the way; and how soon a link that accepts all is done.
use spcd_actuator.Prelude.{
  ℕ, zero, suc, ◌+◌, ◌-◌, ◌*◌, ◌≤◌, ◌<◌, min, Bool, true, List, [], ◌∷◌, ◌++◌, ◌≡◌, refl, sym, ap,
  ◌∙◌, arith, length, take, drop, replicate, ◌⊎◌, inl, length-take, length-drop,
}
use mathlib.Core.List.{append_assoc, append-nil}
use spcd_actuator.Snapshot.{
  State, idle, capturing, ready, sending, Service, Frame, meta, chunk, channel_count,
  samples_per_frame, frame_samples, fill_meta, fill_data_frame, advance, send_frames, other_answers,
  frames_per_poll, start_sending, poll_from, poll_send,
}
use spcd_actuator.Snapshot.Invariant.{
  IsValid, poll_send-IsValid, advance-IsValid, state-advance, start_sending-IsValid,
}
use spcd_actuator.Snapshot.Capture.{captured}

-- The sample words of frames, without the zeros that fill the last one up.
abbrev pub words : List Frame → List ℕ
words [] = []
words (meta a b c d e f g ∷ fs) = words fs
words (chunk a b n samples ∷ fs) = take (n * channel_count) samples ++ words fs

-- The captured words that are still to be sent.
abbrev pub unsent : Service → List ℕ
unsent s = drop (s.send_index * channel_count) (captured s)

take-append_of_le : (n : ℕ) (xs ys : List ℕ) → n ≤ length xs → take n (xs ++ ys) ≡ take n xs
take-append_of_le zero xs ys h = refl
take-append_of_le (suc n) [] ys h = absurd (omega arith)
take-append_of_le (suc n) (x ∷ xs) ys h = ap (λ t. x ∷ t) (take-append_of_le n xs ys (omega arith))

take-take_self : (n : ℕ) (xs : List ℕ) → take n (take n xs) ≡ take n xs
take-take_self zero xs = refl
take-take_self (suc n) [] = refl
take-take_self (suc n) (x ∷ xs) = ap (λ t. x ∷ t) (take-take_self n xs)

take-take_split : (n m : ℕ) (xs : List ℕ) → n ≤ m → take m xs ≡ take n xs ++ drop n (take m xs)
take-take_split zero m xs h = refl
take-take_split (suc n) zero xs h = absurd (omega arith)
take-take_split (suc n) (suc m) [] h = refl
take-take_split (suc n) (suc m) (x ∷ xs) h = ap (λ t. x ∷ t) (take-take_split n m xs (omega arith))

drop-nil : (k : ℕ) → drop {A = ℕ} k [] ≡ []
drop-nil zero = refl
drop-nil (suc k) = refl

take-nil : (k : ℕ) → take {A = ℕ} k [] ≡ []
take-nil zero = refl
take-nil (suc k) = refl

-- Words i to k = i + n of a prefix of length m, and then the rest of the prefix.
drop-take_split :
    (i n k m : ℕ) (xs : List ℕ)
    → k ≡ i + n
    → k ≤ m
    → drop i (take m xs) ≡ take n (drop i xs) ++ drop k (take m xs)
drop-take_split zero n k m xs e h =
    rw (let p : k ≡ n = omega arith in p) (take-take_split n m xs (omega arith))
drop-take_split (suc i) n zero m xs e h = absurd (omega arith)
drop-take_split (suc i) n (suc k) zero xs e h = absurd (omega arith)
drop-take_split (suc i) n (suc k) (suc m) [] e h = rw take-nil
drop-take_split (suc i) n (suc k) (suc m) (x ∷ xs) e h =
    drop-take_split i n k m xs (omega arith) (omega arith)

send_index-advance :
    (s : Service)
    → IsValid s
    → s.send_index < s.count
    → ((advance s).send_index ≡ s.send_index + frame_samples s)
      × (s.send_index + frame_samples s ≤ s.count)
      × (frame_samples s ≡ min samples_per_frame (s.count - s.send_index))
unfolding advance
send_index-advance s v h = ground arith

-- A data frame carries the next words, and its fill counts for nothing.
words-fill_data_frame :
    (s : Service) (fs : List Frame)
    → IsValid s
    → s.send_index < s.count
    → words (fill_data_frame s ∷ fs)
      ≡ take (frame_samples s * channel_count) (drop (s.send_index * channel_count) s.samples)
        ++ words fs
unfolding fill_data_frame
words-fill_data_frame s fs v h =
    ap (λ t. t ++ words fs)
      (take-append_of_le n (take n rest) (replicate (28 - n) 0)
          (omega (arith, length-take n rest, length-drop i s.samples, send_index-advance s v h))
        ∙ take-take_self n rest)
  where
    n : ℕ
    n = frame_samples s * channel_count

    i : ℕ
    i = s.send_index * channel_count

    rest : List ℕ
    rest = drop i s.samples

unsent-advance :
    (s : Service)
    → IsValid s
    → s.send_index < s.count
    → unsent s
      ≡ take (frame_samples s * channel_count) (drop (s.send_index * channel_count) s.samples)
        ++ unsent (advance s)
unfolding advance
unsent-advance s v h =
    drop-take_split (s.send_index * channel_count) (frame_samples s * channel_count)
      ((advance s).send_index * channel_count) (s.count * channel_count) s.samples
      (omega (arith, send_index-advance s v h)) (omega (arith, send_index-advance s v h))

count-advance : (s : Service) → (advance s).count ≡ s.count
unfolding advance
count-advance s = refl

send_frames-unsent :
    (n : ℕ) (answers : List Bool) (s : Service)
    → IsValid s
    → s.state ≡ sending
    → words (send_frames n answers s).1 ++ unsent (send_frames n answers s).0 ≡ unsent s
unfolding send_frames
send_frames-unsent zero answers s v e = refl
send_frames-unsent (suc n) answers s v e = ground (
  arith,
  advance-IsValid s v,
  state-advance s,
  send_frames-unsent n (other_answers answers) (advance s),
  unsent-advance s v,
  words-fill_data_frame s (send_frames n (other_answers answers) (advance s)).1 v,
  append_assoc
      (take (frame_samples s * channel_count) (drop (s.send_index * channel_count) s.samples))
      (words (send_frames n (other_answers answers) (advance s)).1)
      (unsent (send_frames n (other_answers answers) (advance s)).0),
)

drop-take_all : (i k : ℕ) (xs : List ℕ) → k ≤ i → drop i (take k xs) ≡ []
drop-take_all i zero xs h = drop-nil i
drop-take_all zero (suc k) xs h = absurd (omega arith)
drop-take_all (suc i) (suc k) [] h = refl
drop-take_all (suc i) (suc k) (x ∷ xs) h = drop-take_all i k xs (omega arith)

unsent_done : (s : Service) → s.count ≤ s.send_index → unsent s ≡ []
unsent_done s h =
    drop-take_all (s.send_index * channel_count) (s.count * channel_count) s.samples (omega arith)

-- How the loop ends: still sending, or idle with nothing left to send; and the count stays.
send_frames-state :
    (n : ℕ) (answers : List Bool) (s : Service)
    → s.state ≡ sending
    → let t = (send_frames n answers s).0 in
      (t.count ≡ s.count) × ((t.state ≡ sending) ⊎ ((t.state ≡ idle) × (t.count ≤ t.send_index)))
unfolding send_frames
send_frames-state zero answers s e = (refl, inl e)
send_frames-state (suc n) answers s e = ground (
  arith,
  state-advance s,
  count-advance s,
  send_frames-state n (other_answers answers) (advance s),
)

-- The captured words that the link has not taken yet, in each state.
abbrev pub todo_at : State → Service → List ℕ
todo_at idle s = []
todo_at sending s = unsent s
todo_at _ s = captured s

abbrev pub todo : Service → List ℕ
todo s = todo_at s.state s

send_frames-todo :
    (n : ℕ) (answers : List Bool) (s : Service)
    → IsValid s
    → s.state ≡ sending
    → words (send_frames n answers s).1 ++ todo (send_frames n answers s).0 ≡ unsent s
send_frames-todo n answers s v e = ground (
  arith,
  send_frames-unsent n answers s v e,
  send_frames-state n answers s e,
  unsent_done (send_frames n answers s).0,
)

poll_from-todo :
    (st : State) (answers : List Bool) (s : Service)
    → s.state ≡ st
    → IsValid s
    → words (poll_from st answers s).1 ++ todo (poll_from st answers s).0 ≡ todo s
unfolding poll_from fill_meta
poll_from-todo idle answers s e v = refl
poll_from-todo capturing answers s e v = refl
poll_from-todo sending answers s e v =
    ground (arith, send_frames-todo frames_per_poll answers s v e)
poll_from-todo ready answers s e v = ground (
  arith,
  send_frames-todo frames_per_poll (other_answers answers) (start_sending s)
      (start_sending-IsValid s v) refl,
)

-- Whatever frames the link refuses: the words that one call of `PollSend` sends, and then those that
-- it leaves to later calls, are the words that were to be sent before. Nothing is lost, repeated or
-- reordered, and the service is idle only when nothing is left.
pub poll_send-todo :
    (answers : List Bool) (s : Service)
    → IsValid s
    → words (poll_send answers s).1 ++ todo (poll_send answers s).0 ≡ todo s
unfolding poll_send
poll_send-todo answers s v = poll_from-todo s.state answers s refl v

-- A link that accepts every frame of a call.
abbrev pub accepting : List Bool
accepting = replicate 17 true

pub transmit : ℕ → Service → Service × List Frame
transmit zero s = (s, [])
transmit (suc k) s =
    let (s', frames) = poll_send accepting s in
    let (s'', later) = transmit k s' in (s'', frames ++ later)

send_frames_progress :
    (n m : ℕ) (s : Service)
    → n ≤ m
    → IsValid s
    → s.state ≡ sending
    → let t = (send_frames n (replicate m true) s).0 in
      (t.state ≡ idle)
      ⊎ ((t.state ≡ sending)
          × (t.count - t.send_index ≤ s.count - s.send_index - 4 * n)
          × ((n ≡ 0) ⊎ (s.send_index < s.count)))
unfolding send_frames
send_frames_progress zero m s h v e = ground arith
send_frames_progress (suc n) zero s h v e = absurd (omega arith)
send_frames_progress (suc n) (suc m) s h v e = ground (
  arith,
  advance-IsValid s v,
  state-advance s,
  count-advance s,
  send_index-advance s v,
  send_frames_progress n m (advance s),
)

poll_send_ready :
    (s : Service)
    → IsValid s
    → s.state ≡ ready
    → let t = (poll_send accepting s).0 in
      (t.state ≡ idle) ⊎ ((t.state ≡ sending) × (t.count - t.send_index ≤ 448))
unfolding poll_send poll_from
poll_send_ready s v e = ground (
  arith,
  send_frames_progress frames_per_poll 16 (start_sending s) (omega arith)
      (start_sending-IsValid s v) refl,
)

poll_send_sending :
    (s : Service)
    → IsValid s
    → s.state ≡ sending
    → let t = (poll_send accepting s).0 in
      (t.state ≡ idle)
      ⊎ ((t.state ≡ sending)
          × (t.count - t.send_index ≤ s.count - s.send_index - 64)
          × (s.send_index < s.count))
unfolding poll_send poll_from
poll_send_sending s v e =
    ground (arith, send_frames_progress frames_per_poll 17 s (omega arith) v e)

poll_send_idle : (s : Service) → s.state ≡ idle → poll_send accepting s ≡ (s, [])
unfolding poll_send poll_from
poll_send_idle s e = ground arith

transmit_idle : (k : ℕ) (s : Service) → s.state ≡ idle → (transmit k s).0.state ≡ idle
unfolding transmit
transmit_idle zero s e = e
transmit_idle (suc k) s e = ground (arith, poll_send_idle s e, transmit_idle k s e)

transmit_sending :
    (k : ℕ) (s : Service)
    → IsValid s
    → s.state ≡ sending
    → s.count - s.send_index ≤ 64 * k
    → (transmit (suc k) s).0.state ≡ idle
unfolding transmit
transmit_sending zero s v e h = ground (arith, poll_send_sending s v e)
transmit_sending (suc k) s v e h = ground (
  arith,
  poll_send_sending s v e,
  transmit_idle (suc k) (poll_send accepting s).0,
  transmit_sending k (poll_send accepting s).0 (poll_send-IsValid accepting s v),
)

transmit_ready : (s : Service) → IsValid s → s.state ≡ ready → (transmit 9 s).0.state ≡ idle
unfolding transmit
transmit_ready s v e = ground (
  arith,
  poll_send_ready s v e,
  transmit_idle 8 (poll_send accepting s).0,
  transmit_sending 7 (poll_send accepting s).0 (poll_send-IsValid accepting s v),
)

words-append : (fs gs : List Frame) → words (fs ++ gs) ≡ words fs ++ words gs
words-append [] gs = refl
words-append (meta a b c d e f g ∷ fs) gs = words-append fs gs
words-append (chunk a b n xs ∷ fs) gs =
    rw (words-append fs gs) (sym (append_assoc (take (n * channel_count) xs) (words fs) (words gs)))

transmit-todo :
    (k : ℕ) (s : Service) → IsValid s → words (transmit k s).1 ++ todo (transmit k s).0 ≡ todo s
unfolding transmit
transmit-todo zero s v = refl
transmit-todo (suc k) s v = ground (
  arith,
  poll_send-todo accepting s v,
  transmit-todo k (poll_send accepting s).0 (poll_send-IsValid accepting s v),
  words-append (poll_send accepting s).1 (transmit k (poll_send accepting s).0).1,
  append_assoc (words (poll_send accepting s).1) (words (transmit k (poll_send accepting s).0).1)
      (todo (transmit k (poll_send accepting s).0).0),
)

-- Over a link that accepts every frame, nine calls of `PollSend` are enough for any capture that is
-- ready: the service is idle again, and the frames carry the captured words, all of them and in
-- order.
pub transmit_complete :
    (s : Service)
    → IsValid s
    → s.state ≡ ready
    → ((transmit 9 s).0.state ≡ idle) × (words (transmit 9 s).1 ≡ captured s)
transmit_complete s v e =
    (idles, ground (arith, idles, transmit-todo 9 s v, append-nil (words (transmit 9 s).1)))
  where
    idles : (transmit 9 s).0.state ≡ idle
    idles = transmit_ready s v e
