-- ===== src/Identify/Ending.antt =====
-- When a sweep ends, and with what.
use spcd_actuator.Prelude.{
  ℕ, suc, ◌+◌, ◌≤◌, ◌<◌, ◌≡◌, inl, inr, refl, ap, ◌∙◌, Bool, true, false, List, [], ◌∷◌, ltb, leb,
  arith, Bool-cases, u8, if◌then◌else◌,
}
use spcd_actuator.Floats.{Floats}
use spcd_actuator.Identify.Sweep.{
  running, is_running, is_done, Options, Session, Kind, clamp_points, time_after, is_over, start,
  finish_if, finish, go_on, count_point, end_point, take_sample, step_over, step_if, step,
}

below : (i n : ℕ) → i < n → ltb (i + 0) n ≡ true
below i n h = ground arith

not_below : (i n x : ℕ) → n ≤ i + 1 → ltb (i + suc x) n ≡ false
not_below i n x h = ground arith

next_reached : (i x : ℕ) → i < 255 → i + suc x ≡ u8 (i + 1) + x
next_reached i x h = omega arith

next_below : (i n : ℕ) → i < 255 → leb n (u8 (i + 1)) ≡ false → u8 (i + 1) < n
next_below i n h e = ground arith

clamp_points_lem : (n : ℕ) → (3 ≤ clamp_points n) × (clamp_points n ≤ 8)
unfolding clamp_points
clamp_points_lem n = ground arith

zero_add : (n : ℕ) → n ≡ 0 + n
zero_add n = omega arith

module _ {fl : Floats} {P M : Type 0} (k : Kind fl P M) where
  -- Steps one after the other: the session, and how many of them reported its end.
  unfoldable pub run : List (fl.F × M) → Session fl P → Session fl P × ℕ
  run [] s = (s, 0)
  run ((dt_s, m) ∷ ms) s =
      let (next, ended) = step k dt_s m s in
      let (last, ends) = run ms next in (last, if ended then suc ends else ends)

  -- The points that the times of the steps end, whatever the session does.
  unfoldable pub points : Options fl → fl.F → List (fl.F × M) → ℕ
  points o elapsed_s [] = 0
  points o elapsed_s ((dt_s, m) ∷ ms) =
      let next = time_after fl elapsed_s dt_s in
      let same = points o next ms in
      let other = points o (fl.lit 0 0) ms in if is_over o next then suc other else same

  run_cons :
      (dt_s : fl.F) (m : M) (ms : List (fl.F × M)) (s next : Session fl P) (ended : Bool)
      → step k dt_s m s ≡ (next, ended)
      → run ((dt_s, m) ∷ ms) s
        ≡ ((run ms next).0, if ended then suc (run ms next).1 else (run ms next).1)
  unfolding run
  run_cons dt_s m ms s next ended e = rw e refl

  -- The three outcomes of a step of a session that runs, and that of one that does not.
  step_ended :
      (dt_s : fl.F) (m : M) (s : Session fl P)
      → is_running s.state ≡ false
      → step k dt_s m s ≡ (s, false)
  unfolding step step_if
  step_ended dt_s m s r = ap (λ b. step_if k b dt_s m s) r

  step_same :
      (dt_s : fl.F) (m : M) (s : Session fl P)
      → s.state ≡ running
      → is_over s.options (time_after fl s.elapsed_s dt_s) ≡ false
      → step k dt_s m s ≡ (take_sample k dt_s m s, false)
  unfolding step step_if step_over take_sample
  step_same dt_s m s r h =
      ap (λ t. step_if k (is_running t) dt_s m s) r
      ∙ ap (λ b. step_over k b (take_sample k dt_s m s)) h

  step_end :
      (dt_s : fl.F) (m : M) (s : Session fl P) (last : Bool)
      → s.state ≡ running
      → is_over s.options (time_after fl s.elapsed_s dt_s) ≡ true
      → leb s.options.n_points (u8 (s.point_idx + 1)) ≡ last
      → step k dt_s m s ≡ go_on last (count_point k (take_sample k dt_s m s))
  unfolding step step_if step_over take_sample end_point count_point
  step_end dt_s m s last r h e =
      ap (λ t. step_if k (is_running t) dt_s m s) r
      ∙ ap (λ b. step_over k b (take_sample k dt_s m s)) h
      ∙ ap (λ b. go_on b (count_point k (take_sample k dt_s m s))) e

  run_ended :
      (ms : List (fl.F × M)) (s : Session fl P) → is_running s.state ≡ false → run ms s ≡ (s, 0)
  unfolding run
  run_ended [] s h = refl
  run_ended ((dt_s, m) ∷ ms) s h =
      run_cons dt_s m ms s s false (step_ended dt_s m s h) ∙ run_ended ms s h

  finish_if-Ended :
      (b : Bool) (s : Session fl P)
      → (is_running (finish_if b s).state ≡ false)
        × ((finish_if b s).result.ok ≡ is_done (finish_if b s).state)
  unfolding finish_if
  finish_if-Ended true s = (refl, refl)
  finish_if-Ended false s = (refl, refl)

  finish-Ended :
      (s : Session fl P)
      → (is_running (finish s).state ≡ false) × ((finish s).result.ok ≡ is_done (finish s).state)
  unfolding finish
  finish-Ended s = finish_if-Ended _ s

  -- The number of points that ended, with those before the steps.
  abbrev reached : List (fl.F × M) → Session fl P → ℕ
  reached ms s = s.point_idx + points s.options s.elapsed_s ms

  abbrev pub Ends : ℕ → ℕ → Session fl P × ℕ → Type 0
  Ends n n_points (s, ends) =
      (is_running s.state ≡ ltb n n_points)
      × (ends ≡ (if ltb n n_points then 0 else 1))
      × (s.result.ok ≡ is_done s.state)

  abbrev Runs : Session fl P → Type 0
  Runs s =
      (s.state ≡ running)
      × (s.result.ok ≡ false)
      × (s.point_idx < s.options.n_points)
      × (s.options.n_points ≤ 8)

  points_over :
      (o : Options fl) (elapsed_s dt_s : fl.F) (m : M) (ms : List (fl.F × M)) (b : Bool)
      → is_over o (time_after fl elapsed_s dt_s) ≡ b
      → points o elapsed_s ((dt_s, m) ∷ ms)
        ≡ (if b then suc (points o (fl.lit 0 0) ms) else points o (time_after fl elapsed_s dt_s) ms)
  unfolding points
  points_over o elapsed_s dt_s m ms b e = rw e refl

  along :
      {n n' : ℕ} {x x' : Session fl P × ℕ} (n_points : ℕ)
      → n' ≡ n
      → x' ≡ x
      → Ends n n_points x
      → Ends n' n_points x'
  along n_points e f h = rw e (rw f h)

  -- A session that ended in the step.
  ended-Ends :
      (i n n_points : ℕ) (s : Session fl P)
      → n_points ≤ i + 1
      → (is_running s.state ≡ false) × (s.result.ok ≡ is_done s.state)
      → Ends (i + suc n) n_points (s, 1)
  ended-Ends i n n_points s h (r, o) = rw (not_below i n_points n h) (r, refl, o)

  none-Ends : (s : Session fl P) → Runs s → Ends (reached [] s) s.options.n_points (run [] s)
  unfolding run points
  none-Ends s (r, o, l, n) = rw (below s.point_idx s.options.n_points l) (rw r (refl, refl, o))

  run-Ends :
      (ms : List (fl.F × M)) (s : Session fl P)
      → Runs s
      → Ends (reached ms s) s.options.n_points (run ms s)
  unfolding take_sample count_point go_on
  run-Ends [] s h = none-Ends s h
  run-Ends ((dt_s, m) ∷ ms) s (r, o, l, n) =
      elim (Bool-cases (is_over s.options (time_after fl s.elapsed_s dt_s))) [
        | inr same ↦
            along s.options.n_points
              (ap (λ p. s.point_idx + p) (points_over s.options s.elapsed_s dt_s m ms false same))
              (run_cons dt_s m ms s _ false (step_same dt_s m s r same))
              (run-Ends ms (take_sample k dt_s m s) (r, o, l, n))
        | inl over ↦
            let counted =
              ap (λ p. s.point_idx + p) (points_over s.options s.elapsed_s dt_s m ms true over) in
            elim (Bool-cases (leb s.options.n_points (u8 (s.point_idx + 1)))) [
              | inl last ↦
                  let next = finish (count_point k (take_sample k dt_s m s)) in
                  let ended = finish-Ended (count_point k (take_sample k dt_s m s)) in
                  along s.options.n_points counted
                    (run_cons dt_s m ms s next true (step_end dt_s m s true r over last)
                      ∙ ap (λ (t : Session fl P × ℕ). (t.0, suc t.1)) (run_ended ms next ended.0))
                    (ended-Ends s.point_idx _ s.options.n_points next (ground arith) ended)
              | inr more ↦
                  along s.options.n_points
                    (counted
                      ∙ next_reached s.point_idx (points s.options (fl.lit 0 0) ms) (omega arith))
                    (run_cons dt_s m ms s _ false (step_end dt_s m s false r over more))
                    (run-Ends ms (count_point k (take_sample k dt_s m s))
                      (r, o, next_below s.point_idx s.options.n_points (omega arith) more, n))
            ]
      ]

  -- A session sweeps over 3 to 8 points. Over any steps after its start it runs exactly as long as
  -- the times of the steps have ended fewer points than that; one step reports the end where they
  -- have, and none before; and the result is good exactly when the session is done.
  pub start-Ends :
      (o : Options fl) (ms : List (fl.F × M))
      → (3 ≤ clamp_points o.n_points)
        × (clamp_points o.n_points ≤ 8)
        × Ends
            (points (start k o).options (fl.lit 0 0) ms)
            (clamp_points o.n_points)
            (run ms (start k o))
  unfolding start
  start-Ends o ms =
      let (low, high) = clamp_points_lem o.n_points in
      (
        low,
        high,
        along {x = run ms (start k o)} (clamp_points o.n_points) (zero_add _) refl
            (run-Ends ms (start k o) (refl, refl, omega arith, high)),
      )
