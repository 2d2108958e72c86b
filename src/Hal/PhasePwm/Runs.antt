-- ===== src/Hal/PhasePwm/Runs.antt =====
-- Whole runs of the PWM: the duties that reach the timer, and the switches.
use spcd_actuator.Prelude.{
  ℕ, ◌≡◌, refl, sym, ap, ◌∙◌, ◌⊎◌, inl, inr, Bool, true, false, List, [], ◌∷◌, ◌*◌, ◌/◌, ◌%◌, ◌≤◌,
  ◌<◌, ◌==◌, arith,
}
use native.Mathlib.Nat.{mul-le-mul_right}
use spcd_actuator.Hal.PhasePwm.{
  Pwm, clamp_duty, kept_duty, duty_to_ccr, set_duty, stop, reload, configure_timer, init_if, init,
  enable_adc_trigger, disable_adc_trigger, enable_control_isr, disable_control_isr,
}

-- A duty is 0, or leaves the window of the current samples.
abbrev pub IsDuty : ℕ → Type 0
IsDuty d = (d ≡ 0) ⊎ ((50 ≤ d) × (d ≤ 950))

-- The compare register of a duty is that share of the reload value, without a wrap-around.
abbrev pub IsShare : ℕ → ℕ → ℕ → Type 0
IsShare arr d ccr = IsDuty d × (ccr ≡ d * arr / 1000)

kept_duty-IsDuty : (milli : ℕ) → IsDuty (kept_duty milli)
unfolding kept_duty clamp_duty
kept_duty-IsDuty milli = ground arith

IsDuty-le : (d : ℕ) → IsDuty d → d ≤ 950
IsDuty-le d (inl e) = omega arith
IsDuty-le d (inr (l, u)) = u

-- A product that is a 32-bit word, and whose share fits 16 bits.
share_fits : (n : ℕ) → n ≤ 65535 * 950 → n % 4294967296 / 1000 % 65536 ≡ n / 1000
share_fits n h = omega arith

scaled_le : (arr n : ℕ) → arr < 65536 → n ≤ 950 * arr → n ≤ 65535 * 950
scaled_le arr n a h = omega arith

duty_to_ccr-IsShare : (arr d : ℕ) → arr < 65536 → IsDuty d → IsShare arr d (duty_to_ccr arr d)
unfolding duty_to_ccr
duty_to_ccr-IsShare arr d a h =
    (h, share_fits (d * arr) (scaled_le arr (d * arr) a (mul-le-mul_right arr (IsDuty-le d h))))

-- The rate is as configured, the reload value fits the registers, every compare register is the share
-- of its duty, and what the flags say of the timer is so; an update interrupt that is enabled has a
-- handler.
pub record IsSound (rate : ℕ) (p : Pwm) : Type 0 where
  pub same : p.rate_hz ≡ rate
  pub fits : p.arr < 65536
  pub a_share : IsShare p.arr p.duty_a p.timer.ccr1
  pub b_share : IsShare p.arr p.duty_b p.timer.ccr2
  pub c_share : IsShare p.arr p.duty_c p.timer.ccr3
  pub trigger : p.timer.cc4_dma ≡ p.adc_trigger_on
  pub interrupt : p.timer.update_interrupt ≡ p.control_isr_on
  pub handled : p.control_isr_on ≡ true → p.has_handler ≡ true

-- The operations after the construction.
pub data Operation : Type 0 where
  do_init : Operation
  do_set_duty : ℕ → ℕ → ℕ → Operation
  do_stop enable_trigger disable_trigger enable_isr disable_isr : Operation

module _ (pclk1 core_clock : ℕ) where
  unfoldable pub operate : Operation → Pwm → Pwm
  operate do_init p = (init pclk1 core_clock p).0
  operate (do_set_duty a b c) p = set_duty a b c p
  operate do_stop p = stop p
  operate enable_trigger p = enable_adc_trigger p
  operate disable_trigger p = disable_adc_trigger p
  operate enable_isr p = enable_control_isr p
  operate disable_isr p = disable_control_isr p

  unfoldable pub run : List Operation → Pwm → Pwm
  run [] p = p
  run (o ∷ os) p = run os (operate o p)

kept-IsShare :
    (arr milli : ℕ)
    → arr < 65536
    → IsShare arr (kept_duty milli) (duty_to_ccr arr (kept_duty milli))
kept-IsShare arr milli a = duty_to_ccr-IsShare arr _ a (kept_duty-IsDuty milli)

set_duty-IsSound :
    (rate a b c : ℕ) (p : Pwm)
    → p.rate_hz ≡ rate
    → p.arr < 65536
    → p.timer.cc4_dma ≡ p.adc_trigger_on
    → p.timer.update_interrupt ≡ p.control_isr_on
    → (p.control_isr_on ≡ true → p.has_handler ≡ true)
    → IsSound rate (set_duty a b c p)
unfolding set_duty
set_duty-IsSound rate a b c p same fits trigger interrupt handled = record {
  same = same;
  fits = fits;
  a_share = kept-IsShare p.arr a fits;
  b_share = kept-IsShare p.arr b fits;
  c_share = kept-IsShare p.arr c fits;
  trigger = trigger;
  interrupt = interrupt;
  handled = handled;
}

module _ (pclk1 core_clock rate : ℕ) (runs : (rate == 0) ≡ false)
    (bound : reload pclk1 core_clock rate < 65536) where
  fits : (p : Pwm) → p.rate_hz ≡ rate → reload pclk1 core_clock p.rate_hz < 65536
  fits p same = rw same bound

  init_if-IsSound :
      (b : Bool) (p : Pwm)
      → b ≡ false
      → p.rate_hz ≡ rate
      → p.control_isr_on ≡ false
      → p.adc_trigger_on ≡ false
      → IsSound rate (init_if b pclk1 core_clock p).0
  unfolding init_if set_duty configure_timer
  init_if-IsSound true p e same isr adc = cc
  init_if-IsSound false p e same isr adc = record {
    same = same;
    fits = fits p same;
    a_share = kept-IsShare _ 0 (fits p same);
    b_share = kept-IsShare _ 0 (fits p same);
    c_share = kept-IsShare _ 0 (fits p same);
    trigger = sym adc;
    interrupt = sym isr;
    handled = λ h. cc;
  }

  init-IsSound : (p : Pwm) → p.rate_hz ≡ rate → IsSound rate (init pclk1 core_clock p).0
  unfolding init
  init-IsSound p same = init_if-IsSound _ _ (ap (λ r. r == 0) same ∙ runs) same refl refl

  operate-IsSound :
      (o : Operation) (p : Pwm) → IsSound rate p → IsSound rate (operate pclk1 core_clock o p)
  unfolding operate stop enable_adc_trigger disable_adc_trigger enable_control_isr
      disable_control_isr
  operate-IsSound do_init p h = init-IsSound p h.same
  operate-IsSound (do_set_duty a b c) p h =
      set_duty-IsSound rate a b c p h.same h.fits h.trigger h.interrupt h.handled
  operate-IsSound do_stop p h =
      set_duty-IsSound rate 0 0 0 p h.same h.fits h.trigger h.interrupt h.handled
  operate-IsSound enable_trigger p h = record {
    same = h.same;
    fits = h.fits;
    a_share = h.a_share;
    b_share = h.b_share;
    c_share = h.c_share;
    trigger = refl;
    interrupt = h.interrupt;
    handled = h.handled;
  }
  operate-IsSound disable_trigger p h = record {
    same = h.same;
    fits = h.fits;
    a_share = h.a_share;
    b_share = h.b_share;
    c_share = h.c_share;
    trigger = refl;
    interrupt = h.interrupt;
    handled = h.handled;
  }
  operate-IsSound enable_isr p h = record {
    same = h.same;
    fits = h.fits;
    a_share = h.a_share;
    b_share = h.b_share;
    c_share = h.c_share;
    trigger = h.trigger;
    interrupt = refl;
    handled = λ e. refl;
  }
  operate-IsSound disable_isr p h = record {
    same = h.same;
    fits = h.fits;
    a_share = h.a_share;
    b_share = h.b_share;
    c_share = h.c_share;
    trigger = h.trigger;
    interrupt = refl;
    handled = λ e. cc;
  }

  -- For a rate that is not 0 and clocks whose reload value fits 16 bits, in every run of the PWM each
  -- duty is 0 or between 50 and 950 thousandths, each compare register is that share of the reload
  -- value with no wrap-around, the trigger and the interrupt are enabled exactly where the flags say
  -- so, and an interrupt that is enabled has a handler.
  pub run-IsSound :
      (os : List Operation) (p : Pwm) → IsSound rate p → IsSound rate (run pclk1 core_clock os p)
  unfolding run
  run-IsSound [] p h = h
  run-IsSound (o ∷ os) p h = run-IsSound os (operate pclk1 core_clock o p) (operate-IsSound o p h)
