-- ===== src/App/Loop/Safety.antt =====
-- The order of the calls that act on the power stage, over whole runs of the main loop.
use spcd_actuator.Prelude.{ℕ, suc, true, false, List, [], ◌∷◌, ◌≡◌, ◌⊎◌, arith}
use spcd_actuator.App.Loop.{
  Answers, Application, Call, feed_watchdog, stop_motor, disable_power_stage, persist_pending,
  poll_commands, platform_enter_bootloader, step, run_passes, run_application,
}

-- The newest call of a history.
abbrev pub Newest : Call → List Call → Type 0
Newest c [] = ⊥
Newest c (d ∷ cs) = c ≡ d

abbrev pub NewestTwo : Call → Call → List Call → Type 0
NewestTwo c d [] = ⊥
NewestTwo c d (e ∷ cs) = (c ≡ e) × Newest d cs

-- What may be called right after what (the histories are newest first): a pending flash write and
-- the jump to the bootloader come right after a motor stop, and a command poll that forbids control
-- right after a motor stop and the shutdown of the power stage.
abbrev pub IsGuarded : Call → List Call → Type 0
IsGuarded (persist_pending true) cs = Newest stop_motor cs
IsGuarded (poll_commands false f) cs = NewestTwo disable_power_stage stop_motor cs
IsGuarded disable_power_stage cs = Newest stop_motor cs
IsGuarded platform_enter_bootloader cs = Newest stop_motor cs
IsGuarded (poll_commands true f) cs =
    Newest (persist_pending false) cs ⊎ Newest (persist_pending true) cs
IsGuarded _ cs = Unit {0}

abbrev pub IsSafe : List Call → Type 0
IsSafe [] = Unit {0}
IsSafe (c ∷ cs) = IsGuarded c cs × IsSafe cs

step-IsSafe : (r : Answers) (a : Application) → IsSafe a.calls → IsSafe (step r a).calls
unfolding step
step-IsSafe r a h = ground arith

run_passes-IsSafe :
    (rs : List Answers) (a : Application) → IsSafe a.calls → IsSafe (run_passes rs a).calls
unfolding run_passes
run_passes-IsSafe [] a h = h
run_passes-IsSafe (r ∷ rs) a h =
    ground (arith, step-IsSafe r a h, run_passes-IsSafe rs (step r a) (step-IsSafe r a h))

-- In every run of the program, on any answers of the services: a pending flash write and the jump
-- to the bootloader come right after a motor stop, the power stage is shut down right after one, a
-- command poll that forbids control comes right after both, and a command poll that allows control
-- right after the flash writes are done.
pub run_application-IsSafe : (rs : List Answers) → IsSafe (run_application rs).calls
unfolding run_application
run_application-IsSafe rs = run_passes-IsSafe rs _ (omega arith)

abbrev pub count_feeds : List Call → ℕ
count_feeds [] = 0
count_feeds (feed_watchdog ∷ cs) = suc (count_feeds cs)
count_feeds (_ ∷ cs) = count_feeds cs

-- A pass of the loop feeds the watchdog exactly once, whatever branch it takes.
pub count_feeds-step :
    (r : Answers) (a : Application) → count_feeds (step r a).calls ≡ suc (count_feeds a.calls)
unfolding step
count_feeds-step r a = ground arith
