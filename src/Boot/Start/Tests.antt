-- ===== src/Boot/Start/Tests.antt =====
-- The boot machine at concrete vectors.
use spcd_actuator.Prelude.{◌≡◌, refl, true, none}
use spcd_actuator.Boot.Start.{Vectors, serve, vectors_ok, passes, reset, boot_magic_value}
use spcd_actuator.Boot.Start.Decision.{boot_lem}

abbrev app_vectors : Vectors
app_vectors = record { sp = 0x20020000; pc = 0x08010401 }

app_vectors_ok : vectors_ok app_vectors ≡ true
unfolding vectors_ok
app_vectors_ok = refl

boot_lem_example :
    passes 5 app_vectors (reset boot_magic_value)
    ≡ record { state = serve; magic = 0; irq_disabled = true; entered = none }
boot_lem_example = boot_lem 1 boot_magic_value app_vectors
