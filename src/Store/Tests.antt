-- ===== src/Store/Tests.antt =====
-- The theorems on the runtime configuration's store at a concrete flash.
use spcd_actuator.Prelude.{◌+◌, ◌≡◌, true, [], ◌∷◌, ◌++◌, some, refl, arith, replicate, take, drop}
use spcd_actuator.Link.Commands.{RuntimeConfig}
use spcd_actuator.Store.Record.{Driver, load, save, crc_bytes, crc_loop, crc_bits, crc_bit}
use spcd_actuator.Store.RoundTrip.{load-save, save_succeeds}

-- A flash that always works.
abbrev flash : Driver
flash = record {
  erase = λ page. (replicate 2048 255, true);
  program = λ off dw page. (take off page ++ (dw ++ drop (off + 8) page), true);
}

abbrev settings : RuntimeConfig
settings = record {
  motor = replicate 32 1;
  foc = replicate 24 2;
  servo = replicate 48 3;
  encoder = replicate 16 4;
}

-- The check value of this CRC: that of the text 123456789.
crc_check : crc_bytes (49 ∷ 50 ∷ 51 ∷ 52 ∷ 53 ∷ 54 ∷ 55 ∷ 56 ∷ 57 ∷ []) ≡ 3421780262
unfolding crc_bytes crc_loop crc_bits crc_bit
crc_check = refl

save_succeeds_example :
    ((save flash settings []).1 ≡ true) × (load (save flash settings []).0 ≡ some settings)
save_succeeds_example =
    save_succeeds flash settings [] (omega arith) (λ page ok. refl) (λ off dw page ok. refl)
      (λ page. refl) (λ off dw page. refl)

saves : (save flash settings []).1 ≡ true
saves =
    (save_succeeds flash settings [] (omega arith) (λ page ok. refl) (λ off dw page ok. refl)
      (λ page. refl) (λ off dw page. refl)).0

load-save_example : load (save flash settings []).0 ≡ some settings
load-save_example =
    load-save flash settings [] (omega arith) (λ page ok. refl) (λ off dw page ok. refl) saves
