-- ===== src/Boot/Server/Tests.antt =====
-- The command server over a flash that always works.
use spcd_actuator.Prelude.{
  ℕ, ◌+◌, ◌-◌, ◌*◌, ◌/◌, ◌%◌, ◌^◌, ◌≡◌, inl, inr, refl, arith, true, false, ◌&&◌, List, [], ◌∷◌,
  if◌then◌else◌, ltb, leb, get_or, replicate,
}
use spcd_actuator.Boot.Text.{chars}
use spcd_actuator.Boot.Flash.{FlashHw, Outcome, Writer, bank_start, program_byte}
use spcd_actuator.Boot.Flash.Bounds.{IsConfined, IsContained, program_byte-IsContained}
use spcd_actuator.Boot.Server.{Server, CanFrame, steps}
use spcd_actuator.Boot.Server.Memory.{IsStoring, serve_keeps_outside}
use spcd_actuator.Boot.Server.Buffers.{data_frame}

abbrev fine : Outcome
fine = record { busy_polls = 3; errors = 0 }

-- Memory as a function; an erase blanks the page, and programming stores the eight bytes.
abbrev working : FlashHw
working = record {
  Mem = ℕ → ℕ;
  read = λ m a. m a;
  erase = λ bank sector m. (
    λ a.
        if leb (bank_start bank + sector * 2048) a && ltb a (bank_start bank + sector * 2048 + 2048)
        then 255
        else m a,
    fine,
  );
  program = λ address bytes m. (
    λ a. if leb address a && ltb a (address + 8) then get_or bytes (a - address) 255 else m a,
    fine,
  );
  store_word = λ address value m. (λ a.
      if leb address a && ltb a (address + 4) then value / 256 ^ (a - address) % 256 else m a);
}

working-IsConfined : IsConfined working
working-IsConfined = record {
  erase_confined = λ bank sector a m h. ground arith;
  program_confined = λ address a bytes m h. ground arith;
}

working-IsStoring : IsStoring working
unfolding IsStoring
working-IsStoring address value a m (inl h) = ground arith
working-IsStoring address value a m (inr h) = ground arith

abbrev blank : Writer working
blank = record {
  locked = true;
  shadow_start = 0;
  shadow = replicate 8 255;
  shadow_bits = replicate 8 false;
  sectors_erased = replicate 256 false;
  mem = λ a. 17;
}

abbrev server : Server working
server = record {
  id = 1;
  flash = blank;
  session_unlocked = false;
  command = [];
  response = chars "OK\r\n";
}

abbrev session : List CanFrame
session =
    data_frame 1 true (chars "unlock\n")
    ∷ data_frame 1 true (chars "w 8010000 0011\n")
    ∷ data_frame 1 true (chars "w 800C000 0011\n")
    ∷ data_frame 1 true (chars "lock\n")
    ∷ data_frame 1 true (chars "reset\n")
    ∷ []

program_byte-IsContained_example :
    IsContained working blank (program_byte working 0x08010003 9 blank).0
program_byte-IsContained_example =
    program_byte-IsContained working working-IsConfined 0x08010003 9 blank (inl (refl, refl))
      (omega arith) (omega arith)

serve_keeps_outside_example : (steps working session server).flash.mem 0x0800C000 ≡ 17
serve_keeps_outside_example =
    serve_keeps_outside working working-IsConfined working-IsStoring session server 0x0800C000
      (inl (refl, refl)) (inl (omega arith)) (inl (omega arith))
