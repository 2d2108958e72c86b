-- ===== src/Boot/Tests.antt =====
-- The number formats of the bootloader at concrete values.
use spcd_actuator.Prelude.{◌≡◌, refl, arith, some, [], ◌∷◌, ◌++◌}
use spcd_actuator.Boot.Varuint.{write_varuint, read_varuint, read_varuint-write_varuint}
use spcd_actuator.Boot.Hex.{uint32_hex}

varuint_300 : write_varuint 10 300 ≡ 172 ∷ 2 ∷ []
unfolding write_varuint
varuint_300 = refl

hex_beef : uint32_hex 0xBEEF ≡ 48 ∷ 48 ∷ 48 ∷ 48 ∷ 66 ∷ 69 ∷ 69 ∷ 70 ∷ []
unfolding uint32_hex
hex_beef = refl

read_varuint-write_varuint_example :
    read_varuint (write_varuint 64 4294967295 ++ (7 ∷ [])) ≡ (some 4294967295, 7 ∷ [])
read_varuint-write_varuint_example =
    read_varuint-write_varuint 64 4294967295 (7 ∷ []) (omega arith) (omega arith)
