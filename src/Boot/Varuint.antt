-- ===== src/Boot/Varuint.antt =====
-- fw/bootloader/src/BL_CommandServer.cc: the variable-length integers of the multiplex protocol.
-- Masks and shifts of 7-bit groups are written by `%`, `/` and `*`; groups put together by `|` do not
-- overlap and are added.
use spcd_actuator.Prelude.{
  ℕ, zero, suc, ◌+◌, ◌*◌, ◌/◌, ◌%◌, ◌≤◌, ◌<◌, Option, none, some, List, [], ◌∷◌, ◌++◌, ◌≡◌, arith,
  if◌then◌else◌, ltb, ◌==◌, u32, length,
}

-- The rounds that a 32-bit value can take: ceil(32 / 7).
abbrev pub varuint_rounds : ℕ
varuint_rounds = 5

-- `WriteVaruint` into a stream with `room` bytes left: the bytes written. `do … while (value)` is on
-- rounds; a value below 2 ^ 32 is 0 after five.
pub write_varuint_rounds : ℕ → ℕ → ℕ → List ℕ
write_varuint_rounds zero room value = []
write_varuint_rounds (suc n) zero value = []
write_varuint_rounds (suc n) (suc room) value =
    let rest = write_varuint_rounds n room (value / 128) in
    if value / 128 == 0 then value % 128 ∷ [] else (value % 128 + 128) ∷ rest

unfoldable pub write_varuint : ℕ → ℕ → List ℕ
unfolding write_varuint_rounds
write_varuint room value = write_varuint_rounds varuint_rounds room value

-- The loop of `ReadVaruint`: the rounds left, the weight 2 ^ pos of the next group, the result so
-- far and the bytes left. The value, if there is one, and the bytes not consumed.
pub read_varuint_rounds : ℕ → ℕ → ℕ → List ℕ → Option ℕ × List ℕ
read_varuint_rounds zero weight result bytes = (some 4294967295, bytes)
read_varuint_rounds (suc n) weight result [] = (none, [])
read_varuint_rounds (suc n) weight result (b ∷ bytes) =
    let result' = u32 (result + b % 128 * weight) in
    let more = read_varuint_rounds n (weight * 128) result' bytes in
    if ltb b 128 then (some result', bytes) else more

unfoldable pub read_varuint : List ℕ → Option ℕ × List ℕ
unfolding read_varuint_rounds
read_varuint bytes = read_varuint_rounds varuint_rounds 1 0 bytes

-- What `WriteVaruint` writes for a 32-bit value, where the stream has room for five bytes,
-- `ReadVaruint` reads back as that value, and it consumes exactly those bytes.
pub read_varuint-write_varuint :
    (room value : ℕ) (rest : List ℕ)
    → 5 ≤ room
    → value < 4294967296
    → read_varuint (write_varuint room value ++ rest) ≡ (some value, rest)
unfolding read_varuint write_varuint
read_varuint-write_varuint (suc (suc (suc (suc (suc room))))) value rest h k = ground arith
read_varuint-write_varuint _ value rest h k = absurd (omega arith)

length-write_varuint_rounds :
    (n room value : ℕ)
    → (length (write_varuint_rounds n room value) ≤ n)
      × (length (write_varuint_rounds n room value) ≤ room)
unfolding write_varuint_rounds
length-write_varuint_rounds zero room value = omega arith
length-write_varuint_rounds (suc n) zero value = omega arith
length-write_varuint_rounds (suc n) (suc room) value =
    ground (arith, length-write_varuint_rounds n room (value / 128))

-- A value takes at most five bytes, and never more than the stream has room for.
pub length-write_varuint :
    (room value : ℕ)
    → (length (write_varuint room value) ≤ 5) × (length (write_varuint room value) ≤ room)
unfolding write_varuint
length-write_varuint room value = length-write_varuint_rounds varuint_rounds room value
