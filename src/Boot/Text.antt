-- ===== src/Boot/Text.antt =====
-- fw/bootloader/inc/boot_mjlib.h and the buffers of BL_CommandServer.h: text as lists of characters.
use Prim.Native.Char.{code}
use Prim.Native.String.{String}
use spcd_actuator.Prelude.{
  ℕ, suc, ◌+◌, ◌≤◌, ◌≡◌, Bool, true, false, ◌&&◌, ◌||◌, Option, none, some, List, [], ◌∷◌, ◌++◌,
  arith, if◌then◌else◌, leb, ◌==◌, length, length-append, Option-cases, inl, inr,
}

-- The characters of a literal.
abbrev pub chars : String → List ℕ
chars String.[] = []
chars (String.◌∷◌ c s) = code c ∷ chars s

-- `capacity()` of the buffers.
abbrev pub buffer_capacity : ℕ
buffer_capacity = 256

-- `BufferWriteStream::write` behind the `n` bytes of a buffer: all of the text, or nothing.
unfoldable pub write : List ℕ → List ℕ → List ℕ
write text buffer =
    if leb (length buffer + length text) buffer_capacity then buffer ++ text else buffer

-- A buffer that fits its array still fits after a write.
pub length-write :
    (text buffer : List ℕ)
    → length buffer ≤ buffer_capacity
    → length (write text buffer) ≤ buffer_capacity
unfolding write
length-write text buffer h = ground (arith, length-append buffer text)

-- `strchr(" \r\n", c) != nullptr`, which holds of the terminating zero too.
abbrev pub is_delimiter : ℕ → Bool
is_delimiter c = c == 32 || (c == 13 || (c == 10 || c == 0))

-- `Tokenizer::next` at the characters from its position on: the token, and the characters from the
-- new position on.
unfoldable pub next_token : List ℕ → List ℕ × List ℕ
next_token [] = ([], [])
next_token (c ∷ cs) =
    let (token, rest) = next_token cs in if is_delimiter c then ([], cs) else (c ∷ token, rest)

-- `find_first_of("\r\n")`
unfoldable pub find_line_end : List ℕ → Option ℕ
find_line_end [] = none
find_line_end (c ∷ cs) = elim (find_line_end cs) [
  | none ↦ if c == 13 || c == 10 then some 0 else none
  | some i ↦ if c == 13 || c == 10 then some 0 else some (suc i)
]

-- The line end that is found lies inside the text.
pub find_line_end-lt : (cs : List ℕ) {i : ℕ} → find_line_end cs ≡ some i → suc i ≤ length cs
unfolding find_line_end
find_line_end-lt [] h = cc
find_line_end-lt (c ∷ cs) h = elim (Option-cases (find_line_end cs)) [
  | inl e ↦ ground arith
  | inr (j, e) ↦ ground (arith, find_line_end-lt cs e)
]

abbrev pub text_eq : List ℕ → List ℕ → Bool
text_eq [] [] = true
text_eq (a ∷ as') (b ∷ bs) = a == b && text_eq as' bs
text_eq _ _ = false
