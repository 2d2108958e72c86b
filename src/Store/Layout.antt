-- ===== src/Store/Layout.antt =====
-- The parts of a record at their offsets.
use spcd_actuator.Prelude.{
  ℕ, ◌+◌, ◌<◌, ◌≡◌, true, List, ◌++◌, some, arith, length, drop, length-append, take-append,
  drop-append, get_or-append, refl, ◌∙◌,
}
use mathlib.Core.List.{append_assoc}
use spcd_actuator.Link.Protocol.{le32, read_word}
use spcd_actuator.Link.Commands.{RuntimeConfig, IsSized}
use spcd_actuator.Store.Record.{
  record_body, record_bytes, record_size, crc_bytes, is_intact, groups_of, load, store_magic,
  store_version,
}

crc_bytes-lt : (bytes : List ℕ) → crc_bytes bytes < 4294967296
unfolding crc_bytes
crc_bytes-lt bytes = omega arith

length-le32 : (w : ℕ) → length (le32 w) ≡ 4
unfolding le32
length-le32 w = refl

-- Reading a word behind a first part.
read_word-append :
    (xs ys : List ℕ) (n m : ℕ) → n ≡ length xs + m → read_word (xs ++ ys) n ≡ read_word ys m
unfolding read_word
read_word-append xs ys n m h = ground (
  arith,
  get_or-append xs ys n m 0 h,
  get_or-append xs ys (n + 1) (m + 1) 0 (omega arith),
  get_or-append xs ys (n + 2) (m + 2) 0 (omega arith),
  get_or-append xs ys (n + 3) (m + 3) 0 (omega arith),
)

read_word-le32 : (w : ℕ) (rest : List ℕ) → w < 4294967296 → read_word (le32 w ++ rest) 0 ≡ w
unfolding read_word le32
read_word-le32 w rest h = ground arith

read_word-last : (w : ℕ) → w < 4294967296 → read_word (le32 w) 0 ≡ w
unfolding read_word le32
read_word-last w h = ground arith

length-record_body : (c : RuntimeConfig) → IsSized c → length (record_body c) ≡ 128
unfolding record_body le32
length-record_body c h = ground (
  arith,
  length-append c.motor (c.foc ++ (c.servo ++ c.encoder)),
  length-append c.foc (c.servo ++ c.encoder),
  length-append c.servo c.encoder,
)

pub length-record_bytes : (c : RuntimeConfig) → IsSized c → length (record_bytes c) ≡ 132
unfolding record_bytes
length-record_bytes c h = omega (
  arith,
  length-append (record_body c) (le32 (crc_bytes (record_body c))),
  length-record_body c h,
  length-le32 (crc_bytes (record_body c)),
)

-- A record, and what follows it, as its parts in order.
abbrev parts : RuntimeConfig → List ℕ → List ℕ
parts c t =
    le32 store_magic
    ++ (le32 store_version ++ (c.motor ++ (c.foc ++ (c.servo ++ (c.encoder ++ t)))))

record_body-parts : (c : RuntimeConfig) (t : List ℕ) → record_body c ++ t ≡ parts c t
unfolding record_body
record_body-parts c t =
    let e = c.foc ++ (c.servo ++ c.encoder) in
    ground (
      arith,
      append_assoc (le32 store_magic) (le32 store_version ++ (c.motor ++ e)) t,
      append_assoc (le32 store_version) (c.motor ++ e) t,
      append_assoc c.motor e t,
      append_assoc c.foc (c.servo ++ c.encoder) t,
      append_assoc c.servo c.encoder t,
    )

read_word-magic : (c : RuntimeConfig) (t : List ℕ) → read_word (parts c t) 0 ≡ store_magic
read_word-magic c t =
    read_word-le32 store_magic
      (le32 store_version ++ (c.motor ++ (c.foc ++ (c.servo ++ (c.encoder ++ t))))) (omega arith)

read_word-version : (c : RuntimeConfig) (t : List ℕ) → read_word (parts c t) 4 ≡ store_version
read_word-version c t =
    read_word-append (le32 store_magic)
      (le32 store_version ++ (c.motor ++ (c.foc ++ (c.servo ++ (c.encoder ++ t))))) 4 0
      (omega (arith, length-le32 store_magic))
    ∙ read_word-le32 store_version (c.motor ++ (c.foc ++ (c.servo ++ (c.encoder ++ t))))
        (omega arith)

is_intact-record_bytes : (c : RuntimeConfig) → IsSized c → is_intact (record_bytes c) ≡ true
unfolding is_intact record_bytes
is_intact-record_bytes c h =
    let crc = crc_bytes (record_body c) in
    ground (
      arith,
      record_body-parts c (le32 crc),
      read_word-magic c (le32 crc),
      read_word-version c (le32 crc),
      read_word-append (record_body c) (le32 crc) 128 0 (omega (arith, length-record_body c h)),
      read_word-last crc (crc_bytes-lt (record_body c)),
      take-append (record_body c) (le32 crc) 128 (length-record_body c h),
    )

-- The groups stand at their offsets.
module _ (c : RuntimeConfig) (t : List ℕ) (h : IsSized c) where
  drop-header : drop 8 (parts c t) ≡ c.motor ++ (c.foc ++ (c.servo ++ (c.encoder ++ t)))
  unfolding le32
  drop-header = refl

  drop-motor : drop 40 (parts c t) ≡ c.foc ++ (c.servo ++ (c.encoder ++ t))
  unfolding le32
  drop-motor = drop-append c.motor (c.foc ++ (c.servo ++ (c.encoder ++ t))) 32 0 (omega arith)

  drop-foc : drop 64 (parts c t) ≡ c.servo ++ (c.encoder ++ t)
  unfolding le32
  drop-foc =
      drop-append c.motor (c.foc ++ (c.servo ++ (c.encoder ++ t))) 56 24 (omega arith)
      ∙ drop-append c.foc (c.servo ++ (c.encoder ++ t)) 24 0 (omega arith)

  drop-servo : drop 112 (parts c t) ≡ c.encoder ++ t
  unfolding le32
  drop-servo =
      drop-append c.motor (c.foc ++ (c.servo ++ (c.encoder ++ t))) 104 72 (omega arith)
      ∙ drop-append c.foc (c.servo ++ (c.encoder ++ t)) 72 48 (omega arith)
      ∙ drop-append c.servo (c.encoder ++ t) 48 0 (omega arith)

groups_of-record_bytes : (c : RuntimeConfig) → IsSized c → groups_of (record_bytes c) ≡ c
unfolding groups_of record_bytes
groups_of-record_bytes c h =
    let t = le32 (crc_bytes (record_body c)) in
    ground (
      arith,
      record_body-parts c t,
      drop-header c t h,
      drop-motor c t h,
      drop-foc c t h,
      drop-servo c t h,
      take-append c.motor (c.foc ++ (c.servo ++ (c.encoder ++ t))) 32 h.0,
      take-append c.foc (c.servo ++ (c.encoder ++ t)) 24 h.1,
      take-append c.servo (c.encoder ++ t) 48 h.2,
      take-append c.encoder t 16 h.3,
    )

pub load-record_bytes :
    (c : RuntimeConfig) (rest : List ℕ) → IsSized c → load (record_bytes c ++ rest) ≡ some c
unfolding load
load-record_bytes c rest h = ground (
  arith,
  take-append (record_bytes c) rest record_size (length-record_bytes c h),
  is_intact-record_bytes c h,
  groups_of-record_bytes c h,
)
