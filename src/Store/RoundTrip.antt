-- ===== src/Store/RoundTrip.antt =====
-- A configuration that is saved loads back, and saving succeeds over a flash that works.
use spcd_actuator.Prelude.{
  ℕ, zero, suc, ◌+◌, ◌*◌, ◌≤◌, ◌≡◌, true, List, [], ◌∷◌, ◌++◌, some, arith, length, take, drop,
  replicate, length-append, length-take, length-drop, take-append, drop-append, take-append-drop,
  refl, ap,
}
use mathlib.Core.List.{append_assoc}
use spcd_actuator.Link.Commands.{RuntimeConfig, IsSized}
use spcd_actuator.Store.Record.{record_bytes, load, Driver, program_all, save}
use spcd_actuator.Store.Layout.{length-record_bytes, load-record_bytes}

-- What is documented of the driver: where it reports success, the erased page has its size, and a
-- programmed doubleword stands at its offset with the rest of the page as it was.
abbrev pub KeepsSize : Driver → Type 0
KeepsSize d = (page : List ℕ) → (d.erase page).1 ≡ true → length (d.erase page).0 ≡ 2048

abbrev pub Programs : Driver → Type 0
Programs d =
    (off : ℕ) (dw page : List ℕ)
    → (d.program off dw page).1 ≡ true
    → (d.program off dw page).0 ≡ take off page ++ (dw ++ drop (off + 8) page)

drop-drop : (n m k : ℕ) (xs : List ℕ) → k ≡ m + n → drop n (drop m xs) ≡ drop k xs
drop-drop n zero k xs h = ap (λ j. drop j xs) (let q : n ≡ k = omega arith in q)
drop-drop zero (suc m) k [] h = ground arith
drop-drop (suc n) (suc m) zero [] h = ground arith
drop-drop (suc n) (suc m) (suc k) [] h = refl
drop-drop n (suc m) zero (x ∷ xs) h = elim (let q : ⊥ = omega arith in q) [ ]
drop-drop n (suc m) (suc k) (x ∷ xs) h = drop-drop n m k xs (omega arith)

-- One programmed doubleword, behind the part that is done.
program_round :
    (d : Driver) (done buf rest : List ℕ)
    → Programs d
    → (d.program (length done) (take 8 buf) (done ++ rest)).1 ≡ true
    → (d.program (length done) (take 8 buf) (done ++ rest)).0 ≡ (done ++ take 8 buf) ++ drop 8 rest
program_round d done buf rest hd ok = ground (
  arith,
  hd (length done) (take 8 buf) (done ++ rest) ok,
  take-append done rest (length done) refl,
  drop-append done rest (length done + 8) 8 refl,
  append_assoc done (take 8 buf) (drop 8 rest),
)

-- The bytes after the remaining rounds are the whole buffer and the rest.
round_append :
    (done buf rest : List ℕ)
    → 8 ≤ length buf
    → (done ++ take 8 buf) ++ (drop 8 buf ++ drop (length (drop 8 buf)) (drop 8 rest))
      ≡ done ++ (buf ++ drop (length buf) rest)
round_append done buf rest h = ground (
  arith,
  append_assoc done (take 8 buf) (drop 8 buf ++ drop (length (drop 8 buf)) (drop 8 rest)),
  append_assoc (take 8 buf) (drop 8 buf) (drop (length (drop 8 buf)) (drop 8 rest)),
  take-append-drop 8 buf,
  drop-drop (length (drop 8 buf)) 8 (length buf) rest (omega (arith, length-drop 8 buf)),
  length-drop 8 buf,
)

length-round : (done buf : List ℕ) → 8 ≤ length buf → length (done ++ take 8 buf) ≡ length done + 8
length-round done buf h = omega (arith, length-append done (take 8 buf), length-take 8 buf)

-- The programmed part grows by one doubleword a round.
program_all_lem :
    (d : Driver) (n : ℕ) (done buf rest : List ℕ)
    → Programs d
    → length buf ≡ 8 * n
    → length buf ≤ length rest
    → (program_all d n (length done) buf (done ++ rest)).1 ≡ true
    → (program_all d n (length done) buf (done ++ rest)).0 ≡ done ++ (buf ++ drop (length buf) rest)
unfolding program_all
program_all_lem d zero done [] rest hd e le ok = refl
program_all_lem d zero done (x ∷ buf) rest hd e le ok = elim (let q : ⊥ = omega arith in q) [ ]
program_all_lem d (suc n) done buf rest hd e le ok = ground (
  arith,
  program_round d done buf rest hd,
  length-round done buf (omega arith),
  round_append done buf rest (omega arith),
  program_all_lem d n (done ++ take 8 buf) (drop 8 buf) (drop 8 rest) hd
      (omega (arith, length-drop 8 buf)) (omega (arith, length-drop 8 buf, length-drop 8 rest)),
)

-- A save that returns true leaves a page from which the saved configuration loads, whatever the page
-- held before, for every flash driver that behaves as documented where it reports success.
pub load-save :
    (d : Driver) (c : RuntimeConfig) (page : List ℕ)
    → IsSized c
    → KeepsSize d
    → Programs d
    → (save d c page).1 ≡ true
    → load (save d c page).0 ≡ some c
unfolding save
load-save d c page h hk hp ok =
    let buf = record_bytes c ++ replicate 4 0 in
    let erased = (d.erase page).0 in
    ground (
      arith,
      hk page,
      length-append (record_bytes c) (replicate 4 0),
      length-record_bytes c h,
      program_all_lem d 17 [] buf erased hp,
      append_assoc (record_bytes c) (replicate 4 0) (drop (length buf) erased),
      load-record_bytes c (replicate 4 0 ++ drop (length buf) erased) h,
    )

program_all_succeeds :
    (d : Driver) (n off : ℕ) (buf page : List ℕ)
    → ((off : ℕ) (dw page : List ℕ) → (d.program off dw page).1 ≡ true)
    → (program_all d n off buf page).1 ≡ true
unfolding program_all
program_all_succeeds d zero off buf page h = refl
program_all_succeeds d (suc n) off buf page h = ground (
  arith,
  h off (take 8 buf) page,
  program_all_succeeds d n (off + 8) (drop 8 buf) (d.program off (take 8 buf) page).0 h,
)

-- Where every erase and every programmed doubleword succeeds, a save returns true, and the page that
-- it leaves loads as the saved configuration.
pub save_succeeds :
    (d : Driver) (c : RuntimeConfig) (page : List ℕ)
    → IsSized c
    → KeepsSize d
    → Programs d
    → ((page : List ℕ) → (d.erase page).1 ≡ true)
    → ((off : ℕ) (dw page : List ℕ) → (d.program off dw page).1 ≡ true)
    → ((save d c page).1 ≡ true) × (load (save d c page).0 ≡ some c)
unfolding save
save_succeeds d c page h hk hp erases programs =
    let buf = record_bytes c ++ replicate 4 0 in
    let erased = (d.erase page).0 in
    ground (
      arith,
      hk page,
      erases page,
      program_all_succeeds d 17 0 buf erased programs,
      length-append (record_bytes c) (replicate 4 0),
      length-record_bytes c h,
      program_all_lem d 17 [] buf erased hp,
      append_assoc (record_bytes c) (replicate 4 0) (drop (length buf) erased),
      load-record_bytes c (replicate 4 0 ++ drop (length buf) erased) h,
    )
