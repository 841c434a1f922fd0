-- ===== src/Wal/Append.antt =====
-- Histories of appends by `WriteWAL`, on disks that may fail, and what is recovered after them.
use viperblock.Prelude.{
  ℕ, zero, suc, ◌<◌, ◌≡◌, refl, sym, ap, ◌∙◌, true, false, List, [], ◌∷◌, ◌++◌, arith, length, take,
  append_assoc, append_nil, take-append,
}
use viperblock.Bytes.{Bytes}
use viperblock.Store.Census.{Block}
use viperblock.Wal.{
  Config, Disk, Outcome, Segment, Recovered, wal_header, wal_record, write_wal,
  read_wal_file_for_recovery,
}
use viperblock.Wal.Records.{IsConfig, IsLoggable, AllLoggable, wal_records}
use viperblock.Wal.Bodies.{max_seq, reliable, record_size}
use viperblock.Wal.Recovery.{recover-wal_records}

-- the block of an append, where it was acknowledged

unfoldable pub acknowledged : Outcome → Block → List Block
acknowledged Outcome.done block = block ∷ []
acknowledged Outcome.stat_failed block = []
acknowledged Outcome.rolled_back block = []
acknowledged Outcome.torn block = []

-- The segment after some appends, and the blocks acknowledged.
unfoldable pub run_appends : Config → List (Disk × Block) → Segment → Segment × List Block
run_appends vb [] wal = (wal, [])
run_appends vb ((disk, block) ∷ rest) wal =
    let (after, outcome) = write_wal vb disk block wal in
    let (last, blocks) = run_appends vb rest after in (last, acknowledged outcome block ++ blocks)

-- Every append is of a block that fits, on a disk that can truncate.
abbrev pub AllSound : Config → List (Disk × Block) → Type 0
AllSound vb [] = Unit {0}
AllSound vb ((disk, block) ∷ rest) =
    (disk.truncates ≡ true) × IsLoggable vb block × AllSound vb rest

take_whole : (n : ℕ) (xs : Bytes) → length (take n xs) ≡ length xs → take n xs ≡ xs
take_whole zero [] h = refl
take_whole zero (x ∷ xs) h = absurd (omega (arith, h))
take_whole (suc n) [] h = refl
take_whole (suc n) (x ∷ xs) h = ap (λ l. x ∷ l) (take_whole n xs (omega (arith, h)))

-- An append adds the record of the block it acknowledges, and nothing else.
write_wal-bytes :
    (vb : Config) (disk : Disk) (block : Block) (wal : Segment)
    → disk.truncates ≡ true
    → let (after, outcome) = write_wal vb disk block wal in
      after.bytes ≡ wal.bytes ++ wal_records vb (acknowledged outcome block)
unfolding write_wal wal_records acknowledged
write_wal-bytes vb disk block wal ok =
    let r = wal_record vb block in
    ground (
      arith,
      ok,
      take-append (length wal.bytes) wal.bytes (take disk.taken r) refl,
      take_whole disk.taken r,
      append_nil wal.bytes,
      append_nil r,
    )

wal_records-append :
    (vb : Config) (xs ys : List Block)
    → wal_records vb (xs ++ ys) ≡ wal_records vb xs ++ wal_records vb ys
unfolding wal_records
wal_records-append vb [] ys = refl
wal_records-append vb (x ∷ xs) ys =
    ap (λ r. wal_record vb x ++ r) (wal_records-append vb xs ys)
    ∙ sym (append_assoc (wal_record vb x) (wal_records vb xs) (wal_records vb ys))

run_appends-bytes :
    (vb : Config) (attempts : List (Disk × Block)) (wal : Segment)
    → AllSound vb attempts
    → let (last, blocks) = run_appends vb attempts wal in
      last.bytes ≡ wal.bytes ++ wal_records vb blocks
unfolding run_appends wal_records
run_appends-bytes vb [] wal sound = sym (append_nil wal.bytes)
run_appends-bytes vb ((disk, block) ∷ rest) wal (ok, v, sound) =
    let step = write_wal vb disk block wal in
    let first = acknowledged step.1 block in
    let later = (run_appends vb rest step.0).1 in
    run_appends-bytes vb rest step.0 sound
    ∙ ap (λ b. b ++ wal_records vb later) (write_wal-bytes vb disk block wal ok)
    ∙ append_assoc wal.bytes (wal_records vb first) (wal_records vb later)
    ∙ ap (λ r. wal.bytes ++ r) (sym (wal_records-append vb first later))

acknowledged-AllLoggable :
    (vb : Config) (outcome : Outcome) (block : Block) (blocks : List Block)
    → IsLoggable vb block
    → AllLoggable vb blocks
    → AllLoggable vb (acknowledged outcome block ++ blocks)
unfolding acknowledged
acknowledged-AllLoggable vb Outcome.done block blocks v vs = (v, vs)
acknowledged-AllLoggable vb Outcome.stat_failed block blocks v vs = vs
acknowledged-AllLoggable vb Outcome.rolled_back block blocks v vs = vs
acknowledged-AllLoggable vb Outcome.torn block blocks v vs = vs

run_appends-AllLoggable :
    (vb : Config) (attempts : List (Disk × Block)) (wal : Segment)
    → AllSound vb attempts
    → AllLoggable vb (run_appends vb attempts wal).1
unfolding run_appends
run_appends-AllLoggable vb [] wal sound = tt
run_appends-AllLoggable vb ((disk, block) ∷ rest) wal (ok, v, sound) =
    let step = write_wal vb disk block wal in
    acknowledged-AllLoggable vb step.1 block (run_appends vb rest step.0).1 v
      (run_appends-AllLoggable vb rest step.0 sound)

-- the segment that `OpenWAL` created at the time `now`
abbrev pub fresh_segment : Config → ℕ → Segment
fresh_segment vb now = record { bytes = wal_header vb now; dirty = false }

-- After any sequence of appends by WriteWAL to a fresh segment, each of a block that fits on a
-- disk that may fail or tear the write but can truncate, and whatever is left of one more
-- record, recovery returns exactly the blocks whose append was acknowledged, in their order, and
-- their highest sequence number, with and without encryption.
pub recover-run_appends :
    (vb : Config) (now : ℕ) (attempts : List (Disk × Block)) (tail : Bytes)
    → IsConfig vb
    → AllSound vb attempts
    → length tail < record_size vb
    → let (last, blocks) = run_appends vb attempts (fresh_segment vb now) in
      read_wal_file_for_recovery vb reliable (last.bytes ++ tail)
      ≡ Recovered.recovered blocks (max_seq blocks)
recover-run_appends vb now attempts tail c sound short =
    let wal = fresh_segment vb now in
    let blocks = (run_appends vb attempts wal).1 in
    ap (λ b. read_wal_file_for_recovery vb reliable (b ++ tail))
      (run_appends-bytes vb attempts wal sound)
    ∙ ap (read_wal_file_for_recovery vb reliable)
        (append_assoc (wal_header vb now) (wal_records vb blocks) tail)
    ∙ recover-wal_records vb now blocks tail c (run_appends-AllLoggable vb attempts wal sound) short
