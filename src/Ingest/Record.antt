-- ===== src/Ingest/Record.antt =====
-- crates/agbox-ingest/src/record.rs: newline-delimited records of a file that other programs write.
-- The operating system and the hash function are parameters. A text is the list of its bytes, and
-- a hasher is the list of the bytes that were fed to it.
use agbox.Common.{
  ℕ, zero, suc, ◌+◌, ◌-◌, ◌*◌, ◌^◌, ◌≤◌, ◌<◌, ◌≡◌, ◌⊎◌, min, Bool, true, false, Option, none, some,
  List, [], ◌∷◌, ◌++◌, if◌then◌else◌, leb, ltb, ◌==◌, length, take, drop,
}
use mathlib.Core.Option
pub mod Line
pub mod Scan
pub mod Total
pub mod Reader
mod Tests

abbrev pub read_buffer_bytes : ℕ
read_buffer_bytes = 64 * 1024

abbrev pub u64_max : ℕ
u64_max = 2 ^ 64 - 1

-- `u64::checked_add`.
abbrev pub checked_add : ℕ → ℕ → Option ℕ
checked_add a b = if leb (a + b) u64_max then some (a + b) else none

-- What the calls of the operating system answer. The first argument counts the calls made so far, so
-- that two calls may answer differently.
pub record System : Type 0 where
  -- Bytes at an offset, at most as many as the capacity; `none` is an error.
  pub read : ℕ → ℕ → ℕ → Option (List ℕ)
  pub seek : ℕ → Bool
  pub try_clone : ℕ → Bool

-- The documented behaviour of reading: some of the bytes that stand at the offset, no more than
-- asked for, and none only at the end of the file or for no room.
pub record ReadsFrom (os : System) (content : List ℕ) : Type 0 where
  pub reads :
      (tick offset capacity : ℕ) (bytes : List ℕ)
      → os.read tick offset capacity ≡ some bytes
      → (bytes ≡ take (length bytes) (drop offset content)) × (length bytes ≤ capacity)
  pub progress :
      (tick offset capacity : ℕ)
      → os.read tick offset capacity ≡ some []
      → 0 < capacity
      → drop offset content ≡ []

pub record RecordWindow (D : Type 0) : Type 0 where
  pub start : ℕ
  pub content_end : ℕ
  pub next_offset : ℕ
  pub record_hash : D

pub data ScanOutcome (D : Type 0) : Type 0 where
  complete : RecordWindow D → ScanOutcome D
  incomplete : ℕ → ScanOutcome D
  eof : ScanOutcome D

-- `out_of_fuel` is the model's own.
pub data ScanError : Type 0 where
  read_failed seek_failed clone_failed count_overflow offset_overflow restore_failed out_of_fuel :
      ScanError

pub data ScanResult (D : Type 0) : Type 0 where
  ok : ScanOutcome D → ScanResult D
  err : ScanError → ScanResult D

-- `position` is where the file handle stands; `tick` counts the calls of the system.
pub record RecordScanner : Type 0 where
  pub position : ℕ
  pub cursor : ℕ
  pub target_size : ℕ
  pub bytes_read : ℕ
  pub tick : ℕ

abbrev pub newline : ℕ
newline = 10

-- `iter().position(|byte| *byte == b'\n')`.
unfoldable pub position_newline : List ℕ → Option ℕ
position_newline [] = none
position_newline (b ∷ bs) =
    let rest = position_newline bs in if b == newline then some 0 else Option.map suc rest

module _ {D : Type 0} (os : System) (digest : List ℕ → D) where
  -- `RecordScanner::new`: `none` if the file cannot be positioned.
  unfoldable pub new : ℕ → ℕ → Option RecordScanner
  new cursor target_size =
      if os.seek 0
      then some (record {
        position = cursor;
        cursor = cursor;
        target_size = target_size;
        bytes_read = 0;
        tick = 1;
      })
      else none

  pub restore_incomplete : RecordScanner → ℕ → RecordScanner × ScanResult D
  restore_incomplete s retry_from =
      if os.seek s.tick
      then (
        record s { position = retry_from; cursor = retry_from; tick = suc s.tick },
        ok (incomplete retry_from),
      )
      else (record s { tick = suc s.tick }, err seek_failed)

  -- A newline at `index` of the bytes just read: the window is closed and the handle is put behind it.
  pub close_window : RecordScanner → ℕ → ℕ → List ℕ → ℕ → RecordScanner × ScanResult D
  close_window s start scan_cursor hashed index = elim (checked_add scan_cursor index) [
    | none ↦ (s, err offset_overflow)
    | some content_end ↦ elim (checked_add content_end 1) [
      | none ↦ (s, err offset_overflow)
      | some next_offset ↦
          if os.seek s.tick
          then (
            record s { position = next_offset; cursor = next_offset; tick = suc s.tick },
            ok (
                complete (record {
                  start = start;
                  content_end = content_end;
                  next_offset = next_offset;
                  record_hash = digest hashed;
                })),
          )
          else (record s { tick = suc s.tick }, err seek_failed)
    ]
  ]

  -- The loop of `scan_next`; every round that goes on consumes at least one byte.
  pub scan_loop : ℕ → RecordScanner → ℕ → ℕ → List ℕ → RecordScanner × ScanResult D
  unfolding close_window restore_incomplete position_newline
  scan_loop zero s start scan_cursor hashed = (s, err out_of_fuel)
  scan_loop (suc fuel) s start scan_cursor hashed =
      let remaining = s.target_size - scan_cursor in
      elim (remaining == 0) [
        | true ↦ restore_incomplete s start
        | false ↦ elim (os.read s.tick s.position (min read_buffer_bytes remaining)) [
          | none ↦ (record s { tick = suc s.tick }, err read_failed)
          | some bytes ↦
              let s1 = record s { position = s.position + length bytes; tick = suc s.tick } in
              elim (length bytes == 0) [
                | true ↦ restore_incomplete s1 start
                | false ↦ elim (checked_add s.bytes_read (length bytes)) [
                  | none ↦ (s1, err count_overflow)
                  | some count ↦
                      let s2 = record s1 { bytes_read = count } in
                      elim (position_newline bytes) [
                        | some index ↦
                            close_window s2 start scan_cursor (hashed ++ take index bytes) index
                        | none ↦ elim (checked_add scan_cursor (length bytes)) [
                          | none ↦ (s2, err offset_overflow)
                          | some further ↦ scan_loop fuel s2 start further (hashed ++ bytes)
                        ]
                      ]
                ]
              ]
        ]
      ]

  -- A failed scan puts the cursor back, and the handle too if that succeeds.
  pub restore : ℕ → RecordScanner × ScanResult D → RecordScanner × ScanResult D
  restore start (s, ok outcome) = (s, ok outcome)
  restore start (s, err e) =
      if os.seek s.tick
      then (record s { position = start; cursor = start; tick = suc s.tick }, err e)
      else (record s { cursor = start; tick = suc s.tick }, err restore_failed)

  -- Fuel for one round more than there are bytes up to the target.
  unfoldable pub next : RecordScanner → RecordScanner × ScanResult D
  unfolding scan_loop restore
  next s =
      if leb s.target_size s.cursor
      then (s, ok eof)
      else if os.try_clone s.tick
      then restore s.cursor (
          scan_loop (suc (s.target_size - s.cursor)) (record s { tick = suc s.tick }) s.cursor
            s.cursor [])
      else (record s { tick = suc s.tick }, err clone_failed)
