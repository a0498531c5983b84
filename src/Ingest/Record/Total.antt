-- ===== src/Ingest/Record/Total.antt =====
-- When nothing that the scanner relies on fails, `next` does not fail.
use agbox.Common.{
  ap, ℕ, zero, suc, ◌+◌, ◌-◌, ◌≤◌, ◌<◌, ◌≡◌, ◌≢◌, min, inl, inr, true, none, some, List, [], ◌∷◌,
  leb, ◌==◌, length, arith, Bool-cases, Option-cases,
}
use agbox.Ingest.Record.{
  System, ReadsFrom, RecordScanner, ScanResult, ok, err, restore_incomplete, close_window,
  scan_loop, restore, next, checked_add, position_newline, read_buffer_bytes, u64_max,
}
use agbox.Ingest.Record.Scan.{Scans, outcome, next-Scans}

-- A system on which every call succeeds.
pub record Reliable (os : System) : Type 0 where
  pub reads : (tick offset capacity : ℕ) → os.read tick offset capacity ≢ none
  pub seeks : (tick : ℕ) → os.seek tick ≡ true
  pub clones : (tick : ℕ) → os.try_clone tick ≡ true

abbrev IsOk : {D : Type 0} → RecordScanner × ScanResult D → Type 0
IsOk (s, ok o) = Unit
IsOk (s, err e) = ⊥

position_newline-lt : (bytes : List ℕ) (i : ℕ) → position_newline bytes ≡ some i → i < length bytes
unfolding position_newline
position_newline-lt [] i e = cc
position_newline-lt (b ∷ bytes) zero e = omega arith
position_newline-lt (b ∷ bytes) (suc i) e = ground (arith, position_newline-lt bytes i)

module _ {D : Type 0} (os : System) (digest : List ℕ → D) (content : List ℕ)
    (rf : ReadsFrom os content) (rel : Reliable os) where
  restore_incomplete-IsOk :
      (s : RecordScanner) (start : ℕ) → IsOk (restore_incomplete os digest s start)
  unfolding restore_incomplete
  restore_incomplete-IsOk s start = rw (rel.seeks s.tick, restore_incomplete) tt

  close_window-IsOk :
      (s : RecordScanner) (start scan_cursor index : ℕ) (hashed : List ℕ)
      → scan_cursor + index < u64_max
      → IsOk (close_window os digest s start scan_cursor hashed index)
  unfolding close_window
  close_window-IsOk s start scan_cursor index hashed h = ground (arith, rel.seeks s.tick)

  scan_loop-IsOk :
      (fuel : ℕ) (s : RecordScanner) (start scan_cursor : ℕ) (hashed : List ℕ)
      → s.target_size - scan_cursor < fuel
      → s.target_size ≤ u64_max
      → s.bytes_read + (s.target_size - scan_cursor) ≤ u64_max
      → IsOk (scan_loop os digest fuel s start scan_cursor hashed)
  unfolding scan_loop
  scan_loop-IsOk zero s start scan_cursor hashed f t c = absurd (omega arith)
  scan_loop-IsOk (suc fuel) s start scan_cursor hashed f t c =
      elim (Bool-cases (s.target_size - scan_cursor == 0)) [
        | inl none_left ↦ rw (none_left, scan_loop) (restore_incomplete-IsOk s start)
        | inr some_left ↦
            elim (Option-cases
              (os.read s.tick s.position (min read_buffer_bytes (s.target_size - scan_cursor)))) [
                | inl failed ↦ absurd (rel.reads _ _ _ failed)
                | inr (bytes, got) ↦
                    let short = (rf.reads s.tick s.position _ bytes got).1 in
                    elim (Bool-cases (length bytes == 0)) [
                      | inl at_end ↦
                          rw (some_left, got, at_end, scan_loop) (restore_incomplete-IsOk _ start)
                      | inr more ↦ elim (Option-cases (checked_add s.bytes_read (length bytes))) [
                        | inl over ↦ absurd (ground arith)
                        | inr (total, fits) ↦ elim (Option-cases (position_newline bytes)) [
                          | inr (index, found) ↦
                              rw (some_left, got, more, fits, found, scan_loop)
                                (close_window-IsOk _ start scan_cursor index _
                                  (ground (arith, position_newline-lt bytes index found)))
                          | inl absent ↦
                              elim (Option-cases (checked_add scan_cursor (length bytes))) [
                                | inl over ↦ absurd (ground arith)
                                | inr (further, sum) ↦
                                    rw (some_left, got, more, fits, absent, sum, scan_loop)
                                      (scan_loop-IsOk fuel
                                        (record s {
                                          position = s.position + length bytes;
                                          bytes_read = total;
                                          tick = suc s.tick;
                                        })
                                        start further _ (ground arith) t (ground arith))
                              ]
                        ]
                      ]
                    ]
              ]
      ]

  restore-IsOk :
      (start : ℕ) (r : RecordScanner × ScanResult D) → IsOk r → IsOk (restore os digest start r)
  unfolding restore
  restore-IsOk start (s, ok o) h = tt
  restore-IsOk start (s, err e) h = absurd h

  next-IsOk :
      (s : RecordScanner)
      → s.target_size ≤ u64_max
      → s.bytes_read + (s.target_size - s.cursor) ≤ u64_max
      → IsOk (next os digest s)
  unfolding next
  next-IsOk s t c = elim (Bool-cases (leb s.target_size s.cursor)) [
    | inl past ↦ rw (past, next) tt
    | inr below ↦
        rw (below, rel.clones s.tick, next)
          (restore-IsOk s.cursor _ (
            scan_loop-IsOk (suc (s.target_size - s.cursor)) (record s { tick = suc s.tick })
              s.cursor s.cursor [] (omega arith) t c))
  ]

  ok-outcome :
      (s : RecordScanner) (r : RecordScanner × ScanResult D)
      → Scans digest content s r
      → IsOk r
      → r.1 ≡ ok (outcome digest content s.cursor s.target_size)
  ok-outcome s (s', ok o) h k = ap ok h.0
  ok-outcome s (s', err e) h k = absurd k

  -- If every call of the system succeeds, the target is a 64-bit number and the count of bytes read has
  -- room for the bytes up to it, then `next` succeeds, with the first line between cursor and target.
  pub next-ok :
      (s : RecordScanner)
      → s.position ≡ s.cursor
      → s.target_size ≤ u64_max
      → s.bytes_read + (s.target_size - s.cursor) ≤ u64_max
      → (next os digest s).1 ≡ ok (outcome digest content s.cursor s.target_size)
  next-ok s p t c =
      ok-outcome s (next os digest s) (next-Scans os digest content rf s p) (next-IsOk s t c)
