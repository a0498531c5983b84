-- ===== src/Ingest/Record/Scan.antt =====
-- `RecordScanner::next` against a reading of the whole file at once.
use agbox.Common.{
  nil_of_length, ℕ, zero, suc, ◌+◌, ◌-◌, ◌<◌, ◌≡◌, ◌≢◌, ◌⊎◌, ◌∙◌, sym, ap, min, inl, inr, refl,
  false, Option, none, some, List, [], ◌++◌, if◌then◌else◌, leb, ◌==◌, length, length-append, take,
  drop, arith, Bool-cases, Option-cases, append_assoc,
}
use mathlib.Core.Option
use agbox.Ingest.Record.{
  System, ReadsFrom, RecordScanner, ScanOutcome, ScanResult, complete, incomplete, eof, ok, err,
  out_of_fuel, restore_failed, restore_incomplete, close_window, scan_loop, restore, next,
  checked_add, position_newline, read_buffer_bytes,
}
use agbox.Ingest.Record.Line.{
  first_line, first_line-append_none, first_line-append_some, take-drop-split, first_line-target,
  first_line-end,
}

module _ {D : Type 0} (digest : List ℕ → D) where
  abbrev window_at : ℕ → ℕ → List ℕ → List ℕ → ScanOutcome D
  window_at start scan_cursor hashed line = complete (record {
    start = start;
    content_end = scan_cursor + length line;
    next_offset = scan_cursor + length line + 1;
    record_hash = digest (hashed ++ line);
  })

  abbrev ended : ℕ → ℕ → List ℕ → Option (List ℕ) → ScanOutcome D
  ended start scan_cursor hashed none = incomplete start
  ended start scan_cursor hashed (some line) = window_at start scan_cursor hashed line

  -- The outcome that a reader of the whole file sees: the end at or beyond the target; otherwise the
  -- first line between the cursor and the target, with its hash; otherwise a record still incomplete.
  unfoldable pub outcome : List ℕ → ℕ → ℕ → ScanOutcome D
  outcome content cursor target =
      if leb target cursor
      then eof
      else ended cursor cursor [] (first_line (take (target - cursor) (drop cursor content)))

-- Where the scanner goes on after an outcome.
unfoldable pub resume : {D : Type 0} → ℕ → ScanOutcome D → ℕ
resume cursor eof = cursor
resume cursor (incomplete k) = k
resume cursor (complete w) = w.next_offset

module _ {D : Type 0} (digest : List ℕ → D) (content : List ℕ) (start target : ℕ) where
  -- A scan that is at `scan_cursor` ends as reading all the rest at once would.
  abbrev Ends : ℕ → List ℕ → RecordScanner × ScanResult D → Type 0
  Ends scan_cursor hashed (s, ok o) =
      (o
        ≡ ended digest start scan_cursor hashed
            (first_line (take (target - scan_cursor) (drop scan_cursor content))))
      × (s.cursor ≡ resume start o)
      × (s.position ≡ resume start o)
      × (s.target_size ≡ target)
  Ends scan_cursor hashed (s, err e) = (e ≢ out_of_fuel) × (s.target_size ≡ target)

-- What `next` may do from a state.
abbrev pub Scans :
    {D : Type 0} → (List ℕ → D) → List ℕ → RecordScanner → RecordScanner × ScanResult D → Type 0
Scans digest content s (s', ok o) =
    (o ≡ outcome digest content s.cursor s.target_size)
    × (s'.cursor ≡ resume s.cursor o)
    × (s'.position ≡ resume s.cursor o)
    × (s'.target_size ≡ s.target_size)
Scans digest content s (s', err e) =
    (e ≢ out_of_fuel)
    × (s'.cursor ≡ s.cursor)
    × ((e ≡ restore_failed) ⊎ (s'.position ≡ s.cursor))
    × (s'.target_size ≡ s.target_size)

module _ {D : Type 0} (os : System) (digest : List ℕ → D) (content : List ℕ)
    (start target : ℕ) where
  restore_incomplete-Ends :
      (s : RecordScanner) (scan_cursor : ℕ) (hashed : List ℕ)
      → s.target_size ≡ target
      → first_line (take (target - scan_cursor) (drop scan_cursor content)) ≡ none
      → Ends digest content start target scan_cursor hashed (restore_incomplete os digest s start)
  unfolding restore_incomplete resume
  restore_incomplete-Ends s scan_cursor hashed t e = elim (Bool-cases (os.seek s.tick)) [
    | inl yes_ ↦ rw (yes_, restore_incomplete) (ground arith)
    | inr no_ ↦ rw (no_, restore_incomplete) (λ e. cc, t)
  ]

  close_window-Ends :
      (s : RecordScanner) (scan_cursor index : ℕ) (hashed line : List ℕ)
      → s.target_size ≡ target
      → first_line (take (target - scan_cursor) (drop scan_cursor content)) ≡ some line
      → length line ≡ index
      → Ends digest content start target scan_cursor hashed
          (close_window os digest s start scan_cursor (hashed ++ line) index)
  unfolding close_window resume
  close_window-Ends s scan_cursor index hashed line t e n = ground arith

  ended-step :
      (scan_cursor further : ℕ) (hashed bytes : List ℕ) (o : Option (List ℕ))
      → further ≡ scan_cursor + length bytes
      → ended digest start further (hashed ++ bytes) o
        ≡ ended digest start scan_cursor hashed (Option.map (◌++◌ bytes) o)
  ended-step scan_cursor further hashed bytes none e = refl
  ended-step scan_cursor further hashed bytes (some line) e =
      ground (arith, append_assoc hashed bytes line, length-append bytes line)

  Ends-cast :
      (scan_cursor further : ℕ) (hashed hashed' : List ℕ)
      → ended digest start further hashed'
          (first_line (take (target - further) (drop further content)))
        ≡ ended digest start scan_cursor hashed
            (first_line (take (target - scan_cursor) (drop scan_cursor content)))
      → (r : RecordScanner × ScanResult D) → Ends digest content start target further hashed' r
      → Ends digest content start target scan_cursor hashed r
  Ends-cast scan_cursor further hashed hashed' e (s, ok o) (a, b, c, d) = (a ∙ e, b, c, d)
  Ends-cast scan_cursor further hashed hashed' e (s, err x) h = h

  ended-further :
      (scan_cursor : ℕ) (hashed bytes : List ℕ)
      → take (target - scan_cursor) (drop scan_cursor content)
        ≡ bytes
          ++ take
              (target - (scan_cursor + length bytes))
              (drop (scan_cursor + length bytes) content)
      → position_newline bytes ≡ none
      → ended digest start (scan_cursor + length bytes) (hashed ++ bytes) (
          first_line (
            take
              (target - (scan_cursor + length bytes))
              (drop (scan_cursor + length bytes) content)))
        ≡ ended digest start scan_cursor hashed
            (first_line (take (target - scan_cursor) (drop scan_cursor content)))
  ended-further scan_cursor hashed bytes split absent =
      ended-step scan_cursor (scan_cursor + length bytes) hashed bytes _ refl
      ∙ ap (ended digest start scan_cursor hashed)
          (sym (ap first_line split ∙ first_line-append_none bytes _ absent))

  module _ (rf : ReadsFrom os content) where
    scan_loop-Ends :
        (fuel : ℕ) (s : RecordScanner) (scan_cursor : ℕ) (hashed : List ℕ)
        → target - scan_cursor < fuel
        → s.target_size ≡ target
        → s.position ≡ scan_cursor
        → Ends digest content start target scan_cursor hashed
            (scan_loop os digest fuel s start scan_cursor hashed)
    unfolding scan_loop
    scan_loop-Ends zero s scan_cursor hashed f t p = absurd (omega arith)
    scan_loop-Ends (suc fuel) s scan_cursor hashed f t p =
        elim (Bool-cases (s.target_size - scan_cursor == 0)) [
          | inl none_left ↦
              rw (none_left, scan_loop)
                (restore_incomplete-Ends s scan_cursor hashed t
                  (first_line-target _ _ (ground arith)))
          | inr some_left ↦
              elim (Option-cases
                (os.read s.tick s.position (min read_buffer_bytes (s.target_size - scan_cursor)))) [
                  | inl failed ↦ rw (some_left, failed, scan_loop) ((λ e. cc), t)
                  | inr (bytes, got) ↦
                      let (prefix, short) = rf.reads s.tick s.position _ bytes got in
                      let split =
                        take-drop-split content bytes scan_cursor target (rw p at prefix)
                          (ground arith) in
                      elim (Bool-cases (length bytes == 0)) [
                        | inl at_end ↦
                            rw (some_left, got, at_end, scan_loop)
                              (restore_incomplete-Ends _ scan_cursor hashed t (
                                first_line-end _ _ (
                                  rw (← p) (
                                    rf.progress s.tick s.position _
                                      (got ∙ ap some (nil_of_length bytes (ground arith)))
                                      (ground arith)))))
                        | inr more ↦ elim (Option-cases (checked_add s.bytes_read (length bytes))) [
                          | inl over ↦ rw (some_left, got, more, over, scan_loop) ((λ e. cc), t)
                          | inr (total, fits) ↦ elim (Option-cases (position_newline bytes)) [
                            | inr (index, found) ↦
                                let (line, at) = first_line-append_some bytes _ index found in
                                rw (some_left, got, more, fits, found, scan_loop)
                                  (close_window-Ends _ scan_cursor index hashed (take index bytes) t
                                    (ap first_line split ∙ line) at)
                            | inl absent ↦
                                elim (Option-cases (checked_add scan_cursor (length bytes))) [
                                  | inl over ↦
                                      rw (some_left, got, more, fits, absent, over, scan_loop)
                                        ((λ e. cc), t)
                                  | inr (further, sum) ↦
                                      let s2 : RecordScanner = record s {
                                        position = s.position + length bytes;
                                        bytes_read = total;
                                        tick = suc s.tick;
                                      } in
                                      let here : further ≡ scan_cursor + length bytes =
                                        ground arith in
                                      rw (some_left, got, more, fits, absent, sum, scan_loop)
                                        (Ends-cast scan_cursor further hashed (hashed ++ bytes)
                                          (rw here
                                            (ended-further scan_cursor hashed bytes split absent))
                                          (scan_loop os digest fuel s2 start further
                                            (hashed ++ bytes))
                                          (scan_loop-Ends fuel s2 further (hashed ++ bytes)
                                            (ground arith) t (ground arith)))
                                ]
                          ]
                        ]
                      ]
                ]
        ]

module _ {D : Type 0} (os : System) (digest : List ℕ → D) (content : List ℕ) where
  restore-Scans :
      (s : RecordScanner) (r : RecordScanner × ScanResult D)
      → leb s.target_size s.cursor ≡ false
      → Ends digest content s.cursor s.target_size s.cursor [] r
      → Scans digest content s (restore os digest s.cursor r)
  unfolding restore outcome
  restore-Scans s (s', ok o) below (a, b, c, d) = rw below (a, b, c, d)
  restore-Scans s (s', err e) below (a, b) = ground arith

  -- From any state whose handle stands at its cursor, and however the system cuts its reads, `next`
  -- returns what reading the file at once up to the target gives, or an error of the system or of a
  -- 64-bit count; its fuel is enough. After an outcome the cursor and the handle stand where that
  -- outcome says; after an error the cursor is unchanged, and the handle is back at it unless putting
  -- it back failed.
  pub next-Scans :
      ReadsFrom os content
      → (s : RecordScanner) → s.position ≡ s.cursor
      → Scans digest content s (next os digest s)
  unfolding next
  next-Scans rf s p = elim (Bool-cases (leb s.target_size s.cursor)) [
    | inl past ↦ rw (past, next) (unfold outcome resume in rw past (refl, refl, p, refl))
    | inr below ↦ elim (Bool-cases (os.try_clone s.tick)) [
      | inr failed ↦ rw (below, failed, next) ((λ e. cc), refl, inr p, refl)
      | inl cloned ↦
          rw (below, cloned, next)
            (restore-Scans s _ below (
              scan_loop-Ends os digest content s.cursor s.target_size rf
                (suc (s.target_size - s.cursor)) (record s { tick = suc s.tick }) s.cursor []
                (omega arith) refl p))
    ]
  ]
