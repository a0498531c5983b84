-- ===== src/Ingest/Record/Reader.antt =====
-- crates/agbox-ingest/src/record.rs: `WindowReader`, which hands out the bytes of a window and
-- checks their hash when the last one has been read.
use agbox.Common.{
  ℕ, ◌+◌, ◌-◌, ◌<◌, ◌≡◌, ◌⊎◌, min, inl, inr, refl, Bool, true, false, Option, none, some, List, [],
  ◌∷◌, ◌++◌, if◌then◌else◌, leb, ◌==◌, length, length-append, arith, Bool-cases, Option-cases,
  append-nil, subst,
}
use agbox.Ingest.Record.{RecordWindow, checked_add}

-- `hashed` holds the bytes fed to the hasher.
pub record WindowReader (D : Type 0) : Type 0 where
  pub offset : ℕ
  pub remaining : ℕ
  pub hashed : List ℕ
  pub expected_hash : D
  pub verified : Bool

pub data ReadError : Type 0 where
  io_failed unexpected_eof hash_mismatch overflow past_range : ReadError

-- The bytes put into the caller's buffer, with their number or an error.
pub data ReadResult : Type 0 where
  ok : ReadResult
  err : ReadError → ReadResult

ReadResult-cases : (t : ReadResult) → (t ≡ ok) ⊎ ((e : ReadError) × (t ≡ err e))
ReadResult-cases ok = inl refl
ReadResult-cases (err e) = inr (e, refl)

module _ {D : Type 0} where
  abbrev pub reader_of : RecordWindow D → WindowReader D
  reader_of w = record {
    offset = w.start;
    remaining = w.content_end - w.start;
    hashed = [];
    expected_hash = w.record_hash;
    verified = false;
  }

  -- `RecordWindow::open`, where `cloned` says if `try_clone` gave a handle, and `none` is its error; the
  -- file handle itself is the argument of each read.
  unfoldable pub open_window : Bool → RecordWindow D → Option (WindowReader D)
  open_window cloned w = if cloned then some (reader_of w) else none

module _ {D : Type 0} (digest : List ℕ → D) (dec : Discrete D) where
  unfoldable pub verify_complete : WindowReader D → WindowReader D × ReadResult
  verify_complete r = if r.verified then (r, ok) else elim (dec (digest r.hashed) r.expected_hash) [
    | yes _ ↦ (record r { verified = true }, ok)
    | no _ ↦ (r, err hash_mismatch)
  ]

  -- What a read leaves behind: the reader, the bytes in the caller's buffer and the result.
  finish_read : WindowReader D → List ℕ → WindowReader D × List ℕ × ReadResult
  unfolding verify_complete
  finish_read r bytes =
      if r.remaining == 0 then (let v = verify_complete r in (v.0, bytes, v.1)) else (r, bytes, ok)

  -- One call of `read` with a buffer of `room` bytes, where `file` answers `read_at`.
  unfoldable pub read :
      (ℕ → ℕ → Option (List ℕ)) → ℕ → WindowReader D → WindowReader D × List ℕ × ReadResult
  unfolding finish_read verify_complete
  read file room r =
      if r.remaining == 0
      then (let v = verify_complete r in (v.0, [], v.1))
      else if room == 0
      then (r, [], ok)
      else elim (file r.offset (min room r.remaining)) [
        | none ↦ (r, [], err io_failed)
        | some bytes ↦
            if length bytes == 0
            then (r, [], err unexpected_eof)
            else elim (checked_add r.offset (length bytes)) [
              | none ↦ (r, bytes, err overflow)
              | some next_offset ↦
                  if leb (length bytes) r.remaining
                  then finish_read
                      (record r {
                        hashed = r.hashed ++ bytes;
                        offset = next_offset;
                        remaining = r.remaining - length bytes;
                      })
                      bytes
                  else (r, bytes, err past_range)
            ]
      ]

  -- Reads one after the other, up to the first error; `got` holds the bytes handed out so far.
  unfoldable pub drain :
      List ((ℕ → ℕ → Option (List ℕ)) × ℕ)
      → WindowReader D
      → List ℕ
      → Option (WindowReader D × List ℕ)
  drain [] r got = some (r, got)
  drain ((file, room) ∷ calls) r got =
      let t = read file room r in elim t.2 [ ok ↦ drain calls t.0 (got ++ t.1) | err _ ↦ none ]

  record Holds (w : RecordWindow D) (r : WindowReader D) (got : List ℕ) : Type 0 where
    fed : r.hashed ≡ got
    left : length got + r.remaining ≡ w.content_end - w.start
    wanted : r.expected_hash ≡ w.record_hash
    checked : r.verified ≡ true → (digest got ≡ w.record_hash) × (r.remaining ≡ 0)

  verify-Holds :
      (w : RecordWindow D) (r : WindowReader D) (got : List ℕ)
      → Holds w r got
      → r.remaining ≡ 0
      → Holds w (verify_complete r).0 got
  unfolding verify_complete
  verify-Holds w r got h z = ground arith

  finish-Holds :
      (w : RecordWindow D) (r : WindowReader D) (got bytes : List ℕ)
      → Holds w r (got ++ bytes)
      → Holds w (finish_read r bytes).0 (got ++ (finish_read r bytes).1)
  unfolding finish_read
  finish-Holds w r got bytes h = elim (Bool-cases (r.remaining == 0)) [
    | inl z ↦ rw (z, finish_read) (verify-Holds w r (got ++ bytes) h (ground arith))
    | inr z ↦ rw (z, finish_read) h
  ]

  read-Holds :
      (w : RecordWindow D) (file : ℕ → ℕ → Option (List ℕ)) (room : ℕ) (r : WindowReader D)
      (got : List ℕ)
      → Holds w r got
      → (read file room r).2 ≡ ok
      → Holds w (read file room r).0 (got ++ (read file room r).1)
  unfolding read
  read-Holds w file room r got h e = elim (Bool-cases (r.remaining == 0)) [
    | inl z ↦ rw (z, read) (rw (append-nil got) (verify-Holds w r got h (ground arith)))
    | inr more ↦ elim (Bool-cases (room == 0)) [
      | inl none_asked ↦ rw (more, none_asked, read) (rw (append-nil got) h)
      | inr asked ↦ elim (Option-cases (file r.offset (min room r.remaining))) [
        | inl failed ↦ absurd (ground arith)
        | inr (bytes, read_) ↦ elim (Bool-cases (length bytes == 0)) [
          | inl eof ↦ absurd (ground arith)
          | inr some_read ↦ elim (Option-cases (checked_add r.offset (length bytes))) [
            | inl over ↦ absurd (ground arith)
            | inr (further, sum) ↦ elim (Bool-cases (leb (length bytes) r.remaining)) [
              | inr past ↦ absurd (ground arith)
              | inl within ↦
                  rw (more, asked, read_, some_read, sum, within, read)
                    (finish-Holds w
                      (record r {
                        hashed = r.hashed ++ bytes;
                        offset = further;
                        remaining = r.remaining - length bytes;
                      })
                      got bytes
                      (record {
                        fed = ground arith;
                        left = ground (arith, h.left, length-append got bytes);
                        wanted = h.wanted;
                        checked = λ v. absurd (ground (arith, h.checked v));
                      }))
            ]
          ]
        ]
      ]
    ]
  ]

  drain-Holds :
      (w : RecordWindow D) (calls : List ((ℕ → ℕ → Option (List ℕ)) × ℕ)) (r r' : WindowReader D)
      (got got' : List ℕ)
      → Holds w r got
      → drain calls r got ≡ some (r', got')
      → Holds w r' got'
  unfolding drain
  drain-Holds w [] r r' got got' h e = ground arith
  drain-Holds w ((file, room) ∷ calls) r r' got got' h e =
      elim (ReadResult-cases (read file room r).2) [
        | inl fine ↦
            drain-Holds w calls (read file room r).0 r' (got ++ (read file room r).1) got'
              (read-Holds w file room r got h fine) (ground arith)
        | inr (x, failed) ↦ absurd (ground arith)
      ]

  some_eq : (a b : WindowReader D) → some a ≡ some b → a ≡ b
  some_eq a b h = cc

  reader_of-Holds : (w : RecordWindow D) → Holds w (reader_of w) []
  reader_of-Holds w = record {
    fed = refl;
    left = omega arith;
    wanted = refl;
    checked = λ v. absurd (ground arith);
  }

  open-Holds :
      (cloned : Bool) (w : RecordWindow D) (r : WindowReader D)
      → open_window cloned w ≡ some r
      → Holds w r []
  unfolding open_window
  open-Holds true w r h =
      subst (λ (x : WindowReader D). Holds w x []) (some_eq (reader_of w) r h) (reader_of-Holds w)
  open-Holds false w r h = absurd (ground arith)

  end-digest :
      (w : RecordWindow D) (file : ℕ → ℕ → Option (List ℕ)) (room : ℕ) (r : WindowReader D)
      (got : List ℕ)
      → Holds w r got
      → 0 < room
      → (read file room r).1 ≡ []
      → (read file room r).2 ≡ ok
      → (digest got ≡ w.record_hash) × (length got ≡ w.content_end - w.start)
  unfolding read finish_read verify_complete
  end-digest w file room r got h n e f = ground arith

  -- Of a window that has been opened, whatever the file answers to each read, and however the reads are cut: once reads that all
  -- succeeded are followed by one that reports the end, for a buffer with room, the bytes handed out are as
  -- many as the window has, and their hash is the hash that the scan committed to.
  pub drain-digest :
      (w : RecordWindow D) (cloned : Bool) (opened : WindowReader D)
      (calls : List ((ℕ → ℕ → Option (List ℕ)) × ℕ)) (r : WindowReader D) (got : List ℕ)
      (file : ℕ → ℕ → Option (List ℕ)) (room : ℕ)
      → open_window cloned w ≡ some opened
      → drain calls opened [] ≡ some (r, got)
      → 0 < room
      → (read file room r).1 ≡ []
      → (read file room r).2 ≡ ok
      → (digest got ≡ w.record_hash) × (length got ≡ w.content_end - w.start)
  drain-digest w cloned opened calls r got file room o d n e f =
      end-digest w file room r got
        (drain-Holds w calls opened r [] got (open-Holds cloned w opened o) d) n e f
