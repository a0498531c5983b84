-- ===== src/Ingest/Record/Tests.antt =====
-- The scanner and the reader over a file held in memory.
use agbox.Common.{
  ℕ, zero, suc, ◌<◌, ◌≡◌, refl, true, Option, some, List, [], ◌∷◌, length, take, drop, arith,
  length-take, ℕ_discrete,
}
use agbox.Ingest.Record.{System, ReadsFrom, RecordScanner, RecordWindow, complete, ok, next}
use agbox.Ingest.Record.Scan.{Scans, outcome, next-Scans}
use agbox.Ingest.Record.Total.{Reliable, next-ok}
use agbox.Ingest.Record.Reader.{WindowReader, drain, read, open_window, reader_of, drain-digest}

-- Every call succeeds, and a read gives all that it can.
abbrev memory_file : List ℕ → System
memory_file content = record {
  read = λ tick offset capacity. some (take capacity (drop offset content));
  seek = λ tick. true;
  try_clone = λ tick. true;
}

take-length-take : (n : ℕ) (xs : List ℕ) → take n xs ≡ take (length (take n xs)) xs
take-length-take zero xs = refl
take-length-take (suc n) [] = refl
take-length-take (suc n) (x ∷ xs) = ground (arith, take-length-take n xs)

take-eq-nil : (n : ℕ) (xs : List ℕ) → 0 < n → take n xs ≡ [] → xs ≡ []
take-eq-nil zero xs h e = absurd (omega arith)
take-eq-nil (suc n) [] h e = refl
take-eq-nil (suc n) (x ∷ xs) h e = cc

memory_file-ReadsFrom : (content : List ℕ) → ReadsFrom (memory_file content) content
memory_file-ReadsFrom content = record {
  reads = λ tick offset capacity bytes e. (
    ground (arith, take-length-take capacity (drop offset content)),
    ground (arith, length-take capacity (drop offset content)),
  );
  progress =
      λ tick offset capacity e h. take-eq-nil capacity (drop offset content) h (ground arith);
}

memory_file-Reliable : (content : List ℕ) → Reliable (memory_file content)
memory_file-Reliable content = record {
  reads = λ tick offset capacity e. cc;
  seeks = λ tick. refl;
  clones = λ tick. refl;
}

-- "ab", newline, "c".
abbrev text : List ℕ
text = 97 ∷ 98 ∷ 10 ∷ 99 ∷ []

abbrev begin : RecordScanner
begin = record { position = 0; cursor = 0; target_size = 4; bytes_read = 0; tick = 0 }

abbrev identity : List ℕ → List ℕ
identity xs = xs

abbrev first : RecordWindow (List ℕ)
first = record { start = 0; content_end = 2; next_offset = 3; record_hash = 97 ∷ 98 ∷ [] }

next_runs : (next (memory_file text) identity begin).1 ≡ ok (complete first)
unfolding next
next_runs = refl

next-Scans_example : Scans identity text begin (next (memory_file text) identity begin)
next-Scans_example =
    next-Scans (memory_file text) identity text (memory_file-ReadsFrom text) begin refl

next-ok_example : (next (memory_file text) identity begin).1 ≡ ok (outcome identity text 0 4)
next-ok_example =
    next-ok (memory_file text) identity text (memory_file-ReadsFrom text)
      (memory_file-Reliable text) begin refl (omega arith) (omega arith)

abbrev two_bytes : ℕ → ℕ → Option (List ℕ)
two_bytes offset capacity = some (take capacity (drop offset text))

bytes_discrete : Discrete (List ℕ)
bytes_discrete = hlevel ℕ_discrete

abbrev drained : WindowReader (List ℕ)
drained = record {
  offset = 2;
  remaining = 0;
  hashed = 97 ∷ 98 ∷ [];
  expected_hash = 97 ∷ 98 ∷ [];
  verified = true;
}

drain-digest_example :
    (identity (97 ∷ 98 ∷ []) ≡ first.record_hash) × (length {A = ℕ} (97 ∷ 98 ∷ []) ≡ 2)
unfolding read drain open_window bytes_discrete ℕ_discrete
drain-digest_example =
    drain-digest identity bytes_discrete first true (reader_of first) ((two_bytes, 8) ∷ []) drained
      (97 ∷ 98 ∷ []) two_bytes 8 refl refl (omega arith) refl refl
