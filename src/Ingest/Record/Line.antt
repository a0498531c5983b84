-- ===== src/Ingest/Record/Line.antt =====
-- The first line of a list of bytes, read whole, and what reading it in parts gives.
use agbox.Common.{
  ℕ, zero, suc, ◌+◌, ◌-◌, ◌≤◌, ◌≡◌, refl, Option, none, some, List, [], ◌∷◌, ◌++◌, if◌then◌else◌,
  ◌==◌, length, take, drop, arith,
}
use mathlib.Core.Option
use native.Mathlib.Nat.{suc-add}
use agbox.Ingest.Record.{position_newline, newline}

-- The bytes before the first newline, if there is one.
unfoldable pub first_line : List ℕ → Option (List ℕ)
first_line [] = none
first_line (b ∷ bs) =
    let rest = first_line bs in if b == newline then some [] else Option.map (◌∷◌ b) rest

-- A part with no newline is the beginning of the line.
pub first_line-append_none :
    (bytes rest : List ℕ)
    → position_newline bytes ≡ none
    → first_line (bytes ++ rest) ≡ Option.map (◌++◌ bytes) (first_line rest)
unfolding first_line position_newline
first_line-append_none [] rest e = ground arith
first_line-append_none (b ∷ bytes) rest e = ground (arith, first_line-append_none bytes rest)

-- A part with a newline ends the line.
pub first_line-append_some :
    (bytes rest : List ℕ) (i : ℕ)
    → position_newline bytes ≡ some i
    → (first_line (bytes ++ rest) ≡ some (take i bytes)) × (length (take i bytes) ≡ i)
unfolding first_line position_newline
first_line-append_some [] rest i e = cc
first_line-append_some (b ∷ bytes) rest zero e = ground arith
first_line-append_some (b ∷ bytes) rest (suc i) e =
    ground (arith, first_line-append_some bytes rest i)

-- Nothing is left to read at the target, and at the end of the file.
pub first_line-target : (m : ℕ) (xs : List ℕ) → m ≡ 0 → first_line (take m xs) ≡ none
unfolding first_line
first_line-target zero xs e = refl
first_line-target (suc m) xs e = absurd (omega arith)

pub first_line-end : (m : ℕ) (xs : List ℕ) → xs ≡ [] → first_line (take m xs) ≡ none
unfolding first_line
first_line-end zero xs e = refl
first_line-end (suc m) xs e = rw e

pub take-split :
    (bytes xs : List ℕ) (m : ℕ)
    → bytes ≡ take (length bytes) xs
    → length bytes ≤ m
    → take m xs ≡ bytes ++ take (m - length bytes) (drop (length bytes) xs)
take-split [] xs m e h = ground arith
take-split (b ∷ bytes) [] m e h = cc
take-split (b ∷ bytes) (x ∷ xs) zero e h = absurd (omega arith)
take-split (b ∷ bytes) (x ∷ xs) (suc m) e h = ground (arith, take-split bytes xs m)

drop-nil : (n : ℕ) → drop {A = ℕ} n [] ≡ []
drop-nil zero = refl
drop-nil (suc n) = refl

pub drop-drop : (m n : ℕ) (xs : List ℕ) → drop n (drop m xs) ≡ drop (m + n) xs
drop-drop zero n xs = ground arith
drop-drop (suc m) n [] = ground (arith, drop-nil n, drop-nil (suc m + n))
drop-drop (suc m) n (x ∷ xs) = rw (suc-add m n) (drop-drop m n xs)

-- The rest of a range of the file, after some of its bytes have been read.
pub take-drop-split :
    (content bytes : List ℕ) (from to : ℕ)
    → bytes ≡ take (length bytes) (drop from content)
    → length bytes ≤ to - from
    → take (to - from) (drop from content)
      ≡ bytes ++ take (to - (from + length bytes)) (drop (from + length bytes) content)
take-drop-split content bytes from to e h =
    let gap : to - from - length bytes ≡ to - (from + length bytes) = omega arith in
    rw (← gap, ← drop-drop from (length bytes) content)
      (take-split bytes (drop from content) (to - from) e h)
