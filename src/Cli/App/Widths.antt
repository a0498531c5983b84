-- ===== src/Cli/App/Widths.antt =====
-- The bytes of the texts that the terminal keeps.
use agbox.Common.{ℕ, ◌+◌, ◌-◌, ◌≡◌, ◌≤◌, inl, inr, [], ◌∷◌, ◌++◌, arith, Bool-cases, leb}
use agbox.Cli.App.{Chars, pop_character, byte_length, len_utf8, bound, prefix, max_notice_bytes}

pub byte_length-append : (s t : Chars) → byte_length (s ++ t) ≡ byte_length s + byte_length t
byte_length-append [] t = omega arith
byte_length-append (c ∷ s) t = omega (arith, byte_length-append s t)

pub byte_length-pop_character-le : (s : Chars) → byte_length (pop_character s) ≤ byte_length s
byte_length-pop_character-le [] = omega arith
byte_length-pop_character-le (c ∷ []) = ground arith
byte_length-pop_character-le (c ∷ d ∷ s) = omega (arith, byte_length-pop_character-le (d ∷ s))

byte_length-prefix-le : (limit : ℕ) (s : Chars) → byte_length (prefix limit s) ≤ limit
byte_length-prefix-le limit [] = omega arith
byte_length-prefix-le limit (c ∷ s) = ground (arith, byte_length-prefix-le (limit - len_utf8 c) s)

pub byte_length-bound-le :
    (s : Chars) → byte_length (bound s max_notice_bytes) ≤ max_notice_bytes + 3
unfolding bound
byte_length-bound-le s =
    let cut = byte_length-prefix-le max_notice_bytes s in
    let joined = byte_length-append (prefix max_notice_bytes s) (0x2026 ∷ []) in
    elim (Bool-cases (leb (byte_length s) max_notice_bytes)) [
      | inl e ↦ ground arith
      | inr e ↦ ground (arith, cut, joined)
    ]
