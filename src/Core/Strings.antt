-- ===== src/Core/Strings.antt =====
-- The operations of Rust's strings that the code calls, on the bytes of a UTF-8 text.
use agbox.Common.{
  ℕ, zero, suc, ◌+◌, ◌-◌, ◌/◌, ◌%◌, Bool, true, false, ◌&&◌, ◌||◌, List, [], ◌∷◌, ◌++◌, map, leb,
  ◌==◌, if◌then◌else◌,
}
use Prim.Native.String.{String}
use Prim.Native.Char.{code}
use agbox.Core.Base.{Text, same_text}

-- The bytes of a literal, which is ASCII.
abbrev pub bytes : String → Text
bytes String.[] = []
bytes (String.◌∷◌ c s) = code c ∷ bytes s

-- The lengths of the white space of two and of three bytes.
abbrev pub space_width_3 : ℕ → ℕ → Text → ℕ
space_width_3 a b [] = 0
space_width_3 a b (c ∷ _) =
    if (a == 0xe1 && b == 0x9a && c == 0x80)
      || (a == 0xe2
          && b == 0x80
          && ((leb 0x80 c && leb c 0x8a) || c == 0xa8 || c == 0xa9 || c == 0xaf))
      || (a == 0xe2 && b == 0x81 && c == 0x9f)
      || (a == 0xe3 && b == 0x80 && c == 0x80)
    then 3
    else 0

abbrev pub space_width_2 : ℕ → Text → ℕ
space_width_2 a [] = 0
space_width_2 a (b ∷ t) = if a == 0xc2 && (b == 0x85 || b == 0xa0) then 2 else space_width_3 a b t

-- How many bytes the white space at the start of the text has: `char::is_whitespace`.
unfoldable pub space_width : Text → ℕ
space_width [] = 0
space_width (a ∷ t) = if (leb 9 a && leb a 13) || a == 32 then 1 else space_width_2 a t

-- `trim_start`, with the number of bytes of the white space that it is in.
unfoldable pub trim_start_from : ℕ → Text → Text
trim_start_from skip [] = []
trim_start_from (suc skip) (x ∷ t) = trim_start_from skip t
trim_start_from zero (x ∷ t) =
    let rest = trim_start_from (space_width (x ∷ t) - 1) t in
    if space_width (x ∷ t) == 0 then x ∷ t else rest

unfoldable pub trim_start : Text → Text
unfolding trim_start_from space_width
trim_start = trim_start_from 0

unfoldable pub is_blank : Text → Bool
unfolding trim_start
is_blank t = same_text (trim_start t) []

unfoldable pub trim_end : Text → Text
unfolding is_blank
trim_end [] = []
trim_end (x ∷ t) = let rest = trim_end t in if is_blank (x ∷ t) then [] else x ∷ rest

unfoldable pub trim : Text → Text
unfolding trim_start trim_end
trim t = trim_end (trim_start t)

abbrev pub push_word : Text → List Text → List Text
push_word [] words = words
push_word (x ∷ word) words = (x ∷ word) ∷ words

-- `split_whitespace`, with the bytes of white space to pass over and the word read so far.
unfoldable pub words_from : ℕ → Text → Text → List Text
words_from skip word [] = push_word word []
words_from (suc skip) word (x ∷ t) = words_from skip word t
words_from zero word (x ∷ t) =
    let next = words_from 0 (word ++ (x ∷ [])) t in
    let rest = words_from (space_width (x ∷ t) - 1) [] t in
    if space_width (x ∷ t) == 0 then next else push_word word rest

-- `join(" ")`.
abbrev pub join : List Text → Text
join [] = []
join (word ∷ []) = word
join (word ∷ words) = word ++ (32 ∷ join words)

abbrev pub ascii_lowercase : ℕ → ℕ
ascii_lowercase b = if leb 65 b && leb b 90 then b + 32 else b

abbrev pub to_ascii_lowercase : Text → Text
to_ascii_lowercase = map ascii_lowercase

abbrev pub replace_byte : ℕ → ℕ → Text → Text
replace_byte from to = map (λ b. if b == from then to else b)

abbrev pub starts_with : Text → Text → Bool
starts_with [] t = true
starts_with (x ∷ prefix) [] = false
starts_with (x ∷ prefix) (y ∷ t) = x == y && starts_with prefix t

-- The order of `String`.
abbrev pub text_less : Text → Text → Bool
text_less [] [] = false
text_less [] (y ∷ t) = true
text_less (x ∷ s) [] = false
text_less (x ∷ s) (y ∷ t) =
    let rest = text_less s t in if x == y then rest else if leb x y then true else false

-- `n.to_le_bytes()` in so many bytes.
abbrev pub le_bytes : ℕ → ℕ → Text
le_bytes zero n = []
le_bytes (suc count) n = n % 256 ∷ le_bytes count (n / 256)
