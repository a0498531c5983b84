-- ===== src/Adapters/Identifiers.antt =====
-- The tests on identifiers of crates/agbox-adapters/src/codex/state.rs and claude/state.rs.
use agbox.Common.{ℕ, Bool, ◌&&◌, ◌||◌, not, length, all, leb, ◌==◌, drop}
use agbox.Core.Base.{Text}
use agbox.Core.Strings.{starts_with}

-- `u8::is_ascii_graphic`.
abbrev pub is_ascii_graphic : ℕ → Bool
is_ascii_graphic b = leb 33 b && leb b 126

abbrev pub is_digit : ℕ → Bool
is_digit b = leb b'0' b && leb b b'9'

-- `is_ascii_hexdigit() && !is_ascii_uppercase()`.
abbrev pub is_lower_hex : ℕ → Bool
is_lower_hex b = is_digit b || (leb b'a' b && leb b b'f')

unfoldable pub bounded_identifier : Text → ℕ → Bool
bounded_identifier value max_bytes =
    not (length value == 0) && leb (length value) max_bytes && all is_ascii_graphic value

-- The prefix, then 48 digits in lower case.
unfoldable pub graph_identifier : Text → Text → Bool
graph_identifier prefix value =
    starts_with prefix value
    && length (drop (length prefix) value) == 48
    && all is_lower_hex (drop (length prefix) value)
