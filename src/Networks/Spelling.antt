-- ===== src/Networks/Spelling.antt =====
-- testrange/networks/validate.py, `_SAFE_NAME` and `validate_name`, and testrange/vms/validate.py,
-- `_DATA_DISK_MARKER`: the spelling of names, read character by character. The digits of the
-- marker are the ASCII ones, since the marker is searched in names that are already validated.
use Prim.Native.Char.{Char, code}
use Prim.Native.String.{String, [], ◌∷◌}
use test_range.Prelude.{ℕ, Bool, true, false, ◌&&◌, ◌||◌, leb, eqb, Result, ok, if◌then◌else◌}
use test_range.Prelude.{List}
use test_range.Errors.{Error, raise, value_error}

unfoldable pub is_between : ℕ → ℕ → Char → Bool
is_between lo hi c = leb lo (code c) && leb (code c) hi

unfoldable pub is_char : ℕ → Char → Bool
is_char d c = eqb (code c) d

unfoldable pub is_digit : Char → Bool
is_digit c = is_between b'0' b'9' c

-- [A-Za-z0-9_]
unfoldable pub is_first : Char → Bool
is_first c = is_between b'A' b'Z' c || is_between b'a' b'z' c || is_digit c || is_char b'_' c

-- [A-Za-z0-9_.-]
unfoldable pub is_later : Char → Bool
is_later c = is_first c || is_char b'.' c || is_char b'-' c

unfoldable pub every : (Char → Bool) → String → Bool
every p [] = true
every p (c ∷ s) = p c && every p s

unfoldable pub is_safe_name : String → Bool
is_safe_name [] = false
is_safe_name (c ∷ s) = is_first c && every is_later s

unfoldable pub validate_name : String → Result Error String
validate_name s = if is_safe_name s then ok s else raise value_error (List.◌∷◌ s List.[])

-- n.startswith("__")
unfoldable pub is_reserved : String → Bool
is_reserved (c ∷ d ∷ s) = is_char b'_' c && is_char b'_' d
is_reserved s = false

-- \d+$
unfoldable pub is_number : String → Bool
is_number [] = false
is_number (c ∷ s) = is_digit c && every is_digit s

-- A letter in either case.
unfoldable pub is_letter : ℕ → ℕ → Char → Bool
is_letter lower upper c = is_char lower c || is_char upper c

unfoldable pub at_marker : String → Bool
at_marker (p ∷ d ∷ a ∷ t ∷ b ∷ s) =
    (is_char b'-' p || is_char b'_' p || is_char b'.' p)
    && is_letter b'd' b'D' d
    && is_letter b'a' b'A' a
    && is_letter b't' b'T' t
    && is_letter b'a' b'A' b
    && is_number s
at_marker s = false

-- _DATA_DISK_MARKER.search(n)
unfoldable pub has_marker : String → Bool
has_marker [] = false
has_marker (c ∷ s) = at_marker (c ∷ s) || has_marker s
