-- ===== src/Cache/Spelling.antt =====
-- testrange/cache/_names.py and testrange/cache/entry.py: names and digests by their spelling. The `$` of
-- both patterns matches before a final line feed too, which is read here as `re` reads it.
use Prim.Native.Char.{Char, code}
use Prim.Native.String.{String, [], ◌∷◌}
use test_range.Prelude.{
  ℕ, suc, Bool, true, false, ◌&&◌, ◌||◌, not, leb, Result, if◌then◌else◌, raise_if, ◌>>◌,
}
use test_range.Prelude.{List}
use test_range.Errors.{Error, cache_error}
use test_range.Networks.Spelling.{is_between, is_char, is_digit, is_later, every}

unfoldable pub count_chars : String → ℕ
count_chars [] = 0
count_chars (c ∷ s) = suc (count_chars s)

-- what `$` lets a pattern end before
unfoldable pub before_line_feed : String → String
before_line_feed [] = []
before_line_feed (c ∷ []) = if is_char b'\n' c then [] else c ∷ []
before_line_feed (c ∷ d ∷ s) = c ∷ before_line_feed (d ∷ s)

-- ^[...]{lo,hi}$ at the start of a string
unfoldable pub is_run : (Char → Bool) → ℕ → ℕ → String → Bool
is_run p lo hi s =
    let body = before_line_feed s in
    every p body && leb lo (count_chars body) && leb (count_chars body) hi

unfoldable pub is_dot : Char → Bool
is_dot c = is_char b'.' c

unfoldable pub is_hex : Char → Bool
is_hex c = is_digit c || is_between b'a' b'f' c

unfoldable pub validate_cache_name : String → Result Error Unit
validate_cache_name name =
    raise_if (not (is_run is_later 1 255 name))
      (record { class = cache_error; about = List.◌∷◌ name List.[] })
    >> raise_if (every is_dot name) (record { class = cache_error; about = List.◌∷◌ name List.[] })

unfoldable pub looks_like_sha : String → Bool
looks_like_sha identifier = is_run is_hex 16 64 identifier

-- text.startswith(prefix)
unfoldable pub starts_with : String → String → Bool
starts_with [] text = true
starts_with (c ∷ prefix) [] = false
starts_with (c ∷ prefix) (d ∷ text) = is_char (code c) d && starts_with prefix text
