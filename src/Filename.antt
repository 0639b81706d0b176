-- ===== src/Filename.antt =====
-- crates/engine/src/filename.rs: bounded, filesystem-safe names. `BoundedName<MAX>` is the text of the
-- name; `MAX` is the argument `max`.
pub mod Prefix
pub mod Bounds
pub mod Variants
pub mod Accepted
use alac_bot.Prelude.{
  ℕ, zero, suc, ◌+◌, ◌-◌, Bool, true, false, ◌&&◌, ◌||◌, Option, none, some, List, [], ◌∷◌, ◌++◌,
  map, leb, ltb, ◌==◌, if◌then◌else◌, ◌*◌,
}
use alac_bot.Prelude.Text.{Text, codes, char_width, byte_len, text_eq, trim, strip_suffix}

abbrev pub max_filename_bytes : ℕ
max_filename_bytes = 255

abbrev pub max_archive_filename_bytes : ℕ
max_archive_filename_bytes = 245

abbrev pub max_zip_entry_filename_bytes : ℕ
max_zip_entry_filename_bytes = 240

pub data FilenameError : Type 0 where
  empty : FilenameError
  too_long : ℕ → ℕ → FilenameError
  invalid_character : ℕ → FilenameError

pub data NameResult : Type 0 where
  ok : Text → NameResult
  err : FilenameError → NameResult

-- `char::is_control`: the general category Cc.
abbrev pub is_control : ℕ → Bool
is_control c = ltb c 32 || (leb 127 c && ltb c 160)

unfoldable pub is_forbidden_char : ℕ → Bool
is_forbidden_char c =
    (c == b'<'
      || c == b'>'
      || c == b':'
      || c == b'"'
      || c == b'/'
      || c == b'\\'
      || c == b'|'
      || c == b'?'
      || c == b'*'
      || c == 0)
    || is_control c

-- `str::is_char_boundary`, of a byte offset.
unfoldable pub is_char_boundary : Text → ℕ → Bool
is_char_boundary s zero = true
is_char_boundary [] (suc n) = false
is_char_boundary (c ∷ s) (suc n) =
    let rest = is_char_boundary s (suc n - char_width c) in
    if ltb (suc n) (char_width c) then false else rest

-- `&s[..end]` at a boundary.
unfoldable pub slice_to : Text → ℕ → Text
slice_to s zero = []
slice_to [] (suc n) = []
slice_to (c ∷ s) (suc n) = c ∷ slice_to s (suc n - char_width c)

-- `while end > 0 && !s.is_char_boundary(end) { end -= 1 }`
unfoldable pub step_back : Text → ℕ → ℕ
step_back s zero = zero
step_back s (suc n) =
    let lower = step_back s n in if is_char_boundary s (suc n) then suc n else lower

unfoldable pub bound_utf8_prefix : Text → ℕ → Text
unfolding slice_to step_back
bound_utf8_prefix s max_bytes =
    if leb (byte_len s) max_bytes then s else slice_to s (step_back s max_bytes)

abbrev pub replace_forbidden : ℕ → ℕ
replace_forbidden c = if is_forbidden_char c then b'_' else c

-- The first forbidden character.
unfoldable pub find_forbidden : Text → Option ℕ
find_forbidden [] = none
find_forbidden (c ∷ s) = let rest = find_forbidden s in if is_forbidden_char c then some c else rest

-- The name of a directory itself or its parent, or no name.
abbrev pub is_dots : Text → Bool
is_dots s = text_eq s (codes ".") || text_eq s (codes "..")

abbrev pub is_unusable : Text → Bool
is_unusable s = text_eq s [] || is_dots s

unfoldable pub try_new : ℕ → Text → NameResult
try_new max name =
    let trimmed = trim name in
    if text_eq trimmed []
    then err empty
    else if is_dots trimmed
    then err (invalid_character b'.')
    else if ltb max (byte_len trimmed)
    then err (too_long (byte_len trimmed) max)
    else elim (find_forbidden trimmed) [ some c ↦ err (invalid_character c) | none ↦ ok trimmed ]

-- A candidate bounded in front of the suffix that it ends with.
unfoldable pub bound_candidate : ℕ → Text → Option Text → Text
bound_candidate max candidate none = bound_utf8_prefix candidate max
bound_candidate max candidate (some suffix) = elim (strip_suffix candidate suffix) [
  | none ↦ bound_utf8_prefix candidate max
  | some prefix ↦
      if leb max (byte_len suffix)
      then bound_utf8_prefix candidate max
      else bound_utf8_prefix prefix (max - byte_len suffix) ++ suffix
]

abbrev pub or_track : Text → Text
or_track s = if is_unusable s then codes "track" else s

unfoldable pub sanitize_and_bound : ℕ → Text → Option Text → Text
sanitize_and_bound max name suffix =
    or_track (bound_candidate max (or_track (trim (map replace_forbidden name))) suffix)

-- `s.rfind('.')`, as what stands before the dot and the text from the dot on.
unfoldable pub last_dot : Text → Option (Text × Text)
last_dot [] = none
last_dot (c ∷ s) = elim (last_dot s) [
  | some (stem, ext) ↦ some (c ∷ stem, ext)
  | none ↦ if c == b'.' then some ([], c ∷ s) else none
]

-- The dot of a hidden file's name begins no extension.
unfoldable pub split_extension : Text → Text × Text
unfolding last_dot
split_extension s = elim (last_dot s) [
  | none ↦ (s, [])
  | some (stem, ext) ↦ if text_eq stem [] then (s, []) else (stem, ext)
]

unfoldable pub with_collision_id : ℕ → Text → Text → Text
unfolding split_extension
with_collision_id max s collision_id =
    let (stem, ext) = split_extension s in
    let suffix : Text = (b'_' ∷ map replace_forbidden collision_id) ++ ext in
    if leb max (byte_len suffix)
    then sanitize_and_bound max (stem ++ suffix) (some ext)
    else bound_utf8_prefix stem (max - byte_len suffix) ++ suffix

abbrev pub partial_suffix : Text
partial_suffix = codes " [Partial]"

unfoldable pub into_partial : Text → Text
into_partial s = elim (strip_suffix s (codes ".zip")) [
  | some stem ↦ stem ++ (partial_suffix ++ codes ".zip")
  | none ↦ s ++ partial_suffix
]
