-- ===== src/ZipPlan.antt =====
-- crates/engine/src/zip.rs: how the tracks of an album are divided over ZIP archives. The file
-- system is the argument `metadata`, the size of a file that can be read; writing the archives is
-- not modelled.
pub mod Groups
pub mod Parts
use alac_bot.Prelude.{
  ℕ, zero, suc, ◌+◌, ◌-◌, ◌*◌, Bool, true, false, not, ◌&&◌, ◌||◌, Option, none, some, List, [],
  ◌∷◌, ◌++◌, leb, ltb, ◌==◌, if◌then◌else◌, any, all, sum, map, length, take,
}
use alac_bot.Prelude.Text.{Text, codes, byte_len, text_eq, split_on}
use alac_bot.Prelude.Decimal.{print, is_digit}
use alac_bot.Prelude.Words.{checked_add, checked_mul}
use alac_bot.Filename.{max_zip_entry_filename_bytes, max_archive_filename_bytes, sanitize_and_bound}

abbrev pub entry_overhead_bytes : ℕ
entry_overhead_bytes = 512

abbrev pub archive_headroom_bytes : ℕ
archive_headroom_bytes = 64 * 1024

pub record ZipTrackEntry : Type 0 where
  pub file_path : Text
  pub archive_filename : Text
  pub file_size : ℕ

pub record ZipPartPlan : Type 0 where
  pub part_index : ℕ
  pub total_parts : ℕ
  pub tracks : List ZipTrackEntry
  pub cover_path : Option Text
  pub archive_filename : Text

pub data SourceCause : Type 0 where
  unreadable size_changed : SourceCause

pub data ZipError : Type 0 where
  empty invalid_limit : ZipError
  invalid_entry_name duplicate_entry track_too_large : Text → ZipError
  source : Text → SourceCause → ZipError

pub data Result {ℓ} (A : Type ℓ) : Type ℓ where
  ok : A → Result A
  err : ZipError → Result A

infixl 5 ◌>>=◌ ◌>>◌
abbrev pub ◌>>=◌ {ℓ κ} : {A : Type ℓ} {B : Type κ} → Result A → (A → Result B) → Result B
ok a >>= f = f a
err e >>= f = err e

abbrev pub ◌>>◌ {ℓ κ} : {A : Type ℓ} {B : Type κ} → Result A → Result B → Result B
m >> k = m >>= λ _. k

abbrev pub ok_or {ℓ} : {A : Type ℓ} → Option A → ZipError → Result A
ok_or none e = err e
ok_or (some a) e = ok a

abbrev pub ensure : Bool → ZipError → Result (Unit {0})
ensure true e = ok tt
ensure false e = err e

abbrev starts_with_slash : Text → Bool
starts_with_slash [] = false
starts_with_slash (c ∷ _) = c == b'/'

-- `Path::is_absolute` and the components of a path are those of Unix.
unfoldable pub is_valid_entry_name : Text → Bool
unfolding byte_len text_eq split_on
is_valid_entry_name name = not (
    text_eq name []
    || ltb max_zip_entry_filename_bytes (byte_len name)
    || any (λ c. ltb c 32 || c == 127) name
    || starts_with_slash name
    || any (λ part. text_eq part (codes "..")) (split_on b'/' name))

unfoldable pub validate_entry_name : Text → Result (Unit {0})
unfolding is_valid_entry_name
validate_entry_name name = ensure (is_valid_entry_name name) (invalid_entry_name name)

abbrev pub contains : List Text → Text → Bool
contains names name = any (λ n. text_eq n name) names

abbrev same_size : ℕ → ZipTrackEntry → Result (Unit {0})
same_size size track = ensure (size == track.file_size) (source track.file_path size_changed)

-- The first loop of `plan_zip_parts_with_codec`, over the names taken so far.
unfoldable pub check_tracks : (Text → Option ℕ) → List Text → List ZipTrackEntry → Result (Unit {0})
check_tracks metadata names [] = ok tt
check_tracks metadata names (track ∷ tracks) =
    let rest = check_tracks metadata (track.archive_filename ∷ names) tracks in
    do
      validate_entry_name track.archive_filename
      ensure (not (contains names track.archive_filename)) (duplicate_entry track.archive_filename)
      size ← ok_or (metadata track.file_path) (source track.file_path unreadable)
      same_size size track
      rest

unfoldable pub cover_bytes : (Text → Option ℕ) → Option Text → Result ℕ
cover_bytes metadata none = ok 0
cover_bytes metadata (some path) = ok_or (metadata path) (source path unreadable)

abbrev count_some : Option Text → ℕ
count_some none = 0
count_some (some _) = 1

-- What is left for the tracks and the cover of a part.
unfoldable pub usable_bytes : List ZipTrackEntry → Option Text → ℕ → Result ℕ
usable_bytes tracks cover max_part_bytes = do
  scaled ←
      ok_or (checked_mul (length tracks + count_some cover + 1) entry_overhead_bytes) invalid_limit
  overhead ← ok_or (checked_add scaled archive_headroom_bytes) invalid_limit
  ok (max_part_bytes - overhead)

abbrev pub is_empty {ℓ} : {A : Type ℓ} → List A → Bool
is_empty [] = true
is_empty (_ ∷ _) = false

-- The second loop, over the groups that are full, the group at hand and the size of that.
unfoldable pub group_tracks :
    ℕ
    → ℕ
    → List (List ZipTrackEntry)
    → List ZipTrackEntry
    → ℕ
    → List ZipTrackEntry
    → Result (List (List ZipTrackEntry))
group_tracks usable cover groups current current_size [] =
    ok (if is_empty current then groups else groups ++ current ∷ [])
group_tracks usable cover groups current current_size (track ∷ tracks) =
    let flush = not (is_empty current) && ltb usable (current_size + track.file_size) in
    let start : ℕ = if flush then cover else current_size in
    let rest =
      group_tracks usable cover (if flush then groups ++ current ∷ [] else groups)
        ((if flush then [] else current) ++ track ∷ []) (start + track.file_size) tracks in
    do
      ensure (not (ltb usable track.file_size)) (track_too_large track.archive_filename)
      ok_or (checked_add current_size track.file_size) invalid_limit
      ok_or (checked_add start track.file_size) invalid_limit
      rest

unfoldable pub archive_codec_label : Text → Text
archive_codec_label codec =
    if text_eq codec (codes "ec-3")
    then codes "Atmos"
    else if text_eq codec (codes "aac")
        || text_eq codec (codes "mp4a.40.2")
        || text_eq codec (codes "mp4a.40.5")
    then codes "AAC"
    else if text_eq codec (codes "flac")
    then codes "FLAC"
    else codes "ALAC"

-- ` (year)`, where the release date begins with four digits.
unfoldable pub year_part : Text → Text
year_part release_date =
    let year = take 4 release_date in
    if byte_len year == 4 && all is_digit year then codes " (" ++ (year ++ codes ")") else []

unfoldable pub part_suffix : Text → ℕ → ℕ → Text
part_suffix label part_index total_parts =
    if total_parts == 1
    then codes " [" ++ (label ++ codes "].zip")
    else codes " ["
      ++ (label
          ++ (codes "] (Part "
              ++ (print part_index ++ (codes " of " ++ (print total_parts ++ codes ").zip")))))

-- The naming of an album's archives.
pub record Naming : Type 0 where
  pub artist : Text
  pub album : Text
  pub release_date : Text
  pub codec : Text

unfoldable pub part_plan : Naming → Option Text → ℕ → ℕ → List ZipTrackEntry → ZipPartPlan
part_plan n cover total_parts part_index tracks =
    let suffix = part_suffix (archive_codec_label n.codec) part_index total_parts in
    record {
      part_index = part_index;
      total_parts = total_parts;
      tracks = tracks;
      cover_path = cover;
      archive_filename =
          sanitize_and_bound max_archive_filename_bytes
            (n.artist ++ (codes " - " ++ (n.album ++ (year_part n.release_date ++ suffix))))
            (some suffix);
    }

unfoldable pub number_parts :
    Naming → Option Text → ℕ → ℕ → List (List ZipTrackEntry) → List ZipPartPlan
number_parts n cover total index [] = []
number_parts n cover total index (tracks ∷ groups) =
    part_plan n cover total (index + 1) tracks ∷ number_parts n cover total (index + 1) groups

unfoldable pub plan_zip_parts_with_codec :
    (Text → Option ℕ) → Naming → List ZipTrackEntry → Option Text → ℕ → Result (List ZipPartPlan)
plan_zip_parts_with_codec metadata n tracks cover max_part_bytes = do
  ensure (not (is_empty tracks)) empty
  ensure (not (max_part_bytes == 0)) invalid_limit
  check_tracks metadata (codes "manifest.json" ∷ []) tracks
  cover_size ← cover_bytes metadata cover
  usable ← usable_bytes tracks cover max_part_bytes
  ensure (not (usable == 0 || ltb usable cover_size)) invalid_limit
  groups ← group_tracks usable cover_size [] [] cover_size tracks
  ok (number_parts n cover (length groups) 0 groups)
