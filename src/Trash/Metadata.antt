-- ===== src/Trash/Metadata.antt =====
-- internal/trash/metadata.go: the .trashinfo record of a token, written and read.
-- `time.Format` and `time.Parse` at the layout 2006-01-02T15:04:05 are an interface.
mod Encoded
mod Text
pub mod RoundTrip
use linux_deep_clean.Prelude.{
  ℕ, Bool, true, false, not, ◌&&◌, ◌||◌, List, [], ◌∷◌, ◌++◌, Option, none, some, ltb, leb, ◌==◌,
  if◌then◌else◌, Bytes, bytes_equal, codes, length, Result, ok, err, ◌>>=◌, ◌>>◌, require,
}
use linux_deep_clean.Pathbytes.BytePath.{PathError, BytePath, new_path}
use linux_deep_clean.Pathbytes.TrashCodec.{percent_encode_trash_path, percent_decode_trash_path}
use linux_deep_clean.Domain.Identifiers.{contains_byte}
use linux_deep_clean.Ledger.Records.{cut_prefix, split}
use linux_deep_clean.Trash.Facts.{Kinds, valid_token, valid_date}

pub record Clock (k : Kinds) : Type 0 where
  pub format : k.Time → Bytes
  pub parse : Bytes → Option k.Time

-- `trashPathBasis`
pub data Basis : Type 0 where
  home_absolute top_relative : Basis
  other_basis : ℕ → Basis

-- One constructor for each message.
pub data InfoError : Type 0 where
  bad_token bad_basis bad_date not_encoded too_long : InfoError
  bad_size control_byte no_header missing_key bad_form : InfoError
  bad_path : PathError → InfoError

-- `trashInfo`
pub record TrashInfo (k : Kinds) : Type 0 where
  pub token : Bytes
  pub basis : Basis
  pub path : BytePath
  pub deleted_at : k.Time

abbrev pub maximum_info_bytes : ℕ
maximum_info_bytes = 1048576

abbrev pub header : Bytes
header = codes "[Trash Info]"

abbrev pub path_key : Bytes
path_key = codes "Path="

abbrev pub date_key : Bytes
date_key = codes "DeletionDate="

unfoldable pub known_basis : Basis → Bool
known_basis home_absolute = true
known_basis top_relative = true
known_basis (other_basis n) = false

-- `trashInfoBasename`
unfoldable pub trash_info_basename : Bytes → Result InfoError Bytes
trash_info_basename token = do
  require (valid_token token) bad_token
  ok (token ++ codes ".trashinfo")

abbrev pub as_path : {A : Type 0} → Result PathError A → Result InfoError A
as_path (ok a) = ok a
as_path (err e) = err (bad_path e)

abbrev pub rooted : Basis → Bytes → Bytes
rooted home_absolute encoded = b'/' ∷ encoded
rooted top_relative encoded = encoded
rooted (other_basis n) encoded = encoded

-- A line of a group header ends the record.
unfoldable pub ends_with : ℕ → Bytes → Bool
ends_with c [] = false
ends_with c (a ∷ []) = a == c
ends_with c (a ∷ b ∷ rest) = ends_with c (b ∷ rest)

unfoldable pub is_group : Bytes → Bool
is_group [] = false
is_group (first ∷ []) = false
is_group (first ∷ second ∷ rest) = first == b'[' && ends_with b']' (second ∷ rest)

-- The two values found so far.
pub record Found : Type 0 where
  pub path : Option Bytes
  pub date : Option Bytes

abbrev pub is_new : Option Bytes → Option Bytes → Bool
is_new none (some value) = true
is_new _ _ = false

-- The switch on one line: the first value of each key is kept.
unfoldable pub take_line : Found → Bytes → Found
take_line found line =
    if is_new found.path (cut_prefix path_key line)
    then record found { path = cut_prefix path_key line }
    else if is_new found.date (cut_prefix date_key line)
    then record found { date = cut_prefix date_key line }
    else found

unfoldable pub take_lines : Found → List Bytes → Found
take_lines found [] = found
take_lines found (line ∷ lines) =
    let rest = take_lines (take_line found line) lines in if is_group line then found else rest

-- Behind the test of the first line.
unfoldable pub take_body : List Bytes → Result InfoError Found
take_body [] = err no_header
take_body (first ∷ lines) = do
  require (bytes_equal first header) no_header
  ok (take_lines (record { path = none; date = none }) lines)

unfoldable pub required : Option Bytes → Result InfoError Bytes
required none = err missing_key
required (some value) = ok value

-- The syntax of the path for a basis; the empty text is refused before.
unfoldable pub path_text : Basis → Bytes → Result InfoError Bytes
path_text basis [] = err bad_form
path_text home_absolute (c ∷ rest) = do
  require (not (not (c == b'/') || length (c ∷ rest) == 1)) bad_form
  ok rest
path_text top_relative (c ∷ rest) = do require (not (c == b'/')) bad_form; ok (c ∷ rest)
path_text (other_basis n) (c ∷ rest) = err bad_basis

-- `parseTrashMetadataPath`
unfoldable pub parse_metadata_path : Bytes → Basis → Result InfoError BytePath
parse_metadata_path encoded basis = do
  text ← path_text basis encoded
  as_path (percent_decode_trash_path text)

module _ {k : Kinds} where
  -- `trashInfo.validate`
  unfoldable pub validate_info : TrashInfo k → Result InfoError (Unit {0})
  validate_info info = do
    trash_info_basename info.token
    require (known_basis info.basis) bad_basis
    as_path (new_path info.path.components)
    as_path (percent_decode_trash_path (percent_encode_trash_path info.path))
    require (valid_date k info.deleted_at) bad_date

  -- `newTrashInfo`
  unfoldable pub new_trash_info : Bytes → Basis → BytePath → k.Time → Result InfoError (TrashInfo k)
  new_trash_info token basis path deleted_at = do
    let info : TrashInfo k = record {
      token = token;
      basis = basis;
      path = path;
      deleted_at = deleted_at;
    }
    validate_info info
    ok info

  module _ (clock : Clock k) where
    abbrev pub contents_of : TrashInfo k → Bytes
    contents_of info =
        header
        ++ b'\n'
          ∷ (path_key
              ++ (rooted info.basis (percent_encode_trash_path info.path)
                  ++ b'\n' ∷ (date_key ++ (clock.format info.deleted_at ++ b'\n' ∷ []))))

    -- `marshal`
    unfoldable pub marshal : TrashInfo k → Result InfoError Bytes
    marshal info = do
      validate_info info
      require (not (length (percent_encode_trash_path info.path) == 0)) not_encoded
      require (leb (length (contents_of info)) maximum_info_bytes) too_long
      ok (contents_of info)

    unfoldable pub parsed_date : Bytes → Option k.Time → Result InfoError k.Time
    parsed_date value none = err bad_date
    parsed_date value (some parsed) = do
      require (bytes_equal (clock.format parsed) value) bad_date
      require (valid_date k parsed) bad_date
      ok parsed

    -- `parseTrashDeletionDate`
    unfoldable pub parse_deletion_date : Bytes → Result InfoError k.Time
    parse_deletion_date value = do
      require (length value == 19) bad_date
      parsed_date value (clock.parse value)

    -- `parseTrashInfo`
    unfoldable pub parse_trash_info : Bytes → Bytes → Basis → Result InfoError (TrashInfo k)
    parse_trash_info contents token basis = do
      trash_info_basename token
      require (known_basis basis) bad_basis
      require (not (length contents == 0 || ltb maximum_info_bytes (length contents))) bad_size
      require (not (contains_byte contents 0 || contains_byte contents b'\r')) control_byte
      found ← take_body (split b'\n' contents)
      path_value ← required found.path
      date_value ← required found.date
      path ← parse_metadata_path path_value basis
      deleted_at ← parse_deletion_date date_value
      new_trash_info token basis path deleted_at
