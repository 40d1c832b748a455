-- ===== src/Ledger/Records.antt =====
-- internal/linuxfs/private_ledger_linux.go: the identity of a retained frame and its file name.

pub mod RoundTrip
use linux_deep_clean.Prelude.{
  ℕ, ◌+◌, ◌-◌, ◌*◌, ◌/◌, ◌%◌, Bool, true, false, ◌&&◌, ◌||◌, List, [], ◌∷◌, ◌++◌, Option, none,
  some, leb, ◌==◌, if◌then◌else◌, Bytes, bytes_equal, codes, length, Result, ok, err, ◌>>=◌, ◌>>◌,
  require,
}

-- One constructor for each message.
pub data RecordError : Type 0 where
  bad_digest bad_token bad_ordinal : RecordError
  not_record bad_components noncanonical : RecordError

-- `PrivateLedgerRecordID`
pub record RecordId : Type 0 where
  pub digest : Bytes
  pub token : Bytes
  pub ordinal : ℕ

abbrev pub token_prefix : Bytes
token_prefix = codes "ldc-"

abbrev pub record_prefix : Bytes
record_prefix = codes "ldc-ledger-v1-"

abbrev pub record_suffix : Bytes
record_suffix = codes ".cbor"

unfoldable pub hex_byte : ℕ → Bool
hex_byte character =
    leb b'0' character && leb character b'9' || leb b'a' character && leb character b'f'

-- `isLowerHex`
unfoldable pub is_lower_hex : Bytes → Bool
is_lower_hex [] = true
is_lower_hex (character ∷ rest) = hex_byte character && is_lower_hex rest

-- `strings.HasPrefix` and the text behind the prefix
unfoldable pub cut_prefix : Bytes → Bytes → Option Bytes
cut_prefix [] text = some text
cut_prefix (p ∷ prefix) [] = none
cut_prefix (p ∷ prefix) (c ∷ text) =
    let rest = cut_prefix prefix text in if p == c then rest else none

abbrev pub add_front : ℕ → Option Bytes → Option Bytes
add_front c none = none
add_front c (some text) = some (c ∷ text)

-- `strings.HasSuffix` and the text before the suffix
unfoldable pub cut_suffix : Bytes → Bytes → Option Bytes
cut_suffix suffix [] = if bytes_equal suffix [] then some [] else none
cut_suffix suffix (c ∷ text) =
    let rest = cut_suffix suffix text in
    if bytes_equal suffix (c ∷ text) then some [] else add_front c rest

abbrev pub extend_first : ℕ → List Bytes → List Bytes
extend_first c [] = (c ∷ []) ∷ []
extend_first c (part ∷ parts) = (c ∷ part) ∷ parts

-- `strings.Split` at a byte
unfoldable pub split : ℕ → Bytes → List Bytes
split separator [] = [] ∷ []
split separator (c ∷ text) =
    let parts = split separator text in if c == separator then [] ∷ parts else extend_first c parts

unfoldable pub hex_token : Option Bytes → Bool
hex_token none = false
hex_token (some digits) = length digits == 64 && is_lower_hex digits

-- `NewPrivateLedgerRecordID`
unfoldable pub new_record_id : Bytes → Bytes → ℕ → Result RecordError RecordId
new_record_id digest token ordinal = do
  require (length digest == 64 && is_lower_hex digest) bad_digest
  require (hex_token (cut_prefix token_prefix token)) bad_token
  require (leb ordinal 15) bad_ordinal
  ok (record { digest = digest; token = token; ordinal = ordinal })

-- `%02d` of a number below 100
abbrev pub two_digits : ℕ → Bytes
two_digits n = (b'0' + n / 10) ∷ (b'0' + n % 10) ∷ []

unfoldable pub basename : RecordId → Bytes
basename id =
    record_prefix
    ++ id.digest
    ++ b'-' ∷ (id.token ++ b'-' ∷ (two_digits id.ordinal ++ record_suffix))

abbrev pub digit : ℕ → Bool
digit c = leb b'0' c && leb c b'9'

-- `parsePrivateLedgerOrdinal`; 16 is one more than the largest ordinal.
unfoldable pub parse_ordinal : Bytes → ℕ
parse_ordinal (tens ∷ units ∷ []) =
    if digit tens && digit units then (tens - b'0') * 10 + (units - b'0') else 16
parse_ordinal value = 16

unfoldable pub same_name : Bytes → RecordId → Result RecordError RecordId
same_name name id = do require (bytes_equal (basename id) name) noncanonical; ok id

-- The four parts between the dashes.
unfoldable pub id_of_parts : Bytes → List Bytes → Result RecordError RecordId
id_of_parts name (digest ∷ tag ∷ token ∷ ordinal ∷ []) = do
  require (bytes_equal tag (codes "ldc")) bad_components
  id ← new_record_id digest (token_prefix ++ token) (parse_ordinal ordinal)
  same_name name id
id_of_parts name parts = err bad_components

abbrev pub cut_both : Option Bytes → Option Bytes
cut_both none = none
cut_both (some text) = cut_suffix record_suffix text

abbrev pub id_of_body : Bytes → Option Bytes → Result RecordError RecordId
id_of_body name none = err not_record
id_of_body name (some body) = id_of_parts name (split b'-' body)

-- `privateLedgerRecordIDFromBasename`
unfoldable pub record_id_of_basename : Bytes → Result RecordError RecordId
record_id_of_basename name = id_of_body name (cut_both (cut_prefix record_prefix name))
