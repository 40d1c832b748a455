-- ===== src/Domain/Identifiers/Names.antt =====
-- An identifier that `validateStableID` of internal/domain/identifiers.go accepts can stand in a file
-- name, and one that `NewManagerObjectID` accepts never reads as a path out of its tree or an option.
use linux_deep_clean.Prelude.{
  ℕ, ◌+◌, ◌≤◌, ◌≡◌, ◌≢◌, refl, sym, arith, Bool, true, false, not, ◌||◌, [], ◌∷◌, ◌++◌, ltb, leb,
  ◌==◌, leb→le, All, Bytes, length, ok, require, require-eq-ok, bind-eq-ok, ok-injective,
}
use linux_deep_clean.Pathbytes.BytePath.Names.{IsName}
use linux_deep_clean.Pathbytes.TrashCodec.{trash_unreserved, encode_byte, encode_component}
use linux_deep_clean.Domain.Identifiers.{
  stable_byte, stable_bytes, validate_stable_id, contains_twice, object_byte, object_bytes,
  validate_manager_object_id, new_manager_object_id,
}

-- A byte of a stable ID.
abbrev pub IsStableByte : ℕ → Type 0
IsStableByte c = stable_byte 1 c ≡ true

stable_byte-any : (i c : ℕ) → stable_byte i c ≡ true → stable_byte 1 c ≡ true
unfolding stable_byte
stable_byte-any i c h = ground arith

stable_bytes-All : (i : ℕ) (v : Bytes) → stable_bytes i v ≡ ok tt → All IsStableByte v
unfolding stable_bytes
stable_bytes-All i [] h = tt
stable_bytes-All i (c ∷ v) h =
    let (_, here, h1) = bind-eq-ok (require (stable_byte i c) _) _ h in
    (stable_byte-any i c (require-eq-ok _ _ here), stable_bytes-All (i + 1) v h1)

-- A lower-case letter or a digit.
abbrev pub IsStableFirst : ℕ → Type 0
IsStableFirst c = stable_byte 0 c ≡ true

-- What an accepted stable ID is.
pub record IsStableId (value : Bytes) : Type 0 where
  pub first : ℕ
  pub rest : Bytes
  pub splits : value ≡ first ∷ rest
  pub bounded : length value ≤ 96
  pub starts : IsStableFirst first
  pub bytes : All IsStableByte value

-- An accepted stable ID has from 1 to 96 bytes, of lower-case letters, digits, `-`, `_` and `.`, and
-- starts with a letter or digit.
pub validate_stable_id-IsStableId :
    (value : Bytes) → validate_stable_id value ≡ ok tt → IsStableId value
unfolding validate_stable_id stable_bytes
validate_stable_id-IsStableId [] h = cc
validate_stable_id-IsStableId (c ∷ v) h =
    let (_, short, h1) = bind-eq-ok (require (leb (length (c ∷ v)) 96) _) _ h in
    let (_, _, h2) = bind-eq-ok (require (not (c == b'-' || c == b'.')) _) _ h1 in
    let (_, starts, h3) = bind-eq-ok (require (stable_byte 0 c) _) _ h2 in
    let first = require-eq-ok _ _ starts in
    record {
      first = c;
      rest = v;
      splits = refl;
      bounded = leb→le _ _ (require-eq-ok _ _ short);
      starts = first;
      bytes = (stable_byte-any 0 c first, stable_bytes-All 1 v h3);
    }

stable_byte-clean : (c : ℕ) → IsStableByte c → (c ≢ 0) × (c ≢ b'/')
unfolding stable_byte
stable_byte-clean c h = ground arith

stable_byte-encode_byte : (c : ℕ) → IsStableByte c → encode_byte c ≡ c ∷ []
unfolding stable_byte encode_byte trash_unreserved
stable_byte-encode_byte c h = ground arith

stable_first-ne-dot : (c : ℕ) → IsStableFirst c → c ≢ b'.'
unfolding stable_byte
stable_first-ne-dot c h = ground arith

All-clean : (v : Bytes) → All IsStableByte v → All (λ b. (b ≢ 0) × (b ≢ b'/')) v
All-clean [] h = tt
All-clean (c ∷ v) (h, k) = (stable_byte-clean c h, All-clean v k)

All-encode_component : (v : Bytes) → All IsStableByte v → encode_component v ≡ v
unfolding encode_component
All-encode_component [] h = refl
All-encode_component (c ∷ v) (h, k) = rw (stable_byte-encode_byte c h, All-encode_component v k)

cons-ne-dot : (c : ℕ) (v w : Bytes) → IsStableFirst c → c ∷ v ≢ b'.' ∷ w
cons-ne-dot c v w first e = let dot : c ≡ b'.' = cc in stable_first-ne-dot c first dot

neither : (a b : Bool) → not (a || b) ≡ true → (a ≡ false) × (b ≡ false)
neither a b h = (ground arith, ground arith)

cons-IsName : (c : ℕ) (v : Bytes) → IsStableFirst c → All IsStableByte (c ∷ v) → IsName (c ∷ v)
cons-IsName c v first h = record {
  ne_nil = λ e. cc;
  ne_dot = λ e. cons-ne-dot c v [] first e;
  ne_dot_dot = λ e. cons-ne-dot c v (b'.' ∷ []) first e;
  clean = All-clean (c ∷ v) h;
}

-- An accepted stable ID is a file name, and the Trash encoding leaves it as it is.
pub validate_stable_id-IsName :
    (value : Bytes)
    → validate_stable_id value ≡ ok tt
    → IsName value × (encode_component value ≡ value)
validate_stable_id-IsName value h =
    let s = validate_stable_id-IsStableId value h in
    (
      rw s.splits (cons-IsName s.first s.rest s.starts (rw s.splits at (s.bytes))),
      All-encode_component value s.bytes,
    )

contains_twice-append : (c : ℕ) (a b : Bytes) → contains_twice c (a ++ c ∷ c ∷ b) ≡ true
unfolding contains_twice
contains_twice-append c [] b = ground arith
contains_twice-append c (x ∷ []) b = ground arith
contains_twice-append c (x ∷ y ∷ a) b = ground (arith, contains_twice-append c (y ∷ a) b)

-- No two bytes `c` side by side.
abbrev pub NeverTwice : ℕ → Bytes → Type 0
NeverTwice c value = (a b : Bytes) → value ≢ a ++ c ∷ c ∷ b

NeverTwice-contains_twice : (c : ℕ) (v : Bytes) → contains_twice c v ≡ false → NeverTwice c v
NeverTwice-contains_twice c v h a b e = let twice = contains_twice-append c a b in cc

pub record IsObjectId (value : Bytes) : Type 0 where
  pub first : ℕ
  pub rest : Bytes
  pub splits : value ≡ first ∷ rest
  pub bounded : length value ≤ 256
  pub not_option : first ≢ b'-'
  pub not_absolute : first ≢ b'/'
  pub no_parent : NeverTwice b'.' value
  pub no_empty_segment : NeverTwice b'/' value
  pub printable : All (λ c. (0x21 ≤ c) × (c ≤ 0x7e)) value

object_bytes-printable : (v : Bytes) → object_bytes v ≡ ok tt → All (λ c. (0x21 ≤ c) × (c ≤ 0x7e)) v
unfolding object_bytes
object_bytes-printable [] h = tt
object_bytes-printable (c ∷ v) h =
    let (_, printable, h1) = bind-eq-ok (require (not (ltb c 0x21 || ltb 0x7e c)) _) _ h in
    let (_, _, h2) = bind-eq-ok (require (object_byte c) _) _ h1 in
    let range = require-eq-ok _ _ printable in (ground arith, object_bytes-printable v h2)

-- An accepted manager object ID has from 1 to 256 printable bytes, starts neither like an
-- absolute path nor like an option, and has no `..` and no empty segment anywhere.
pub new_manager_object_id-IsObjectId :
    (value id : Bytes) → new_manager_object_id value ≡ ok id → IsObjectId value × (id ≡ value)
unfolding new_manager_object_id validate_manager_object_id
new_manager_object_id-IsObjectId [] id h = cc
new_manager_object_id-IsObjectId (c ∷ v) id h =
    let (_, valid, same) = bind-eq-ok (validate_manager_object_id (c ∷ v)) _ h in
    let (_, short, h1) = bind-eq-ok (require (leb (length (c ∷ v)) 256) _) _ valid in
    let (_, start, h2) = bind-eq-ok (require (not (c == b'/' || c == b'-')) _) _ h1 in
    let (_, plain, h3) =
      bind-eq-ok (require (not (contains_twice b'.' (c ∷ v) || contains_twice b'/' (c ∷ v))) _) _
        h2 in
    let starts = require-eq-ok _ _ start in
    let (no_dots, no_slashes) = neither _ _ (require-eq-ok _ _ plain) in
    (
      record {
        first = c;
        rest = v;
        splits = refl;
        bounded = leb→le _ _ (require-eq-ok _ _ short);
        not_option = λ e. ground arith;
        not_absolute = λ e. ground arith;
        no_parent = NeverTwice-contains_twice b'.' (c ∷ v) no_dots;
        no_empty_segment = NeverTwice-contains_twice b'/' (c ∷ v) no_slashes;
        printable = object_bytes-printable (c ∷ v) h3;
      },
      sym (ok-injective same),
    )
