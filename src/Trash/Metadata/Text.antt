-- ===== src/Trash/Metadata/Text.antt =====
-- The three lines of a .trashinfo record of internal/trash/metadata.go.
use mathlib.Core.Path.{subst}
use linux_deep_clean.Prelude.{
  append_assoc, ℕ, ◌/◌, ◌%◌, ◌≡◌, refl, sym, ap, ◌∙◌, arith, true, false, Bool-cases, inl, inr,
  List, [], ◌∷◌, ◌++◌, All, none, some, ◌==◌, Bytes, ok,
}
use linux_deep_clean.Pathbytes.BytePath.{upper_hex}
use linux_deep_clean.Pathbytes.BytePath.Names.{IsPath}
use linux_deep_clean.Pathbytes.TrashCodec.{
  trash_unreserved, encode_byte, encode_component, encode_from,
}
use linux_deep_clean.Pathbytes.TrashCodec.Nibbles.{unreserved-ne-slash}
use linux_deep_clean.Domain.Identifiers.{contains_byte}
use linux_deep_clean.Ledger.Records.{cut_prefix, split}
use linux_deep_clean.Trash.Metadata.{
  Basis, home_absolute, top_relative, other_basis, header, path_key, date_key, known_basis, rooted,
  is_group, ends_with, take_line, take_lines, path_text,
}
use linux_deep_clean.Trash.Metadata.Encoded.{
  IsVisible, visible-contains, contains_byte-append, split_line,
}

-- The text of a path is not empty, and has no control byte.
pub path_text-rooted :
    (basis : Basis) (c : ℕ) (rest : Bytes)
    → known_basis basis ≡ true
    → (c == b'/') ≡ false
    → path_text basis (rooted basis (c ∷ rest)) ≡ ok (c ∷ rest)
unfolding path_text known_basis
path_text-rooted home_absolute c rest h first = ground arith
path_text-rooted top_relative c rest h first = ground arith
path_text-rooted (other_basis n) c rest h first = cc

pub rooted-IsVisible :
    (basis : Basis) (text : Bytes) → All IsVisible text → All IsVisible (rooted basis text)
rooted-IsVisible home_absolute text h = (omega arith, h)
rooted-IsVisible top_relative text h = h
rooted-IsVisible (other_basis n) text h = h

pub take_two :
    (path date : Bytes)
    → take_lines
        (record { path = none; date = none })
        ((path_key ++ path) ∷ (date_key ++ date) ∷ [] ∷ [])
      ≡ record { path = some path; date = some date }
unfolding take_lines take_line is_group ends_with cut_prefix
take_two path date = refl

-- A text that starts with a byte other than the separator.
pub record Starts (text : Bytes) : Type 0 where
  pub first : ℕ
  pub rest : Bytes
  pub text_is : text ≡ first ∷ rest
  pub no_slash : (first == b'/') ≡ false

encode_byte-Starts : (v : ℕ) (more : Bytes) → Starts (encode_byte v ++ more)
unfolding encode_byte
encode_byte-Starts v more = elim (Bool-cases (trash_unreserved v)) [
  | inl e ↦ record {
    first = v;
    rest = more;
    text_is = rw e refl;
    no_slash = unreserved-ne-slash v e;
  }
  | inr e ↦ record {
    first = b'%';
    rest = upper_hex (v / 16) ∷ upper_hex (v % 16) ∷ more;
    text_is = rw e refl;
    no_slash = refl;
  }
]

pub encode_from-Starts : (cs : List Bytes) → IsPath cs → Starts (encode_from 0 cs)
unfolding encode_from encode_component
encode_from-Starts [] p = absurd (p.some_component refl)
encode_from-Starts ([] ∷ cs) p = absurd (p.names.0.ne_nil refl)
encode_from-Starts ((v ∷ c) ∷ cs) p =
    subst Starts (sym (append_assoc (encode_byte v) (encode_component c) (encode_from 1 cs)))
      (encode_byte-Starts v (encode_component c ++ encode_from 1 cs))

-- The whole text, around a path and a date.
abbrev pub frame : Bytes → Bytes → Bytes
frame path date =
    header ++ b'\n' ∷ (path_key ++ (path ++ b'\n' ∷ (date_key ++ (date ++ b'\n' ∷ []))))

pub frame_contains :
    (path date : Bytes)
    → All IsVisible path
    → All IsVisible date
    → (contains_byte (frame path date) 0 ≡ false) × (contains_byte (frame path date) b'\r' ≡ false)
unfolding contains_byte
frame_contains path date p d = (
  rw
      (
        contains_byte-append path (b'\n' ∷ (date_key ++ (date ++ b'\n' ∷ []))) 0,
        visible-contains 0 path (omega arith) p,
        contains_byte-append date (b'\n' ∷ []) 0,
        visible-contains 0 date (omega arith) d,
      )
      refl,
  rw
      (
        contains_byte-append path (b'\n' ∷ (date_key ++ (date ++ b'\n' ∷ []))) b'\r',
        visible-contains b'\r' path (omega arith) p,
        contains_byte-append date (b'\n' ∷ []) b'\r',
        visible-contains b'\r' date (omega arith) d,
      )
      refl,
)

pub split-frame :
    (path date : Bytes)
    → All IsVisible path
    → All IsVisible date
    → split b'\n' (frame path date) ≡ header ∷ (path_key ++ path) ∷ (date_key ++ date) ∷ [] ∷ []
unfolding contains_byte split
split-frame path date p d =
    split_line b'\n' header (path_key ++ (path ++ b'\n' ∷ (date_key ++ (date ++ b'\n' ∷ [])))) refl
    ∙ ap (λ lines. header ∷ lines)
        (split_line b'\n' (path_key ++ path) (date_key ++ (date ++ b'\n' ∷ []))
            (visible-contains b'\n' path (omega arith) p)
          ∙ ap (λ lines. (path_key ++ path) ∷ lines)
              (split_line b'\n' (date_key ++ date) []
                (visible-contains b'\n' date (omega arith) d)))
