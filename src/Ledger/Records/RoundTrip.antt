-- ===== src/Ledger/Records/RoundTrip.antt =====
-- The file names of internal/linuxfs/private_ledger_linux.go are read back to the identities.
use linux_deep_clean.Prelude.{
  ℕ, ◌≤◌, ◌≡◌, refl, sym, ap, Bool-cases, inl, inr, ◌∙◌, arith, true, false, ◌&&◌, [], ◌∷◌, ◌++◌,
  append_assoc, Option, none, some, leb, leb→le, ◌==◌, ==_iff, Bytes, bytes_equal, bytes_equal_iff,
  codes, length, length-append, ok, bind-eq-ok, ok-injective, require, require-eq-ok, and-eq-true,
}
use linux_deep_clean.Ledger.Records.{
  RecordId, token_prefix, record_prefix, record_suffix, hex_byte, is_lower_hex, cut_prefix,
  cut_suffix, split, hex_token, cut_both, new_record_id, two_digits, basename, parse_ordinal,
  same_name, id_of_parts, record_id_of_basename,
}

cut_prefix-append : (prefix text : Bytes) → cut_prefix prefix (prefix ++ text) ≡ some text
unfolding cut_prefix
cut_prefix-append [] text = refl
cut_prefix-append (p ∷ prefix) text = ground (arith, cut_prefix-append prefix text)

cut_prefix-some :
    (prefix text rest : Bytes) → cut_prefix prefix text ≡ some rest → text ≡ prefix ++ rest
unfolding cut_prefix
cut_prefix-some [] text rest h = ground arith
cut_prefix-some (p ∷ prefix) [] rest h = cc
cut_prefix-some (p ∷ prefix) (c ∷ text) rest h = ground (arith, cut_prefix-some prefix text rest)

shorter : (c : ℕ) (text suffix : Bytes) → bytes_equal suffix (c ∷ (text ++ suffix)) ≡ false
shorter c text suffix = elim (Bool-cases (bytes_equal suffix (c ∷ (text ++ suffix)))) [
  | inl e ↦
      let same = (bytes_equal_iff suffix (c ∷ (text ++ suffix))).0 e in
      let long : length suffix ≡ length (c ∷ (text ++ suffix)) = ap length same in
      absurd (omega (arith, long, length-append text suffix))
  | inr e ↦ e
]

cut_suffix_self : (suffix : Bytes) → cut_suffix suffix suffix ≡ some []
unfolding cut_suffix bytes_equal
cut_suffix_self [] = refl
cut_suffix_self (c ∷ suffix) = rw ((bytes_equal_iff (c ∷ suffix) (c ∷ suffix)).1 refl) refl

cut_suffix-append : (suffix text : Bytes) → cut_suffix suffix (text ++ suffix) ≡ some text
unfolding cut_suffix
cut_suffix-append suffix [] = cut_suffix_self suffix
cut_suffix-append suffix (c ∷ text) = rw (shorter c text suffix, cut_suffix-append suffix text) refl

split_dash :
    (digits rest : Bytes)
    → is_lower_hex digits ≡ true
    → split b'-' (digits ++ b'-' ∷ rest) ≡ digits ∷ split b'-' rest
unfolding split is_lower_hex hex_byte
split_dash [] rest h = refl
split_dash (c ∷ digits) rest h = ground (arith, split_dash digits rest)

parse_ordinal-two_digits : (n : ℕ) → n ≤ 15 → parse_ordinal (two_digits n) ≡ n
unfolding parse_ordinal
parse_ordinal-two_digits n h = ground arith

split_ordinal : (n : ℕ) → split b'-' (two_digits n) ≡ two_digits n ∷ []
unfolding split
split_ordinal n = ground arith

-- An identity that the constructor accepts.
pub record IsRecordId (id : RecordId) : Type 0 where
  pub digits : Bytes
  pub digest_size : length id.digest ≡ 64
  pub digest_hex : is_lower_hex id.digest ≡ true
  pub token_is : id.token ≡ token_prefix ++ digits
  pub token_size : length digits ≡ 64
  pub token_hex : is_lower_hex digits ≡ true
  pub small : id.ordinal ≤ 15

hex_token-some :
    (o : Option Bytes)
    → hex_token o ≡ true
    → (digits : Bytes) × (o ≡ some digits) × (length digits ≡ 64) × (is_lower_hex digits ≡ true)
unfolding hex_token
hex_token-some none h = cc
hex_token-some (some digits) h =
    let (size, hex) = and-eq-true (length digits == 64) _ h in
    (digits, refl, (==_iff _ _).0 size, hex)

-- An identity is made of exactly its three values, which are valid.
pub new_record_id-IsRecordId :
    (digest token : Bytes) (ordinal : ℕ) (id : RecordId)
    → new_record_id digest token ordinal ≡ ok id
    → IsRecordId id × (id ≡ record { digest = digest; token = token; ordinal = ordinal })
unfolding new_record_id
new_record_id-IsRecordId digest token ordinal id h =
    let (_, first, h1) = bind-eq-ok (require (length digest == 64 && is_lower_hex digest) _) _ h in
    let (_, second, h2) = bind-eq-ok (require (hex_token (cut_prefix token_prefix token)) _) _ h1 in
    let (_, third, same) = bind-eq-ok (require (leb ordinal 15) _) _ h2 in
    let (size, hex) = and-eq-true (length digest == 64) _ (require-eq-ok _ _ first) in
    let (digits, found, digits_size, digits_hex) = hex_token-some _ (require-eq-ok _ _ second) in
    let is = sym (ok-injective same) in
    (
      rw is (record {
        digits = digits;
        digest_size = (==_iff _ _).0 size;
        digest_hex = hex;
        token_is = cut_prefix-some token_prefix token digits found;
        token_size = digits_size;
        token_hex = digits_hex;
        small = leb→le _ _ (require-eq-ok _ _ third);
      }),
      is,
    )

-- The text between the prefix and the suffix.
abbrev body : RecordId → Bytes → Bytes
body id digits =
    id.digest ++ b'-' ∷ (codes "ldc" ++ b'-' ∷ (digits ++ b'-' ∷ two_digits id.ordinal))

basename-body :
    (id : RecordId) (digits : Bytes)
    → id.token ≡ token_prefix ++ digits
    → basename id ≡ record_prefix ++ (body id digits ++ record_suffix)
unfolding basename
basename-body id digits h =
    rw (h, append_assoc id.digest _ record_suffix, append_assoc digits _ record_suffix) refl

split_tag : (rest : Bytes) → split b'-' (codes "ldc" ++ b'-' ∷ rest) ≡ codes "ldc" ∷ split b'-' rest
unfolding split
split_tag rest = refl

split-body :
    (id : RecordId) (is : IsRecordId id)
    → split b'-' (body id is.digits)
      ≡ id.digest ∷ codes "ldc" ∷ is.digits ∷ two_digits id.ordinal ∷ []
split-body id is =
    split_dash id.digest _ is.digest_hex
    ∙ rw
        (
          split_tag (is.digits ++ b'-' ∷ two_digits id.ordinal),
          split_dash is.digits (two_digits id.ordinal) is.token_hex,
          split_ordinal id.ordinal,
        )
        refl

cut_basename :
    (id : RecordId) (digits : Bytes)
    → id.token ≡ token_prefix ++ digits
    → cut_both (cut_prefix record_prefix (basename id)) ≡ some (body id digits)
cut_basename id digits h =
    rw
      (basename-body id digits h, cut_prefix-append record_prefix (body id digits ++ record_suffix))
      (cut_suffix-append record_suffix (body id digits))

-- A valid identity is read back from its file name.
pub record_id_of_basename-basename :
    (digest token : Bytes) (ordinal : ℕ) (id : RecordId)
    → new_record_id digest token ordinal ≡ ok id
    → record_id_of_basename (basename id) ≡ ok id
unfolding record_id_of_basename id_of_parts same_name bytes_equal
record_id_of_basename-basename digest token ordinal id h =
    let (is, made) = new_record_id-IsRecordId digest token ordinal id h in
    let digits = is.digits in
    let rebuilt : new_record_id id.digest (token_prefix ++ digits)
          (parse_ordinal (two_digits id.ordinal))
        ≡ ok id =
      rw (sym is.token_is, parse_ordinal-two_digits id.ordinal is.small)
        (rw (made) (h ∙ ap ok made)) in
    rw
      (
        cut_basename id digits is.token_is,
        split-body id is,
        rebuilt,
        (bytes_equal_iff (basename id) (basename id)).1 refl,
      )
      refl
