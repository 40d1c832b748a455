-- ===== src/Pathbytes/TrashCodec/Nibbles.antt =====
-- One byte of the percent form: hexadecimal digits, and what stands for a byte.
use Prim.Native.Nat.{bit_or}
use linux_deep_clean.Prelude.{
  ℕ, zero, suc, ◌+◌, ◌*◌, ◌/◌, ◌%◌, ◌<◌, Bool, true, false, ◌&&◌, ◌≡◌, refl, [], ◌∷◌, Option, some,
  ◌==◌, arith, ==_iff, ok, bind-eq-ok, ap, ◌∙◌,
}
use linux_deep_clean.Pathbytes.BytePath.{DecodeLimits, upper_hex}
use linux_deep_clean.Pathbytes.TrashCodec.{
  trash_unreserved, canonical_hex_digit, encode_byte, hex_pair, decode_escape,
}

passes : (ℕ → Bool) → ℕ → Bool
passes test zero = true
passes test (suc bound) = test bound && passes test bound

passes-lt : (test : ℕ → Bool) (bound v : ℕ) → v < bound → passes test bound ≡ true → test v ≡ true
unfolding passes
passes-lt test zero v below h = absurd (omega (arith, below))
passes-lt test (suc bound) v below h = ground (arith, passes-lt test bound v)

abbrev joins : ℕ → ℕ → Bool
joins high low = bit_or (high * 16 % 256) low == high * 16 + low

-- All 256 pairs of digits.
every_pair_joins : passes (λ high. passes (joins high) 16) 16 ≡ true
unfolding passes
every_pair_joins = refl

pub bit_or_nibbles : (h l : ℕ) → h < 16 → l < 16 → bit_or (h * 16 % 256) l ≡ h * 16 + l
bit_or_nibbles h l p q =
    let row = passes-lt (λ high. passes (joins high) 16) 16 h p every_pair_joins in
    (==_iff _ _).0 (passes-lt (joins h) 16 l q row)

pub canonical_hex_digit-upper_hex : (n : ℕ) → n < 16 → canonical_hex_digit (upper_hex n) ≡ some n
unfolding canonical_hex_digit upper_hex
canonical_hex_digit-upper_hex n h = ground arith

pub upper_hex-canonical_hex_digit :
    (c n : ℕ) → canonical_hex_digit c ≡ some n → (n < 16) × (upper_hex n ≡ c)
unfolding canonical_hex_digit upper_hex
upper_hex-canonical_hex_digit c n h = ground arith

pub upper_hex-ne-slash : (n : ℕ) → n < 16 → (upper_hex n == b'/') ≡ false
unfolding upper_hex
upper_hex-ne-slash n h = ground arith

pub unreserved-ne-slash : (v : ℕ) → trash_unreserved v ≡ true → (v == b'/') ≡ false
unfolding trash_unreserved
unreserved-ne-slash v h = ground arith

pub unreserved-lt : (v : ℕ) → trash_unreserved v ≡ true → v < 256
unfolding trash_unreserved
unreserved-lt v h = ground arith

hex_pair-ok :
    (a b : Option ℕ) {d : ℕ}
    → hex_pair a b ≡ ok d
    → (p q : ℕ) × (a ≡ some p) × (b ≡ some q) × (d ≡ bit_or (p * 16 % 256) q)
unfolding hex_pair
hex_pair-ok (some p) (some q) h = (p, q, refl, refl, cc)
hex_pair-ok _ _ h = cc

module _ (limits : DecodeLimits) where
  -- The two digits that the encoder writes for a reserved byte are read back as that byte.
  pub decode_escape-upper_hex :
      (v n : ℕ)
      → v < 256
      → trash_unreserved v ≡ false
      → n < limits.max_decoded_bytes
      → decode_escape limits (upper_hex (v / 16)) (upper_hex (v % 16)) n ≡ ok v
  unfolding decode_escape hex_pair
  decode_escape-upper_hex v n b u m =
      let whole : v ≡ v / 16 * 16 + v % 16 = omega arith in
      rw
        (
          canonical_hex_digit-upper_hex (v / 16) (omega arith),
          canonical_hex_digit-upper_hex (v % 16) (omega arith),
          bit_or_nibbles (v / 16) (v % 16) (omega arith) (omega arith),
          ← whole,
        )
        (ground arith)

  -- An accepted escape is the one that the encoder writes.
  pub encode_byte-decode_escape :
      (x y n : ℕ) (d : ℕ)
      → decode_escape limits x y n ≡ ok d
      → (encode_byte d ≡ b'%' ∷ x ∷ y ∷ []) × (n < limits.max_decoded_bytes) × (d < 256)
  unfolding decode_escape encode_byte
  encode_byte-decode_escape x y n d h =
      let (d', pair, later) =
        bind-eq-ok (hex_pair (canonical_hex_digit x) (canonical_hex_digit y)) _ h in
      let (p, q, ex, ey, e) = hex_pair-ok _ _ pair in
      let (p_lt, hex_p) = upper_hex-canonical_hex_digit x p ex in
      let (q_lt, hex_q) = upper_hex-canonical_hex_digit y q ey in
      let value : d' ≡ p * 16 + q = e ∙ bit_or_nibbles p q p_lt q_lt in
      let high : d' / 16 ≡ p = omega arith in
      let low : d' % 16 ≡ q = omega arith in
      ground (arith, later, ap upper_hex high, ap upper_hex low, hex_p, hex_q, value, p_lt, q_lt)
