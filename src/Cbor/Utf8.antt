-- ===== src/Cbor/Utf8.antt =====
-- `utf8.Valid` of Go's standard library: the well-formed sequences of RFC 3629, so no surrogates,
-- no overlong form and nothing above U+10FFFF.
use linux_deep_clean.Prelude.{ℕ, Bool, true, ◌&&◌, ◌||◌, [], ◌∷◌, ltb, leb, ◌==◌, Bytes}

abbrev between : ℕ → ℕ → ℕ → Bool
between lo hi b = leb lo b && leb b hi

abbrev continuation : ℕ → Bool
continuation = between 0x80 0xbf

-- the second byte of a sequence of three bytes, and of one of four
abbrev second_of_three : ℕ → ℕ → Bool
second_of_three a b =
    a == 0xe0 && between 0xa0 0xbf b
    || a == 0xed && between 0x80 0x9f b
    || (between 0xe1 0xec a || between 0xee 0xef a) && continuation b

abbrev second_of_four : ℕ → ℕ → Bool
second_of_four a b =
    a == 0xf0 && between 0x90 0xbf b
    || a == 0xf4 && between 0x80 0x8f b
    || between 0xf1 0xf3 a && continuation b

unfoldable pub utf8_valid : Bytes → Bool
utf8_valid [] = true
utf8_valid (a ∷ []) = ltb a 0x80
utf8_valid (a ∷ b ∷ []) = ltb a 0x80 && ltb b 0x80 || between 0xc2 0xdf a && continuation b
utf8_valid (a ∷ b ∷ c ∷ []) =
    ltb a 0x80 && utf8_valid (b ∷ c ∷ [])
    || between 0xc2 0xdf a && continuation b && ltb c 0x80
    || second_of_three a b && continuation c
utf8_valid (a ∷ b ∷ c ∷ d ∷ rest) =
    ltb a 0x80 && utf8_valid (b ∷ c ∷ d ∷ rest)
    || between 0xc2 0xdf a && continuation b && utf8_valid (c ∷ d ∷ rest)
    || second_of_three a b && continuation c && utf8_valid (d ∷ rest)
    || second_of_four a b && continuation c && continuation d && utf8_valid rest
