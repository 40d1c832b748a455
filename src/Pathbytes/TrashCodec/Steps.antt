-- ===== src/Pathbytes/TrashCodec/Steps.antt =====
-- The rounds of the decoder's loop, one lemma for each kind of round.
use linux_deep_clean.Prelude.{
  ℕ, ◌+◌, ◌<◌, true, false, ◌≡◌, ◌≢◌, refl, List, [], ◌∷◌, ◌++◌, inl, inr, arith, Bytes, Result, ok,
  err, ◌>>=◌, bind-eq-ok, if◌then◌else◌, leb, ==_iff, Bool-cases, ◌==◌,
}
use linux_deep_clean.Pathbytes.BytePath.{
  PathError, DecodeLimits, incomplete_escape, bad_byte, over_decoded,
}
use linux_deep_clean.Pathbytes.TrashCodec.{
  Loop, close_component, trash_unreserved, encode_byte, decode_escape, decode_step, decode_loop,
}
use linux_deep_clean.Pathbytes.TrashCodec.Nibbles.{
  decode_escape-upper_hex, encode_byte-decode_escape, unreserved-ne-slash, unreserved-lt,
}

-- What a round does at the two bytes behind a percent sign, and where the loop goes on then.
abbrev escape_at : DecodeLimits → Bytes → ℕ → Result PathError ℕ
escape_at limits [] n = err incomplete_escape
escape_at limits (b ∷ []) n = err incomplete_escape
escape_at limits (b ∷ d ∷ rest) n = decode_escape limits b d n

abbrev skip_at : DecodeLimits → Bytes → Loop
skip_at limits [] c cs n = err incomplete_escape
skip_at limits (b ∷ []) c cs n = err incomplete_escape
skip_at limits (b ∷ d ∷ rest) c cs n = decode_loop limits rest c cs n

decode_loop-cons :
    (limits : DecodeLimits) (a : ℕ) (rest c : Bytes) (cs : List Bytes) (n : ℕ)
    → decode_loop limits (a ∷ rest) c cs n
      ≡ decode_step limits a
          (λ c' cs' n'. decode_loop limits rest c' cs' n')
          (λ n'. escape_at limits rest n')
          (λ c' cs' n'. skip_at limits rest c' cs' n')
          c
          cs
          n
unfolding decode_loop
decode_loop-cons limits a [] c cs n = refl
decode_loop-cons limits a (b ∷ []) c cs n = refl
decode_loop-cons limits a (b ∷ d ∷ rest) c cs n = refl

percent_reserved : trash_unreserved b'%' ≡ false
unfolding trash_unreserved
percent_reserved = refl

module _ (limits : DecodeLimits) where
  pub decode_loop-slash :
      (rest c : Bytes) (cs : List Bytes) (n : ℕ)
      → c ≢ []
      → decode_loop limits (b'/' ∷ rest) c cs n ≡ decode_loop limits rest [] (cs ++ c ∷ []) n
  unfolding decode_step
  decode_loop-slash rest [] cs n h = absurd (h refl)
  decode_loop-slash rest (x ∷ c) cs n h = rw decode_loop-cons

  -- A round at what the encoder writes for one byte.
  pub decode_loop-encode_byte :
      (v : ℕ) (rest c : Bytes) (cs : List Bytes) (n : ℕ)
      → v < 256
      → n < limits.max_decoded_bytes
      → decode_loop limits (encode_byte v ++ rest) c cs n
        ≡ decode_loop limits rest (c ++ v ∷ []) cs (n + 1)
  unfolding encode_byte decode_step
  decode_loop-encode_byte v rest c cs n b m = elim (Bool-cases (trash_unreserved v)) [
    | inl u ↦ rw u (rw decode_loop-cons (ground (arith, unreserved-ne-slash v u)))
    | inr u ↦
        rw u (rw decode_loop-cons (rw (percent_reserved, decode_escape-upper_hex limits v n b u m)))
  ]

-- What a round that does not fail has read of `s`, and where it goes on.
pub data Round (limits : DecodeLimits) (out : List Bytes) (c : Bytes) (cs : List Bytes) (n : ℕ)
    (s : Bytes) : Type 0 where
  slash :
      (rest : Bytes)
      → s ≡ b'/' ∷ rest
      → c ≢ []
      → decode_loop limits rest [] (cs ++ c ∷ []) n ≡ ok out
      → Round limits out c cs n s
  byte :
      (v : ℕ) (rest : Bytes)
      → s ≡ encode_byte v ++ rest
      → v < 256
      → n < limits.max_decoded_bytes
      → decode_loop limits rest (c ++ v ∷ []) cs (n + 1) ≡ ok out
      → Round limits out c cs n s

module _ (limits : DecodeLimits) (out : List Bytes) (cs : List Bytes) (n : ℕ) where
  slash-Round :
      (rest c : Bytes)
      → close_component c cs n (λ c' cs' n'. decode_loop limits rest c' cs' n') ≡ ok out
      → Round limits out c cs n (b'/' ∷ rest)
  slash-Round rest [] h = cc
  slash-Round rest (x ∷ c) h = slash rest refl (λ e. cc) h

  escape-Round :
      (rest c : Bytes)
      → (escape_at limits rest n >>= λ decoded. skip_at limits rest (c ++ decoded ∷ []) cs (n + 1))
        ≡ ok out
      → Round limits out c cs n (b'%' ∷ rest)
  escape-Round [] c h = cc
  escape-Round (x ∷ []) c h = cc
  escape-Round (x ∷ y ∷ rest) c h =
      let (d, e, later) = bind-eq-ok (decode_escape limits x y n) _ h in
      let (same, below, small) = encode_byte-decode_escape limits x y n d e in
      byte d rest (rw same) small below later

  literal-Round :
      (a : ℕ) (rest c : Bytes)
      → trash_unreserved a ≡ true
      → (if leb limits.max_decoded_bytes n
          then err over_decoded
          else decode_loop limits rest (c ++ a ∷ []) cs (n + 1))
        ≡ ok out
      → Round limits out c cs n (a ∷ rest)
  unfolding encode_byte
  literal-Round a rest c u h = byte a rest (rw u) (unreserved-lt a u) (ground arith) (ground arith)

  pub decode_loop-Round :
      (a : ℕ) (rest c : Bytes)
      → decode_loop limits (a ∷ rest) c cs n ≡ ok out
      → Round limits out c cs n (a ∷ rest)
  unfolding decode_step
  decode_loop-Round a rest c h =
      let round = rw decode_loop-cons at h in
      elim (Bool-cases (a == b'/')) [
        | inl e ↦ rw ((==_iff a b'/').0 e) (slash-Round rest c (rw e at round))
        | inr e ↦ elim (Bool-cases (trash_unreserved a)) [
          | inl u ↦ literal-Round a rest c u (rw (e, u) at round)
          | inr u ↦ elim (Bool-cases (a == b'%')) [
            | inl p ↦ rw ((==_iff a b'%').0 p) (escape-Round rest c (rw (e, u, p) at round))
            | inr p ↦ absurd (refused (rw (e, u, p) at round))
          ]
        ]
      ]
    where
      refused : err bad_byte ≡ ok out → ⊥
      refused = λ q. cc
