-- ===== src/Cbor/Ensures.antt =====
-- A postcondition of a step of the scanner of internal/planproto/limits.go: what a success gives,
-- and that a failure is one of the scanner's own refusals.
use linux_deep_clean.Prelude.{
  ℕ, ◌≤◌, ◌<◌, Bool, true, false, ◌≡◌, refl, arith, if◌then◌else◌, Bytes, length, leb, ltb, Result,
  ok, err, ◌>>=◌, require,
}
use linux_deep_clean.Cbor.Limits.{ScanError, panic, out_of_fuel}
use linux_deep_clean.Cbor.Reads.{byte_at, byte_at-lt, slice, slice-le}

-- The errors that the source formats.
unfoldable pub is_refusal : ScanError → Bool
is_refusal panic = false
is_refusal out_of_fuel = false
is_refusal _ = true

abbrev pub Ensures : {A : Type 0} → (A → Type 0) → Result ScanError A → Type 0
Ensures P (ok a) = P a
Ensures P (err e) = is_refusal e ≡ true

module _ {A B : Type 0} (P : A → Type 0) (Q : B → Type 0) where
  pub Ensures-bind :
      (m : Result ScanError A) (f : A → Result ScanError B)
      → Ensures P m
      → ((a : A) → P a → Ensures Q (f a))
      → Ensures Q (m >>= f)
  Ensures-bind (ok a) f h k = k a h
  Ensures-bind (err e) f h k = h

pub Ensures-weaken :
    {A : Type 0} (P Q : A → Type 0) (m : Result ScanError A)
    → ((a : A) → P a → Q a)
    → Ensures P m
    → Ensures Q m
Ensures-weaken P Q (ok a) k h = k a h
Ensures-weaken P Q (err e) k h = h

module _ {A : Type 0} (P : A → Type 0) where
  pub Ensures-if :
      (b : Bool) (m n : Result ScanError A)
      → (b ≡ true → Ensures P m)
      → (b ≡ false → Ensures P n)
      → Ensures P (if b then m else n)
  Ensures-if true m n h k = h refl
  Ensures-if false m n h k = k refl

pub Ensures-require :
    (b : Bool) (e : ScanError) → is_refusal e ≡ true → Ensures (λ _. b ≡ true) (require b e)
Ensures-require true e h = refl
Ensures-require false e h = h

pub byte_at-Ensures :
    (data' : Bytes) (i : ℕ) → i < length data' → Ensures (λ _. Unit {0}) (byte_at data' i)
byte_at-Ensures data' i h = let (b, e) = byte_at-lt data' i h in rw e tt

pub slice-Ensures :
    (data' : Bytes) (first last : ℕ)
    → first ≤ last
    → last ≤ length data'
    → Ensures (λ _. Unit {0}) (slice data' first last)
slice-Ensures data' first last h k = rw (slice-le data' first last h k) tt

pub leb_false→lt : (a b : ℕ) → leb a b ≡ false → b < a
leb_false→lt a b h = ground arith

pub ltb_false→le : (a b : ℕ) → ltb a b ≡ false → b ≤ a
ltb_false→le a b h = ground arith
