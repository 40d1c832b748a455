-- ===== src/Cbor/Reads.antt =====
-- Go's reads of a byte slice, by index and by sub-slice, with the run-time panic as an error.
use linux_deep_clean.Prelude.{
  ℕ, zero, suc, ◌-◌, ◌≤◌, ◌<◌, ◌≡◌, refl, arith, ◌&&◌, [], ◌∷◌, leb, if◌then◌else◌, Bytes, length,
  Result, ok, err,
}
use linux_deep_clean.Cbor.Limits.{ScanError, panic}

-- `data[index]`
unfoldable pub byte_at : Bytes → ℕ → Result ScanError ℕ
byte_at [] index = err panic
byte_at (b ∷ data') zero = ok b
byte_at (b ∷ data') (suc index) = byte_at data' index

abbrev pub take : ℕ → Bytes → Bytes
take zero data' = []
take (suc n) [] = []
take (suc n) (b ∷ data') = b ∷ take n data'

abbrev pub drop : ℕ → Bytes → Bytes
drop zero data' = data'
drop (suc n) [] = []
drop (suc n) (b ∷ data') = drop n data'

-- `data[first:last]`
unfoldable pub slice : Bytes → ℕ → ℕ → Result ScanError Bytes
slice data' first last =
    if leb first last && leb last (length data')
    then ok (take (last - first) (drop first data'))
    else err panic

-- A read in range gives a byte.
pub byte_at-lt : (data' : Bytes) (i : ℕ) → i < length data' → (b : ℕ) × (byte_at data' i ≡ ok b)
unfolding byte_at
byte_at-lt [] i h = elim h [ ]
byte_at-lt (b ∷ data') zero h = (b, refl)
byte_at-lt (b ∷ data') (suc i) h = byte_at-lt data' i (omega arith)

pub slice-le :
    (data' : Bytes) (first last : ℕ)
    → first ≤ last
    → last ≤ length data'
    → slice data' first last ≡ ok (take (last - first) (drop first data'))
unfolding slice
slice-le data' first last h k = ground arith
