-- ===== src/Domain/Size.antt =====
-- internal/domain/size.go: byte quantities that may be unavailable, and their checked sums.
pub mod Sum
use linux_deep_clean.Prelude.{
  ℕ, ◌+◌, ◌-◌, ◌^◌, Bool, true, false, not, ◌&&◌, ◌||◌, ltb, ◌==◌, if◌then◌else◌, Result, ok, err,
  ◌>>=◌, ◌>>◌, require,
}

-- The message, without the names of the fields that wrap it.
pub data SizeError : Type 0 where
  stale_fact stale_quantity aggregate_link_count aggregate_allocated : SizeError
  zero_link_count shared_allocated overflow : SizeError

-- A value is below 2 ^ 64.
pub record ByteQuantity : Type 0 where
  pub available : Bool
  pub bytes : ℕ

pub record SizeEffect : Type 0 where
  pub apparent : ByteQuantity
  pub allocated : ByteQuantity

-- `Uint64Fact`
pub record Fact : Type 0 where
  pub known : Bool
  pub value : ℕ

pub record SizeFacts : Type 0 where
  pub apparent : ByteQuantity
  pub allocated : ByteQuantity
  pub estimated : SizeEffect
  pub verified : SizeEffect
  pub link_count : Fact
  pub aggregate : Bool

unfoldable pub validate_fact : Fact → Result SizeError (Unit {0})
validate_fact fact = if not fact.known && not (fact.value == 0) then err stale_fact else ok tt

unfoldable pub validate_quantity : ByteQuantity → Result SizeError (Unit {0})
validate_quantity quantity =
    if not quantity.available && not (quantity.bytes == 0) then err stale_quantity else ok tt

unfoldable pub validate_effect : SizeEffect → Result SizeError (Unit {0})
validate_effect effect = do validate_quantity effect.apparent; validate_quantity effect.allocated

-- `facts.Estimated.Allocated.Available || facts.Verified.Allocated.Available`
abbrev pub claims_allocated : SizeFacts → Bool
claims_allocated facts = facts.estimated.allocated.available || facts.verified.allocated.available

-- The second half of `SizeFacts.Validate`: who may claim an allocated effect.
unfoldable pub validate_ownership : SizeFacts → Result SizeError (Unit {0})
validate_ownership facts =
    if facts.aggregate
    then (if facts.link_count.known
        then err aggregate_link_count
        else if claims_allocated facts
        then err aggregate_allocated
        else ok tt)
    else if facts.link_count.known && facts.link_count.value == 0
    then err zero_link_count
    else if (not facts.link_count.known || ltb 1 facts.link_count.value) && claims_allocated facts
    then err shared_allocated
    else ok tt

unfoldable pub validate_size_facts : SizeFacts → Result SizeError (Unit {0})
validate_size_facts facts = do
  validate_quantity facts.apparent
  validate_quantity facts.allocated
  validate_effect facts.estimated
  validate_effect facts.verified
  validate_fact facts.link_count
  validate_ownership facts

-- `ByteQuantity{}` and `Uint64Fact{}`
abbrev pub unavailable : ByteQuantity
unavailable = record { available = false; bytes = 0 }

abbrev pub unknown_fact : Fact
unknown_fact = record { known = false; value = 0 }

-- `math.MaxUint64`
abbrev pub maximum_uint64 : ℕ
maximum_uint64 = 2 ^ 64 - 1

unfoldable pub add_byte_quantity : ByteQuantity → ByteQuantity → Result SizeError ByteQuantity
add_byte_quantity left right =
    if not left.available || not right.available
    then ok unavailable
    else if ltb (maximum_uint64 - right.bytes) left.bytes
    then err overflow
    else ok (record { available = true; bytes = left.bytes + right.bytes })

-- `SizeFacts.Add`
unfoldable pub add_size_facts : SizeFacts → SizeFacts → Result SizeError SizeFacts
add_size_facts facts other = do
  validate_size_facts facts
  validate_size_facts other
  apparent ← add_byte_quantity facts.apparent other.apparent
  allocated ← add_byte_quantity facts.allocated other.allocated
  estimated ← add_byte_quantity facts.estimated.apparent other.estimated.apparent
  verified ← add_byte_quantity facts.verified.apparent other.verified.apparent
  let result : SizeFacts = record {
    apparent = apparent;
    allocated = allocated;
    estimated = record { apparent = estimated; allocated = unavailable };
    verified = record { apparent = verified; allocated = unavailable };
    link_count = unknown_fact;
    aggregate = true;
  }
  validate_size_facts result
  ok result
