-- ===== src/Domain/Size/Sum.antt =====
-- `SizeFacts.Add` of internal/domain/size.go never guesses and never wraps.
use mathlib.Core.Path.{subst}
use linux_deep_clean.Prelude.{
  ◌+◌, ◌^◌, ◌<◌, ◌≡◌, refl, arith, true, false, ◌&&◌, if◌then◌else◌, ok, bind-eq-ok, ok-injective,
}
use linux_deep_clean.Domain.Size.{
  ByteQuantity, SizeFacts, validate_fact, validate_quantity, validate_effect, claims_allocated,
  validate_ownership, validate_size_facts, unavailable, unknown_fact, add_byte_quantity,
  add_size_facts,
}

-- The sum of two quantities: the numbers added where both are there, and absent otherwise.
pub record IsSum (left right total : ByteQuantity) : Type 0 where
  pub available : total.available ≡ (left.available && right.available)
  pub bytes :
      total.bytes ≡ (if left.available && right.available then left.bytes + right.bytes else 0)
  pub bounded : total.bytes < 2 ^ 64

pub add_byte_quantity-IsSum :
    (left right total : ByteQuantity)
    → right.bytes < 2 ^ 64
    → add_byte_quantity left right ≡ ok total
    → IsSum left right total
unfolding add_byte_quantity
add_byte_quantity-IsSum left right total w h = record {
  available = ground arith;
  bytes = ground arith;
  bounded = ground arith;
}

-- The sum does not exceed what a uint64 holds.
abbrev pub Representable : ByteQuantity → ByteQuantity → Type 0
Representable left right =
    left.available ≡ true → right.available ≡ true → left.bytes + right.bytes < 18446744073709551616

add_byte_quantity-Representable :
    (left right : ByteQuantity)
    → Representable left right
    → (total : ByteQuantity) × (add_byte_quantity left right ≡ ok total)
unfolding add_byte_quantity
add_byte_quantity-Representable left right h = (
  (if left.available && right.available
      then record { available = true; bytes = left.bytes + right.bytes }
      else unavailable),
  ground arith,
)

add_byte_quantity_comm :
    (left right : ByteQuantity)
    → left.bytes < 2 ^ 64
    → right.bytes < 2 ^ 64
    → add_byte_quantity left right ≡ add_byte_quantity right left
unfolding add_byte_quantity
add_byte_quantity_comm left right h k = ground arith

add_byte_quantity-valid :
    (left right total : ByteQuantity)
    → add_byte_quantity left right ≡ ok total
    → validate_quantity total ≡ ok tt
unfolding add_byte_quantity validate_quantity
add_byte_quantity-valid left right total h = ground arith

-- The facts that a sum is made of.
abbrev totals : ByteQuantity → ByteQuantity → ByteQuantity → ByteQuantity → SizeFacts
totals a b c d = record {
  apparent = a;
  allocated = b;
  estimated = record { apparent = c; allocated = unavailable };
  verified = record { apparent = d; allocated = unavailable };
  link_count = unknown_fact;
  aggregate = true;
}

empty_valid : validate_quantity unavailable ≡ ok tt
unfolding validate_quantity
empty_valid = refl

total_valid :
    (a b c d : ByteQuantity)
    → validate_quantity a ≡ ok tt
    → validate_quantity b ≡ ok tt
    → validate_quantity c ≡ ok tt
    → validate_quantity d ≡ ok tt
    → validate_size_facts (totals a b c d) ≡ ok tt
unfolding validate_size_facts validate_effect validate_fact validate_ownership
total_valid a b c d p q r s = rw (p, q, r, s, empty_valid)

-- The quantities that a sum reads are uint64 values.
pub record Words (facts : SizeFacts) : Type 0 where
  pub apparent : facts.apparent.bytes < 2 ^ 64
  pub allocated : facts.allocated.bytes < 2 ^ 64
  pub estimated : facts.estimated.apparent.bytes < 2 ^ 64
  pub verified : facts.verified.apparent.bytes < 2 ^ 64

-- What a sum of facts is.
pub record Adds (facts other result : SizeFacts) : Type 0 where
  pub valid : validate_size_facts result ≡ ok tt
  pub apparent : IsSum facts.apparent other.apparent result.apparent
  pub allocated : IsSum facts.allocated other.allocated result.allocated
  pub estimated : IsSum facts.estimated.apparent other.estimated.apparent result.estimated.apparent
  pub verified : IsSum facts.verified.apparent other.verified.apparent result.verified.apparent
  pub unclaimed : claims_allocated result ≡ false
  pub aggregate : result.aggregate ≡ true

-- A sum of size facts is valid, has each of the four quantities as the exact sum where both sides
-- have it and as unavailable elsewhere, is an aggregate, and claims no allocated effect.
pub add_size_facts-Adds :
    (facts other result : SizeFacts)
    → Words other
    → add_size_facts facts other ≡ ok result
    → Adds facts other result
unfolding add_size_facts
add_size_facts-Adds facts other result w h =
    let (_, _, h1) = bind-eq-ok (validate_size_facts facts) _ h in
    let (_, _, h2) = bind-eq-ok (validate_size_facts other) _ h1 in
    let (a, ea, h3) = bind-eq-ok (add_byte_quantity facts.apparent other.apparent) _ h2 in
    let (b, eb, h4) = bind-eq-ok (add_byte_quantity facts.allocated other.allocated) _ h3 in
    let (c, ec, h5) =
      bind-eq-ok (add_byte_quantity facts.estimated.apparent other.estimated.apparent) _ h4 in
    let (d, ed, h6) =
      bind-eq-ok (add_byte_quantity facts.verified.apparent other.verified.apparent) _ h5 in
    let (_, valid, same) = bind-eq-ok (validate_size_facts (totals a b c d)) _ h6 in
    subst (Adds facts other) (ok-injective same) (record {
      valid = valid;
      apparent = add_byte_quantity-IsSum _ _ a w.apparent ea;
      allocated = add_byte_quantity-IsSum _ _ b w.allocated eb;
      estimated = add_byte_quantity-IsSum _ _ c w.estimated ec;
      verified = add_byte_quantity-IsSum _ _ d w.verified ed;
      unclaimed = refl;
      aggregate = refl;
    })

-- Valid facts whose four sums are representable do add.
pub add_size_facts-Representable :
    (facts other : SizeFacts)
    → validate_size_facts facts ≡ ok tt
    → validate_size_facts other ≡ ok tt
    → Representable facts.apparent other.apparent
    → Representable facts.allocated other.allocated
    → Representable facts.estimated.apparent other.estimated.apparent
    → Representable facts.verified.apparent other.verified.apparent
    → (result : SizeFacts) × (add_size_facts facts other ≡ ok result)
unfolding add_size_facts
add_size_facts-Representable facts other v w p q r s =
    let (a, ea) = add_byte_quantity-Representable _ _ p in
    let (b, eb) = add_byte_quantity-Representable _ _ q in
    let (c, ec) = add_byte_quantity-Representable _ _ r in
    let (d, ed) = add_byte_quantity-Representable _ _ s in
    (
      totals a b c d,
      rw (
        v,
        w,
        ea,
        eb,
        ec,
        ed,
        total_valid a b c d (add_byte_quantity-valid _ _ a ea) (add_byte_quantity-valid _ _ b eb)
            (add_byte_quantity-valid _ _ c ec) (add_byte_quantity-valid _ _ d ed),
      ),
    )
