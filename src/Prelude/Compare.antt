-- ===== src/Prelude/Compare.antt =====
-- `bytes.Compare`, which is also the order of Go strings.
use mathlib.Core.Path.{◌≡◌, refl}
use mathlib.Core.List.{[], ◌∷◌}
use native.Mathlib.Omega.{arith}
use linux_deep_clean.Prelude.Tests.{ltb, if◌then◌else◌}
use linux_deep_clean.Prelude.Lists.{Bytes}

pub data Comparison : Type 0 where
  less same greater : Comparison

unfoldable pub bytes_compare : Bytes → Bytes → Comparison
bytes_compare [] [] = same
bytes_compare [] (y ∷ ys) = less
bytes_compare (x ∷ xs) [] = greater
bytes_compare (x ∷ xs) (y ∷ ys) =
    let rest = bytes_compare xs ys in if ltb x y then less else if ltb y x then greater else rest

pub bytes_compare_self : (x : Bytes) → bytes_compare x x ≡ same
unfolding bytes_compare
bytes_compare_self [] = refl
bytes_compare_self (a ∷ x) = ground (arith, bytes_compare_self x)

pub bytes_compare-same : (x y : Bytes) → bytes_compare x y ≡ same → x ≡ y
unfolding bytes_compare
bytes_compare-same [] [] h = refl
bytes_compare-same [] (b ∷ y) h = cc
bytes_compare-same (a ∷ x) [] h = cc
bytes_compare-same (a ∷ x) (b ∷ y) h = ground (arith, bytes_compare-same x y)

pub bytes_compare_trans :
    (x y z : Bytes) → bytes_compare x y ≡ less → bytes_compare y z ≡ less → bytes_compare x z ≡ less
unfolding bytes_compare
bytes_compare_trans [] [] z h k = cc
bytes_compare_trans [] (b ∷ y) [] h k = cc
bytes_compare_trans [] (b ∷ y) (c ∷ z) h k = refl
bytes_compare_trans (a ∷ x) [] z h k = cc
bytes_compare_trans (a ∷ x) (b ∷ y) [] h k = cc
bytes_compare_trans (a ∷ x) (b ∷ y) (c ∷ z) h k = ground (arith, bytes_compare_trans x y z)

abbrev pub flip : Comparison → Comparison
flip less = greater
flip same = same
flip greater = less

pub bytes_compare-flip : (x y : Bytes) → bytes_compare y x ≡ flip (bytes_compare x y)
unfolding bytes_compare
bytes_compare-flip [] [] = refl
bytes_compare-flip [] (b ∷ y) = refl
bytes_compare-flip (a ∷ x) [] = refl
bytes_compare-flip (a ∷ x) (b ∷ y) = ground (arith, bytes_compare-flip x y)
