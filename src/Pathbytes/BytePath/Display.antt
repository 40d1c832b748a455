-- ===== src/Pathbytes/BytePath/Display.antt =====
-- `BytePath.Display` of internal/pathbytes/byte_path.go on a terminal.
use linux_deep_clean.Prelude.{
  ℕ, ◌+◌, ◌/◌, ◌%◌, ◌≤◌, ◌<◌, ◌≡◌, arith, true, List, [], ◌∷◌, ltb, if◌then◌else◌, Bytes, IsBytes,
  All, All-append,
}
use linux_deep_clean.Pathbytes.BytePath.{
  BytePath, display_plain_byte, upper_hex, display_byte, display_component, display_from, display,
}

-- A visible ASCII character.
abbrev pub IsVisible : ℕ → Type 0
IsVisible c = (0x21 ≤ c) × (c ≤ 0x7e)

plain-IsVisible : (v : ℕ) → display_plain_byte v ≡ true → IsVisible v
unfolding display_plain_byte
plain-IsVisible v h = ground arith

upper_hex-IsVisible : (v : ℕ) → v < 16 → IsVisible (upper_hex v)
unfolding upper_hex
upper_hex-IsVisible v h = ground arith

display_byte-IsVisible : (v : ℕ) → v < 256 → All IsVisible (display_byte v)
unfolding display_byte
display_byte-IsVisible v h =
    let plain = plain-IsVisible v in
    let high = upper_hex-IsVisible (v / 16) (omega arith) in
    let low = upper_hex-IsVisible (v % 16) (omega arith) in ground arith

display_component-IsVisible :
    (component : Bytes) → IsBytes component → All IsVisible (display_component component)
unfolding display_component
display_component-IsVisible [] h = tt
display_component-IsVisible (v ∷ rest) (h, k) =
    All-append IsVisible (display_byte v) (display_component rest) (display_byte-IsVisible v h)
      (display_component-IsVisible rest k)

separator-IsVisible : (index : ℕ) → All IsVisible (if ltb 0 index then b'/' ∷ [] else [])
separator-IsVisible index = ground arith

display_from-IsVisible :
    (index : ℕ) (components : List Bytes)
    → All IsBytes components
    → All IsVisible (display_from index components)
unfolding display_from
display_from-IsVisible index [] h = tt
display_from-IsVisible index (c ∷ rest) (h, k) =
    All-append IsVisible (if ltb 0 index then b'/' ∷ [] else []) _ (separator-IsVisible index) (
      All-append IsVisible (display_component c) _ (display_component-IsVisible c h)
        (display_from-IsVisible (index + 1) rest k))

-- Whatever bytes a path has, what is displayed of it is visible ASCII: no control character, no
-- space and no byte above 0x7e.
pub display-IsVisible :
    (path : BytePath) → All IsBytes path.components → All IsVisible (display path)
unfolding display
display-IsVisible path h = display_from-IsVisible 0 path.components h
