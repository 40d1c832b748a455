-- ===== src/Pathbytes/Tests.antt =====
-- Runs of the path codecs at concrete paths.
use linux_deep_clean.Prelude.{◌≡◌, refl, arith, [], ◌∷◌, IsBytes, All, codes, ok, bytes_equal}
use linux_deep_clean.Pathbytes.BytePath.{
  display, BytePath, new_path, default_trash_decode_limits, validate_limits, validate_components,
  validate_from, validate_component, validate_bytes, upper_hex,
}
use linux_deep_clean.Pathbytes.BytePath.Names.{validate_components_iff}
use linux_deep_clean.Pathbytes.BytePath.Display.{IsVisible, display-IsVisible}
use linux_deep_clean.Pathbytes.TrashCodec.{
  percent_encode_trash_path, percent_decode_with_limits, encode_from, encode_component, encode_byte,
  trash_unreserved, count_components, decode_loop, decode_step, decode_escape, close_last, hex_pair,
  canonical_hex_digit,
}
use linux_deep_clean.Pathbytes.TrashCodec.RoundTrip.{Fits, percent_decode-percent_encode}
use linux_deep_clean.Pathbytes.TrashCodec.Canonical.{IsCanonical, percent_decode-IsCanonical}

-- home/a b
abbrev spaced : BytePath
spaced = record { components = codes "home" ∷ codes "a b" ∷ [] }

spaced_valid : validate_components spaced.components ≡ ok tt
unfolding validate_components validate_from validate_component validate_bytes bytes_equal
spaced_valid = refl

spaced-IsBytes : All IsBytes spaced.components
spaced-IsBytes = omega arith

spaced-Fits : Fits default_trash_decode_limits spaced
unfolding validate_limits percent_encode_trash_path encode_from encode_component encode_byte
    trash_unreserved upper_hex validate_components validate_from validate_component validate_bytes
    bytes_equal
spaced-Fits = record {
  positive = refl;
  input = omega arith;
  count = omega arith;
  decoded = omega arith;
}

percent_decode-percent_encode_example :
    percent_decode_with_limits (percent_encode_trash_path spaced) default_trash_decode_limits
    ≡ ok spaced
percent_decode-percent_encode_example =
    percent_decode-percent_encode default_trash_decode_limits spaced
      ((validate_components_iff spaced.components).0 spaced_valid) spaced-IsBytes spaced-Fits

spaced_decoded :
    percent_decode_with_limits (codes "home/a%20b") default_trash_decode_limits ≡ ok spaced
unfolding percent_decode_with_limits validate_limits count_components decode_loop decode_step
    decode_escape close_last hex_pair canonical_hex_digit trash_unreserved new_path
    validate_components validate_from validate_component validate_bytes bytes_equal
spaced_decoded = refl

percent_decode-IsCanonical_example :
    IsCanonical default_trash_decode_limits (codes "home/a%20b") spaced
percent_decode-IsCanonical_example =
    percent_decode-IsCanonical default_trash_decode_limits (codes "home/a%20b") spaced
      spaced_decoded

display-IsVisible_example : All IsVisible (display spaced)
display-IsVisible_example = display-IsVisible spaced spaced-IsBytes
