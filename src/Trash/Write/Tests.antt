-- ===== src/Trash/Write/Tests.antt =====
-- A run of the writing of a record.
use mathlib.Core.Path.{subst}
use linux_deep_clean.Prelude.{
  All, IsBytes, ok-injective, bytes_equal, ◌≡◌, refl, arith, true, some, codes, ok,
}
use linux_deep_clean.Pathbytes.BytePath.{
  new_path, validate_components, validate_from, validate_component, validate_bytes, validate_limits,
}
use linux_deep_clean.Domain.Identifiers.{validate_stable_id, stable_bytes, stable_byte}
use linux_deep_clean.Ledger.Records.{cut_prefix, is_lower_hex, hex_byte}
use linux_deep_clean.Pathbytes.TrashCodec.{
  trash_unreserved, encode_byte, encode_component, encode_from, percent_encode_trash_path,
  count_components, close_last, hex_pair, decode_escape, close_component, decode_step, decode_loop,
  percent_decode_with_limits, percent_decode_trash_path,
}
use linux_deep_clean.Trash.Facts.{valid_token, valid_date}
use linux_deep_clean.Trash.Metadata.{
  validate_info, new_trash_info, known_basis, trash_info_basename, marshal,
}
use linux_deep_clean.Trash.Reconcile.{mount_home_absolute, basis_from}
use linux_deep_clean.Trash.Write.{
  MetadataAuthority, Outside, contents_for, receipt_answer, publish_with, write_contents,
  write_trash_info,
}
use linux_deep_clean.Trash.Write.Readable.{MapsBytes, Publishes, write_trash_info-Publishes}
use linux_deep_clean.Trash.Tests.{source, token, clock, laws}

abbrev facts : MetadataAuthority
facts = record { root = codes "root"; basis = mount_home_absolute; path_for = λ path. ok source }

abbrev outside : Outside
outside = record { opened = ok true; published = λ name contents. ok true }

maps_bytes : MapsBytes (some facts) source
maps_bytes path h = subst (λ p. All IsBytes p.components) (ok-injective h) (omega arith)

write_trash_info-Publishes_example :
    Publishes clock laws
      (some facts)
      token
      source
      0
      outside
      (write_trash_info clock true (some facts) true token source 0 outside)
write_trash_info-Publishes_example =
    write_trash_info-Publishes clock laws true (some facts) true token source 0 outside maps_bytes

-- The receipt of the publication is what the move is given.
receipt_given :
    (write_trash_info clock true (some facts) true token source 0 outside).answer
    ≡ ok (record { root = codes "root"; token = token; receipt = true })
unfolding write_trash_info write_contents publish_with receipt_answer contents_for basis_from
    validate_stable_id stable_bytes stable_byte new_trash_info marshal validate_info
    trash_info_basename known_basis valid_token valid_date cut_prefix is_lower_hex hex_byte new_path
    validate_components validate_from validate_component validate_bytes bytes_equal trash_unreserved
    encode_byte encode_component encode_from percent_encode_trash_path count_components close_last
    hex_pair decode_escape close_component decode_step decode_loop percent_decode_with_limits
    percent_decode_trash_path validate_limits
receipt_given = refl
