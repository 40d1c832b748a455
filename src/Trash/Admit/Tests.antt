-- ===== src/Trash/Admit/Tests.antt =====
-- A request for the source of the other tests of the Trash.
use linux_deep_clean.Prelude.{bytes_equal, ◌≡◌, refl, true, some, replicate, codes, ok}
use linux_deep_clean.Pathbytes.BytePath.{
  path_equal, components_equal, new_path, validate_components, validate_from, validate_component,
  validate_bytes,
}
use linux_deep_clean.Domain.Identifiers.{
  validate_stable_id, stable_bytes, stable_byte, validate_digest,
}
use linux_deep_clean.Trash.Facts.{
  valid_date, same_target, valid_target, valid_precondition, path_and_basename, filesystem,
  trash_path,
}
use linux_deep_clean.Trash.Move.{valid_execution}
use linux_deep_clean.Trash.Admit.{
  Action, ParentLease, TrashLease, bind_target, validate_action, new_request,
}
use linux_deep_clean.Trash.Admit.Executable.{IsResolved, new_request-IsResolved}
use linux_deep_clean.Domain.Plan.{is_ok}
use linux_deep_clean.Trash.Tests.{kinds, source, precondition, request}

abbrev action : Action kinds
action = record {
  id = codes "action";
  valid = true;
  kind = trash_path;
  target = filesystem (codes "root") source;
  precondition = some precondition;
}

abbrev parent : ParentLease kinds
parent = record { root = codes "root"; resolves = λ name p. ok tt }

abbrev lease : TrashLease kinds
lease = record { root = codes "root"; identity = ok 4; path_for = λ path. ok path }

named : is_ok (validate_stable_id action.id) ≡ true
unfolding validate_stable_id stable_bytes stable_byte
named = refl

made : new_request true true action (replicate 32 5) (some parent) (some lease) 0 ≡ ok request
unfolding new_request validate_action bind_target validate_digest valid_date valid_precondition
    valid_target same_target bytes_equal path_equal components_equal validate_stable_id stable_bytes
    stable_byte path_and_basename new_path validate_components validate_from validate_component
    validate_bytes
made = refl

new_request-IsResolved_example : (valid_execution request ≡ true) × IsResolved (some parent) request
new_request-IsResolved_example =
    new_request-IsResolved true true action (replicate 32 5) (some parent) (some lease) 0 request
      (λ valid. named) made
