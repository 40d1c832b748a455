-- ===== src/Trash/Admit.antt =====
-- internal/trash/move.go: the request of a move to the Trash, made of an action and two leases.
-- `Action.Validate` and `ValidateResolvedTarget` are answers. A nil lease is `none`.
pub mod Executable
mod Tests
use linux_deep_clean.Prelude.{
  ℕ, Bool, true, false, ◌&&◌, List, [], ◌∷◌, Option, none, some, ◌==◌, Bytes, bytes_equal, Result,
  ok, err, ◌>>=◌, ◌>>◌, require,
}
use linux_deep_clean.Pathbytes.BytePath.{BytePath}
use linux_deep_clean.Domain.Identifiers.{validate_stable_id, validate_digest}
use linux_deep_clean.Trash.Facts.{
  Fault, unsupported, interrupted, Kinds, Target, filesystem, elsewhere, ActionKind, Precondition,
  Request, is_trash_path, same_target, path_and_basename, valid_date, valid_precondition,
}
use linux_deep_clean.Trash.Reconcile.{MountFault, classified, as_unsupported}
use linux_deep_clean.Trash.Write.{given}

-- What the request reads of `domain.Action`; `precondition` is `none` for another kind of it.
pub record Action (k : Kinds) : Type 0 where
  pub id : Bytes
  pub valid : Bool
  pub kind : ActionKind
  pub target : Target
  pub precondition : Option (Precondition k)

-- `linuxfs.ParentLease`, with the answer of `ValidateResolvedTarget`
pub record ParentLease (k : Kinds) : Type 0 where
  pub root : Bytes
  pub resolves : Bytes → Precondition k → Result Fault (Unit {0})

-- `mounts.TrashLease`
pub record TrashLease (k : Kinds) : Type 0 where
  pub root : Bytes
  pub identity : Result MountFault k.Layout
  pub path_for : BytePath → Result MountFault BytePath

pub record Bound (k : Kinds) : Type 0 where
  pub precondition : Precondition k
  pub source : BytePath
  pub root : Bytes
  pub basename : Bytes

module _ {k : Kinds} where
  -- The tests of `validateTrashMoveAction`, for a filesystem target.
  unfoldable pub bind_target : Bytes → BytePath → Precondition k → Result Fault (Bound k)
  bind_target root path p = do
    require (valid_precondition p) unsupported
    require (same_target (filesystem root path) p.target) unsupported
    require (p.required == k.required_mask) unsupported
    as_unsupported (validate_stable_id root)
    named ← as_unsupported (path_and_basename path)
    ok (record { precondition = p; source = named.0; root = root; basename = named.1 })

  -- `validateTrashMoveAction`
  unfoldable pub validate_action : Target → Option (Precondition k) → Result Fault (Bound k)
  validate_action (filesystem root path) (some p) = bind_target root path p
  validate_action (filesystem root path) none = err unsupported
  validate_action elsewhere p = err unsupported

  -- `newTrashMoveRequest`
  unfoldable pub new_request :
      Bool
      → Bool
      → Action k
      → Bytes
      → Option (ParentLease k)
      → Option (TrashLease k)
      → k.Time
      → Result Fault (Request k)
  new_request context ledger action plan_digest source lease deleted_at = do
    require context interrupted
    require ledger unsupported
    require action.valid unsupported
    require (is_trash_path action.kind) unsupported
    as_unsupported (validate_digest plan_digest)
    parent ← given source
    trash ← given lease
    require (valid_date k deleted_at) unsupported
    bound ← validate_action action.target action.precondition
    require (bytes_equal parent.root bound.root && bytes_equal trash.root bound.root) unsupported
    layout ← classified trash.identity
    require (k.valid_layout layout) unsupported
    classified (trash.path_for bound.source)
    parent.resolves bound.basename bound.precondition
    ok (record {
      action_id = action.id;
      plan_digest = plan_digest;
      root = bound.root;
      source = bound.source;
      basename = bound.basename;
      precondition = bound.precondition;
      layout = layout;
      deleted_at = deleted_at;
    })
