-- ===== src/Trash/Admit/Executable.antt =====
-- A request that `newTrashMoveRequest` of internal/trash/move.go makes passes the check of
-- `moveToTrashWith`.
use mathlib.Core.Path.{subst}
use linux_deep_clean.Prelude.{
  and-eq-true, Bool, true, ◌≡◌, refl, sym, ap, ◌∙◌, ◌&&◌, Option, none, some, Bytes, bytes_equal,
  bytes_equal_iff, Result, ok, err, require, require-eq-ok, bind-eq-ok, ok-injective, ◌==◌,
}
use linux_deep_clean.Pathbytes.BytePath.{BytePath, new_path, path_equal}
use linux_deep_clean.Pathbytes.BytePath.Names.{new_path_iff, path_equal_iff}
use linux_deep_clean.Domain.Identifiers.{validate_stable_id, validate_digest}
use linux_deep_clean.Domain.Plan.{is_ok}
use linux_deep_clean.Trash.Facts.{
  unsupported, interrupted, Kinds, Target, filesystem, elsewhere, Precondition, Request,
  is_trash_path, same_target, path_and_basename, valid_date, valid_precondition, valid_target,
  filesystem_target, last_component,
}
use linux_deep_clean.Trash.Move.{path_bound, valid_execution}
use linux_deep_clean.Trash.Reconcile.{classified, as_unsupported}
use linux_deep_clean.Trash.Write.{given}
use linux_deep_clean.Trash.Write.Readable.{as_unsupported-ok}
use linux_deep_clean.Trash.Admit.{
  Action, ParentLease, TrashLease, Bound, bind_target, validate_action, new_request,
}

target_known :
    (root : Bytes) (path : BytePath) (t : Target)
    → same_target (filesystem root path) t ≡ true
    → t ≡ filesystem root path
unfolding same_target
target_known root path elsewhere h = absurd cc
target_known root path (filesystem other more) h =
    let (a, b) = and-eq-true (bytes_equal root other) (path_equal path more) h in
    rw ((bytes_equal_iff root other).0 a, (path_equal_iff path more).0 b) refl

target_self :
    (root : Bytes) (path : BytePath)
    → same_target (filesystem root path) (filesystem root path) ≡ true
unfolding same_target
target_self root path =
    rw ((bytes_equal_iff root root).1 refl, (path_equal_iff path path).1 refl) refl

given-ok : {A : Type 0} (o : Option A) {a : A} → given o ≡ ok a → o ≡ some a
given-ok none h = absurd cc
given-ok (some a) h = ap some (ok-injective h)

is_ok_of : {E A : Type 0} (m : Result E A) {a : A} → as_unsupported m ≡ ok a → is_ok m ≡ true
is_ok_of (ok a) h = refl
is_ok_of (err e) h = absurd cc

same_filesystem :
    (root : Bytes) (path : BytePath)
    → is_ok (validate_stable_id root) ≡ true
    → new_path path.components ≡ ok path
    → filesystem_target root path ≡ filesystem root path
unfolding filesystem_target valid_target
same_filesystem root path a b = rw (a, b) refl

path_kept : (path cloned : BytePath) → new_path path.components ≡ ok cloned → cloned ≡ path
path_kept path cloned h =
    ap (λ cs. record { components = cs }) ((new_path_iff path.components cloned).0 h).1

named_path :
    (path : BytePath) (named : BytePath × Bytes)
    → as_unsupported (path_and_basename path) ≡ ok named
    → (new_path path.components ≡ ok path) × (named ≡ (path, last_component path.components))
unfolding path_and_basename
named_path path named h =
    let (cloned, made, same) =
      bind-eq-ok (new_path path.components) _ (as_unsupported-ok (path_and_basename path) h) in
    let e = path_kept path cloned made in
    (made ∙ ap ok e, sym (ok-injective same) ∙ ap (λ q. (q, last_component path.components)) e)

module _ {k : Kinds} where
  -- What the check of the move asks of a precondition and its source.
  pub record IsBound (bound : Bound k) : Type 0 where
    pub root_valid : is_ok (validate_stable_id bound.root) ≡ true
    pub target_is : bound.precondition.target ≡ filesystem bound.root bound.source
    pub precondition_valid : valid_precondition bound.precondition ≡ true
    pub mask : (bound.precondition.required == k.required_mask) ≡ true
    pub source_valid : new_path bound.source.components ≡ ok bound.source
    pub name_is : bound.basename ≡ last_component bound.source.components

  bind_target-IsBound :
      (root : Bytes) (path : BytePath) (p : Precondition k) (bound : Bound k)
      → bind_target root path p ≡ ok bound
      → IsBound bound
  unfolding bind_target
  bind_target-IsBound root path p bound h =
      let (_, a, h1) = bind-eq-ok (require (valid_precondition p) unsupported) _ h in
      let (_, b, h2) =
        bind-eq-ok (require (same_target (filesystem root path) p.target) unsupported) _ h1 in
      let (_, c, h3) = bind-eq-ok (require (p.required == k.required_mask) unsupported) _ h2 in
      let (_, d, h4) = bind-eq-ok (as_unsupported (validate_stable_id root)) _ h3 in
      let (named, e, same) = bind-eq-ok (as_unsupported (path_and_basename path)) _ h4 in
      let (source_valid, named_is) = named_path path named e in
      let bound_is =
        sym (ok-injective same)
        ∙ ap (λ n. record { precondition = p; source = n.0; root = root; basename = n.1 })
            named_is in
      subst IsBound (sym bound_is) (record {
        root_valid = is_ok_of _ d;
        target_is = target_known root path p.target (require-eq-ok _ _ b);
        precondition_valid = require-eq-ok _ _ a;
        mask = require-eq-ok _ _ c;
        source_valid = source_valid;
        name_is = refl;
      })

  validate_action-IsBound :
      (target : Target) (precondition : Option (Precondition k)) (bound : Bound k)
      → validate_action target precondition ≡ ok bound
      → IsBound bound
  unfolding validate_action
  validate_action-IsBound (filesystem root path) (some p) bound h =
      bind_target-IsBound root path p bound h
  validate_action-IsBound (filesystem root path) none bound h = absurd cc
  validate_action-IsBound elsewhere precondition bound h = absurd cc

  valid_execution-IsBound :
      (id plan_digest : Bytes) (bound : Bound k) (layout : k.Layout) (deleted_at : k.Time)
      → IsBound bound
      → is_ok (validate_stable_id id) ≡ true
      → is_ok (validate_digest plan_digest) ≡ true
      → k.valid_layout layout ≡ true
      → valid_date k deleted_at ≡ true
      → valid_execution (record {
        action_id = id;
        plan_digest = plan_digest;
        root = bound.root;
        source = bound.source;
        basename = bound.basename;
        precondition = bound.precondition;
        layout = layout;
        deleted_at = deleted_at;
      })
        ≡ true
  unfolding valid_execution path_bound path_and_basename
  valid_execution-IsBound id plan_digest bound layout deleted_at is named planned laid dated =
      rw
        (
          is.root_valid, named, planned, laid, dated, is.source_valid, is.mask,
          is.precondition_valid, is.target_is, is.name_is,
        )
        (rw
          (
            same_filesystem bound.root bound.source is.root_valid is.source_valid,
            target_self bound.root bound.source,
            (bytes_equal_iff (last_component bound.source.components) _).1 refl,
          )
          refl)

  -- The parent lease has the root of a request, and the source was resolved under it.
  pub IsResolved : Option (ParentLease k) → Request k → Type 0
  IsResolved source request =
      (parent : ParentLease k) × (source ≡ some parent)
      × (parent.root ≡ request.root)
      × (parent.resolves request.basename request.precondition ≡ ok tt)

  -- Where an action that is valid has a valid ID, a request that is made passes the check of the
  -- move, and its parent lease has its root and resolved its source without an error.
  pub new_request-IsResolved :
      (context ledger : Bool) (action : Action k) (plan_digest : Bytes)
      (source : Option (ParentLease k)) (lease : Option (TrashLease k)) (deleted_at : k.Time)
      (request : Request k)
      → (action.valid ≡ true → is_ok (validate_stable_id action.id) ≡ true)
      → new_request context ledger action plan_digest source lease deleted_at ≡ ok request
      → (valid_execution request ≡ true) × IsResolved source request
  unfolding new_request IsResolved
  new_request-IsResolved context ledger action plan_digest source lease deleted_at request named h =
      let (_, _, h) = bind-eq-ok (require context interrupted) _ h in
      let (_, _, h) = bind-eq-ok (require ledger unsupported) _ h in
      let (_, valid, h) = bind-eq-ok (require action.valid unsupported) _ h in
      let (_, _, h) = bind-eq-ok (require (is_trash_path action.kind) unsupported) _ h in
      let (_, planned, h) = bind-eq-ok (as_unsupported (validate_digest plan_digest)) _ h in
      let (parent, parent_is, h) = bind-eq-ok (given source) _ h in
      let (trash, _, h) = bind-eq-ok (given lease) _ h in
      let (_, dated, h) = bind-eq-ok (require (valid_date k deleted_at) unsupported) _ h in
      let (bound, is_bound, h) =
        bind-eq-ok (validate_action action.target action.precondition) _ h in
      let (_, roots, h) =
        bind-eq-ok
          (require (bytes_equal parent.root bound.root && bytes_equal trash.root bound.root)
            unsupported)
          _ h in
      let (layout, _, h) = bind-eq-ok (classified trash.identity) _ h in
      let (_, laid, h) = bind-eq-ok (require (k.valid_layout layout) unsupported) _ h in
      let (_, _, h) = bind-eq-ok (classified (trash.path_for bound.source)) _ h in
      let (_, resolved, h) = bind-eq-ok (parent.resolves bound.basename bound.precondition) _ h in
      let is = validate_action-IsBound action.target action.precondition bound is_bound in
      let (rooted, _) = and-eq-true _ _ (require-eq-ok _ _ roots) in
      subst (λ r. (valid_execution r ≡ true) × IsResolved source r) (ok-injective h)
        (
          valid_execution-IsBound action.id plan_digest bound layout deleted_at is
              (named (require-eq-ok _ _ valid)) (is_ok_of _ planned) (require-eq-ok _ _ laid)
              (require-eq-ok _ _ dated),
          (
            parent,
            given-ok source parent_is,
            (bytes_equal_iff parent.root bound.root).0 rooted,
            resolved,
          ),
        )
