-- ===== src/Trash/Reconcile/Readings.antt =====
-- What the code of internal/trash takes from a probe of the metadata is what the reply says.
use linux_deep_clean.Prelude.{
  Bool, true, false, ◌&&◌, ◌≡◌, refl, sym, ◌∙◌, [], ◌∷◌, Option, none, some, Bytes, bytes_equal_iff,
  Result, ok, err,
}
use linux_deep_clean.Ledger.Vocabulary.{
  Outcome, unresolved, resolved_not_applied, resolved_move_verified, resolved_restore_verified,
  other_outcome, Metadata, unrecorded, absent, retained, other_metadata,
}
use linux_deep_clean.Ledger.Transition.Lifecycle.{resolution}
use linux_deep_clean.Trash.Facts.{Faults, Kinds}
use linux_deep_clean.Trash.Metadata.{
  Clock, Basis, home_absolute, top_relative, other_basis, InfoError, TrashInfo,
}
use linux_deep_clean.Trash.Reconcile.{Request}
use linux_deep_clean.Trash.Reconcile.Flow.{
  same_basis, is_bound, names_source, bytes_of, disposition_of,
}
use linux_deep_clean.Trash.Reconcile.Protocol.{
  clean, outcome_is, metadata_is, is_resolution, basis_is, is_record, parsed, read_record,
  read_disposition,
}

outcome_self : (o : Outcome) → outcome_is o o ≡ true
outcome_self (other_outcome a) = (bytes_equal_iff a a).1 refl
outcome_self unresolved = refl
outcome_self resolved_not_applied = refl
outcome_self resolved_move_verified = refl
outcome_self resolved_restore_verified = refl

metadata_self : (m : Metadata) → metadata_is m m ≡ true
metadata_self (other_metadata a) = (bytes_equal_iff a a).1 refl
metadata_self unrecorded = refl
metadata_self absent = refl
metadata_self retained = refl

pub resolution_self : (o : Outcome) (m : Metadata) → is_resolution o m (resolution o m) ≡ true
unfolding is_resolution
resolution_self o m = rw (outcome_self o, metadata_self m) refl

basis_agrees : (a b : Basis) → same_basis a b ≡ basis_is a b
basis_agrees home_absolute home_absolute = refl
basis_agrees home_absolute top_relative = refl
basis_agrees home_absolute (other_basis n) = refl
basis_agrees top_relative home_absolute = refl
basis_agrees top_relative top_relative = refl
basis_agrees top_relative (other_basis n) = refl
basis_agrees (other_basis n) b = refl

module _ {k : Kinds} (clock : Clock k) (request : Request k) where
  is_bound-is_record :
      (token : Bytes) (p : Result InfoError (TrashInfo k))
      → is_bound clock request token p ≡ is_record clock request token p
  is_bound-is_record token (err e) = refl
  is_bound-is_record token (ok info) = rw (basis_agrees info.basis request.basis) refl

  -- What the code takes from a probe is what the reply says.
  pub disposition_of-read :
      (token : Bytes) (contents : Option Bytes) (present : Bool) (faults : Faults)
      → clean faults ≡ true
      → disposition_of clock request token contents present
        ≡ read_disposition clock request token contents present faults
  unfolding disposition_of read_disposition names_source
  disposition_of-read token contents present (f ∷ faults) h = absurd cc
  disposition_of-read token none false [] h = refl
  disposition_of-read token (some contents) false [] h = refl
  disposition_of-read token none true [] h = rw (is_bound-is_record token _) refl
  disposition_of-read token (some contents) true [] h = rw (is_bound-is_record token _) refl

  pub names_source-read :
      (token : Bytes) (contents : Option Bytes) (present : Bool) (faults : Faults)
      → clean faults ≡ true
      → (present && names_source clock request token (bytes_of contents)) ≡ true
      → read_record clock request token contents present faults ≡ some (bytes_of contents)
  unfolding read_record names_source
  names_source-read token contents present (f ∷ faults) h named = absurd cc
  names_source-read token contents false [] h named = absurd cc
  names_source-read token none true [] h named =
      let e = sym (is_bound-is_record token (parsed clock request token [])) ∙ named in rw e refl
  names_source-read token (some contents) true [] h named =
      let e = sym (is_bound-is_record token (parsed clock request token contents)) ∙ named in
      rw e refl
