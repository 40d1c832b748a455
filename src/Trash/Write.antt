-- ===== src/Trash/Write.antt =====
-- internal/trash/write.go: the durable writing of a .trashinfo record.
-- What the function calls is a sequence of calls, and their answers are arguments. A nil authority or
-- selector is `none` or `false`; the context is whether it is neither nil nor done.
pub mod Readable
mod Tests
use linux_deep_clean.Prelude.{
  Bool, true, false, List, [], ◌∷◌, Option, none, some, Bytes, Result, ok, err, ◌>>=◌, ◌>>◌,
  require,
}
use linux_deep_clean.Pathbytes.BytePath.{BytePath}
use linux_deep_clean.Domain.Identifiers.{validate_stable_id}
use linux_deep_clean.Trash.Facts.{Fault, unsupported, interrupted, Kinds}
use linux_deep_clean.Trash.Program.{Publication}
use linux_deep_clean.Trash.Metadata.{Clock, new_trash_info, marshal}
use linux_deep_clean.Trash.Reconcile.{
  MountFault, MountBasis, classified, basis_from, as_unsupported,
}

-- `trashMetadataAuthority`
pub record MetadataAuthority : Type 0 where
  pub root : Bytes
  pub basis : MountBasis
  pub path_for : BytePath → Result MountFault BytePath

-- `openDirectories`, and `publish` and `close` of what it gives
pub data Call : Type 0 where
  open_directories : Call
  publish : Bytes → Bytes → Call
  close_directories : Call

-- Whether directories came back, and whether a receipt did.
pub record Outside : Type 0 where
  pub opened : Result Fault Bool
  pub published : Bytes → Bytes → Result Fault Bool

pub record Writing : Type 0 where
  pub calls : List Call
  pub answer : Result Fault Publication

abbrev pub given : {A : Type 0} → Option A → Result Fault A
given none = err unsupported
given (some a) = ok a

module _ {k : Kinds} (clock : Clock k) where
  -- The part of `writeTrashInfoDurableWith` before the directories: the contents.
  unfoldable pub contents_for :
      Bool → Option MetadataAuthority → Bool → Bytes → BytePath → k.Time → Result Fault Bytes
  contents_for context authority selector token source deleted_at = do
    require context interrupted
    facts ← given authority
    require selector unsupported
    as_unsupported (validate_stable_id facts.root)
    path ← classified (facts.path_for source)
    basis ← basis_from facts.basis
    info ← as_unsupported (new_trash_info token basis path deleted_at)
    as_unsupported (marshal clock info)

abbrev pub root_of : Option MetadataAuthority → Bytes
root_of none = []
root_of (some facts) = facts.root

-- What is made of the receipt.
unfoldable pub receipt_answer : Bytes → Bytes → Result Fault Bool → Result Fault Publication
receipt_answer root token (err e) = err e
receipt_answer root token (ok false) = err interrupted
receipt_answer root token (ok true) = ok (record { root = root; token = token; receipt = true })

-- The part behind the contents. The directories are closed whatever the publication answers.
unfoldable pub publish_with : Outside → Result Fault Bool → Bytes → Bytes → Bytes → Writing
publish_with outside (err e) root token contents = record {
  calls = open_directories ∷ [];
  answer = err e;
}
publish_with outside (ok false) root token contents = record {
  calls = open_directories ∷ [];
  answer = err unsupported;
}
publish_with outside (ok true) root token contents = record {
  calls = open_directories ∷ publish token contents ∷ close_directories ∷ [];
  answer = receipt_answer root token (outside.published token contents);
}

unfoldable pub write_contents : Outside → Bytes → Bytes → Result Fault Bytes → Writing
write_contents outside root token (err e) = record { calls = []; answer = err e }
write_contents outside root token (ok contents) =
    publish_with outside outside.opened root token contents

-- `writeTrashInfoDurableWith`
unfoldable pub write_trash_info :
    {k : Kinds}
    → Clock k
    → Bool
    → Option MetadataAuthority
    → Bool
    → Bytes
    → BytePath
    → k.Time
    → Outside
    → Writing
write_trash_info clock context authority selector token source deleted_at outside =
    write_contents outside (root_of authority) token
      (contents_for clock context authority selector token source deleted_at)
