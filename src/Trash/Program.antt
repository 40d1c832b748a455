-- ===== src/Trash/Program.antt =====
-- internal/trash: what moving and reconciling ask of the ledger and the file system, as programs.
-- A program is a tree: it returns a value, or performs a command and goes on by the reply. What a
-- reply is depends on the command only, so a theorem on all replies holds of every ledger and every
-- file system, and of every order in which they change.
pub mod Run
use linux_deep_clean.Prelude.{ℕ, ◌+◌, Bool, Option, List, [], ◌∷◌, Bytes}
use linux_deep_clean.Ledger.Vocabulary.{Transition}
use linux_deep_clean.Pathbytes.BytePath.{BytePath}
use linux_deep_clean.Trash.Facts.{Faults, Kinds, Precondition, Ticket, Answer}

-- `linuxfs.TrashMoveDisposition`
pub data Disposition : Type 0 where
  not_applied verified indeterminate : Disposition
  unknown_disposition : ℕ → Disposition

-- `MetadataPublication`, and whether it holds the receipt of linuxfs
pub record Publication : Type 0 where
  pub root : Bytes
  pub token : Bytes
  pub receipt : Bool

pub data Command (k : Kinds) : Type 0 where
  -- `ledger.Reserve`, with the ID of the action, the digest of the plan and the layout;
  -- `ledger.Transition` and `ledger.Reload`
  reserve : Bytes → Bytes → k.Layout → Command k
  record_fact : Ticket k → Transition → Command k
  reload : Ticket k → Command k
  -- `operations.write`, with the token, the source and the date; `selectDirectories`; `move`, with
  -- the name, the publication and the precondition; `closeDirectories`
  write : Bytes → BytePath → k.Time → Command k
  select : Command k
  move : Bytes → Publication → Precondition k → Command k
  close : Command k
  -- the probes, of the metadata with the token, of the content with the token and the precondition,
  -- and of the absence of the source with its name and the precondition
  probe_metadata : Bytes → Command k
  probe_content : Bytes → Precondition k → Command k
  probe_source : Bytes → Precondition k → Command k
  -- `writeTrashInfoContextError`
  context : Command k

pub record Written : Type 0 where
  pub publication : Option Publication
  pub faults : Faults

-- Whether directories came back, and the error.
pub record Selected : Type 0 where
  pub directories : Bool
  pub faults : Faults

pub record Moved : Type 0 where
  pub disposition : Disposition
  pub faults : Faults

-- The bytes, where they are not nil.
pub record Probed : Type 0 where
  pub contents : Option Bytes
  pub present : Bool
  pub faults : Faults

-- The answer of a test, and the error.
pub record Tested : Type 0 where
  pub holds : Bool
  pub faults : Faults

abbrev pub Reply : {k : Kinds} → Command k → Type 0
Reply {k} (reserve action_id plan_digest layout) = Answer k
Reply {k} (record_fact ticket t) = Answer k
Reply {k} (reload ticket) = Answer k
Reply (write token source deleted_at) = Written
Reply select = Selected
Reply (move basename publication precondition) = Moved
Reply close = Unit {0}
Reply (probe_metadata token) = Probed
Reply (probe_content token precondition) = Tested
Reply (probe_source basename precondition) = Tested
Reply context = Faults

pub data Program (k : Kinds) (A : Type 0) : Type 0 where
  return : A → Program k A
  perform : (c : Command k) → (Reply c → Program k A) → Program k A

unfoldable pub chain : {k : Kinds} {A B : Type 0} → Program k A → (A → Program k B) → Program k B
chain (return a) next = next a
chain (perform c go) next = perform c (λ reply. chain (go reply) next)

-- `defer func() { _ = operations.closeDirectories(directories) }()`
unfoldable pub closing : {k : Kinds} {A : Type 0} → Program k A → Program k A
closing p = chain p (λ a. perform close (λ _. return a))
