-- ===== src/Lib.antt =====
-- linux-deep-clean: the raw-byte paths, the domain facts, the bounded CBOR scan, the recovery ledger
-- and the move to the Trash of a cleaner that keeps what it removes recoverable.
--
-- The parts and their files:
--   Prelude     Boolean tests on numbers, lists and bytes, and `Result`, Go's value or error.
--   Pathbytes   BytePath.antt models internal/pathbytes/byte_path.go: `New` is `new_path`,
--               `validateComponents` is `validate_components`, `Equal` is `path_equal`, `Display` is
--               `display`. TrashCodec.antt models internal/pathbytes/trash_percent_codec.go: the
--               percent text of a path, both ways, with its budgets.
--   Domain      internal/domain. Size.antt models size.go: `SizeFacts.Validate`, `Add` is
--               `add_size_facts`. Identifiers.antt models the checks of identifiers.go. Graph.antt
--               models `TransactionGraph.Validate` of transaction_graph.go, Graph/Search.antt the
--               binary search that `hasNode` calls. Plan.antt models `validatePlanActions` of plan.go
--               and Plan/Visit.antt its visit of dependencies. Outcomes.antt models
--               `ActionResult.Validate` of result.go, Outcomes/Summary.antt `deriveExitSummary`,
--               Outcomes/Whole.antt `Result.Validate` and `NewResult`.
--   Ledger      internal/state/recovery_ledger.go. Vocabulary.antt has the closed vocabularies,
--               Frame.antt the frame, its validation and digest, and the view of a recovery,
--               Transition.antt `validateRecoveryTransition`, Replay.antt `replayRecoveryFrames` and
--               `appendRecoveryTransition`. Transition/Lifecycle.antt has the diagram of a
--               recovery's phases. Records.antt models the file names of records in
--               internal/linuxfs/private_ledger_linux.go, Sources.antt the key of a source,
--               Histories.antt `replayRecoveryLedgerRecords` and the searches over its histories,
--               Service.antt `Reserve`, `Transition`, `FindOutstanding`, `ListOutstanding` and
--               `Reload`. Port.antt models recovery_ledger_port.go, the tickets of content
--               operations, and Port/Mapping.antt its mapping of words.
--   Trash       internal/trash. Facts.antt has the tickets of internal/recoveryport/ledger.go and the
--               checks that bind one to an action, Program.antt the calls of the ledger and of the
--               file system as commands of a program, Move.antt `moveToTrashWith` of move.go,
--               Admit.antt `newTrashMoveRequest` of it, Reconcile.antt and Reconcile/Flow.antt
--               reconcile.go and content_reconcile.go, Metadata.antt the .trashinfo record of
--               metadata.go, Write.antt its writing in write.go.
--               Program/Run.antt has protocols: the stage of a program, the commands that a stage
--               allows, and the stage after a reply. A command carries what the code passes, but for
--               the context, the open directories and the lease of the source.
--   Cbor        internal/planproto/limits.go: the scan that bounds an untrusted frame before it is
--               decoded. Limits.antt has the budgets, Argument.antt the head of an item, Scan.antt
--               items, arrays and maps, Utf8.antt the test of text.
--
-- Numbers. A byte is a number. A Go int is a natural number where the code never lets it be
-- negative: lengths, offsets, counts. A budget may be given as a negative int, which the code refuses
-- like zero. uint8 and uint64 arithmetic keeps its wrap-around.
--
-- Errors. `Result` stands for Go's pair of a value and an error. An error is the sentinel that callers
-- test for (Ledger) or a name of the message (elsewhere). Reads outside a slice are the error
-- `panic`.
--
-- Fuel. `scanCBORItem` has one unit for each level of nesting. `scanCanonicalCBOR` gives
-- it one more than the depth budget; a scan at that depth is refused before it goes deeper. The binary
-- search has one unit for each node, and halves the range each time. The visit of dependencies has one
-- for each action and one more, since an action that is being visited is not entered again.
--
-- Parameters. What `Action.Validate` checks is a field of `Actions` and of `Action`, the checks of a
-- kind, a probe and a handle are fields of `Parts`. The reservation binding of a ledger frame, its
-- checks and comparison, the CBOR encoder of frames and SHA-256 are the fields of `Bindings`, what the
-- service reads of a binding and the decoding of the wire form those of `Identities`. A locked session
-- and a lease are their answers, and a command of a program may have any reply. Snapshots, layouts and
-- times are the types of `Kinds`, the time layout of the Go library is a `Clock`, what is documented
-- of it is `ClockLaws`.
--
-- Not modelled: the system calls (internal/linuxfs, most of internal/mounts), the conversions
-- around the CBOR and JSON libraries (the rest of internal/planproto), the checks of a binding and its
-- construction from an action, the selection of Trash directories, internal/quarantine, commands and
-- presenters.
pub mod Prelude
pub mod Pathbytes
pub mod Domain
pub mod Ledger
pub mod Cbor
pub mod Trash
