-- ===== src/Ledger/Transition/Lifecycle.antt =====
-- The life of a recovery as an abstract diagram, and that `validateRecoveryTransition` of
-- internal/state/recovery_ledger.go takes exactly its edges.
use linux_deep_clean.Prelude.{false, ◌≡◌, refl, arith, Option, none, some, ok}
use linux_deep_clean.Ledger.Vocabulary.{
  Destination, trash, quarantine, other_destination, Event, intent_reserved,
  metadata_dispatch_recorded, metadata_verified, metadata_indeterminate, move_dispatch_recorded,
  move_verified, move_indeterminate, restore_dispatch_recorded, restore_verified,
  restore_indeterminate, reconciliation_resolved, Outcome, unresolved, resolved_not_applied,
  resolved_move_verified, resolved_restore_verified, Metadata, unrecorded, absent, Transition,
}
use linux_deep_clean.Ledger.Frame.{closed_by}
use linux_deep_clean.Ledger.Transition.{quarantine_metadata, stage, follow}

-- Where the content is, as far as the ledger knows. `untouched` is the end of a recovery that
-- changed nothing, `returned` the end of one whose content came back.
pub data Phase : Type 0 where
  reserved metadata_dispatched metadata_written metadata_unknown : Phase
  move_dispatched moved move_unknown : Phase
  restore_dispatched restore_unknown : Phase
  untouched returned : Phase

-- The phase after an event with its outcome. A resolution that names no outcome has none.
unfoldable pub phase_of : Event → Outcome → Option Phase
phase_of intent_reserved _ = some reserved
phase_of metadata_dispatch_recorded _ = some metadata_dispatched
phase_of metadata_verified _ = some metadata_written
phase_of metadata_indeterminate _ = some metadata_unknown
phase_of move_dispatch_recorded _ = some move_dispatched
phase_of move_verified _ = some moved
phase_of move_indeterminate _ = some move_unknown
phase_of restore_dispatch_recorded _ = some restore_dispatched
phase_of restore_verified _ = some returned
phase_of restore_indeterminate _ = some restore_unknown
phase_of reconciliation_resolved resolved_not_applied = some untouched
phase_of reconciliation_resolved resolved_move_verified = some moved
phase_of reconciliation_resolved resolved_restore_verified = some returned
phase_of _ _ = none

-- The diagram, for a destination.
pub data Edge (d : Destination) : Phase → Phase → Type 0 where
  dispatch_metadata : d ≡ trash → Edge d reserved metadata_dispatched
  dispatch_quarantine : d ≡ quarantine → Edge d reserved move_dispatched
  drop_reservation : Edge d reserved untouched
  write_metadata : Edge d metadata_dispatched metadata_written
  lose_metadata : Edge d metadata_dispatched metadata_unknown
  dispatch_move : Edge d metadata_written move_dispatched
  drop_metadata : Edge d metadata_written untouched
  settle_metadata : Edge d metadata_unknown untouched
  move : Edge d move_dispatched moved
  lose_move : Edge d move_dispatched move_unknown
  settle_unmoved : Edge d move_unknown untouched
  settle_moved : Edge d move_unknown moved
  dispatch_restore : Edge d moved restore_dispatched
  restore : Edge d restore_dispatched returned
  lose_restore : Edge d restore_dispatched restore_unknown
  settle_retained : Edge d restore_unknown moved
  settle_returned : Edge d restore_unknown returned

pub ruleset edges = (
  dispatch_metadata, dispatch_quarantine, drop_reservation, write_metadata, lose_metadata,
  dispatch_move, drop_metadata, settle_metadata, move, lose_move, settle_unmoved, settle_moved,
  dispatch_restore, restore, lose_restore, settle_retained, settle_returned,
)

-- A phase that `p` names, and how the diagram leads from it to one that `q` names.
pub record Moves (d : Destination) (p q : Option Phase) : Type 0 where
  pub from : Phase
  pub to : Phase
  pub from_is : p ≡ some from
  pub to_is : q ≡ some to
  pub edge : Edge d from to

along : {d : Destination} {p q : Phase} → Edge d p q → Moves d (some p) (some q)
along {p = p} {q = q} e = record { from = p; to = q; from_is = refl; to_is = refl; edge = e }

pub follow-Moves :
    (d : Destination) (s next : Event) (o : Outcome) (m : Metadata)
    → follow d s next o m ≡ ok tt
    → Moves d (phase_of s unresolved) (phase_of next o)
unfolding follow phase_of
follow-Moves d intent_reserved reconciliation_resolved resolved_not_applied m h =
    along drop_reservation
follow-Moves trash intent_reserved metadata_dispatch_recorded o m h = along (dispatch_metadata refl)
follow-Moves quarantine intent_reserved move_dispatch_recorded o m h =
    along (dispatch_quarantine refl)
follow-Moves d metadata_dispatch_recorded metadata_verified o m h = along write_metadata
follow-Moves d metadata_dispatch_recorded metadata_indeterminate o m h = along lose_metadata
follow-Moves d metadata_verified move_dispatch_recorded o m h = along dispatch_move
follow-Moves d metadata_verified reconciliation_resolved resolved_not_applied m h =
    along drop_metadata
follow-Moves d metadata_indeterminate reconciliation_resolved resolved_not_applied m h =
    along settle_metadata
follow-Moves d move_dispatch_recorded move_verified o m h = along move
follow-Moves d move_dispatch_recorded move_indeterminate o m h = along lose_move
follow-Moves d move_verified restore_dispatch_recorded o m h = along dispatch_restore
follow-Moves d restore_dispatch_recorded restore_verified o m h = along restore
follow-Moves d restore_dispatch_recorded restore_indeterminate o m h = along lose_restore
follow-Moves d move_indeterminate reconciliation_resolved resolved_not_applied m h =
    along settle_unmoved
follow-Moves d move_indeterminate reconciliation_resolved resolved_move_verified m h =
    along settle_moved
follow-Moves d restore_indeterminate reconciliation_resolved resolved_move_verified m h =
    along settle_retained
follow-Moves d restore_indeterminate reconciliation_resolved resolved_restore_verified m h =
    along settle_returned
follow-Moves _ _ _ _ _ h = cc

pub phase_of-stage :
    (e : Event) (o : Outcome)
    → closed_by e o ≡ false
    → (phase_of (stage e o) unresolved ≡ phase_of e o)
unfolding stage phase_of closed_by
phase_of-stage reconciliation_resolved resolved_move_verified h = refl
phase_of-stage e o h = ground arith

abbrev pub plain : Event → Transition
plain e = record { event = e; outcome = unresolved; metadata = unrecorded }

abbrev pub resolution : Outcome → Metadata → Transition
resolution o m = record { event = reconciliation_resolved; outcome = o; metadata = m }

-- The fact to record for an edge.
unfoldable pub fact_of : {d : Destination} {p q : Phase} → Edge d p q → Transition
fact_of (dispatch_metadata _) = plain metadata_dispatch_recorded
fact_of (dispatch_quarantine _) = plain move_dispatch_recorded
fact_of drop_reservation = resolution resolved_not_applied absent
fact_of write_metadata = plain metadata_verified
fact_of lose_metadata = plain metadata_indeterminate
fact_of dispatch_move = plain move_dispatch_recorded
fact_of drop_metadata = resolution resolved_not_applied absent
fact_of settle_metadata = resolution resolved_not_applied absent
fact_of move = plain move_verified
fact_of lose_move = plain move_indeterminate
fact_of settle_unmoved = resolution resolved_not_applied unrecorded
fact_of settle_moved = resolution resolved_move_verified unrecorded
fact_of dispatch_restore = plain restore_dispatch_recorded
fact_of restore = plain restore_verified
fact_of lose_restore = plain restore_indeterminate
fact_of settle_retained = resolution resolved_move_verified unrecorded
fact_of settle_returned = resolution resolved_restore_verified unrecorded

-- An event and outcome that name the phase, once a resolved move is read as a verified one.
abbrev pub stage_of : Phase → Event
stage_of reserved = intent_reserved
stage_of metadata_dispatched = metadata_dispatch_recorded
stage_of metadata_written = metadata_verified
stage_of metadata_unknown = metadata_indeterminate
stage_of move_dispatched = move_dispatch_recorded
stage_of moved = move_verified
stage_of move_unknown = move_indeterminate
stage_of restore_dispatched = restore_dispatch_recorded
stage_of restore_unknown = restore_indeterminate
stage_of untouched = reconciliation_resolved
stage_of returned = restore_verified

pub stage-stage_of :
    (e : Event) (o : Outcome) (p : Phase)
    → closed_by e o ≡ false
    → phase_of e o ≡ some p
    → stage e o ≡ stage_of p
unfolding stage phase_of closed_by
stage-stage_of e o p c h = ground arith

any_destination : (d : Destination) → quarantine_metadata d absent ≡ ok tt
unfolding quarantine_metadata
any_destination trash = refl
any_destination quarantine = refl
any_destination (other_destination _) = refl

pub follow-fact_of :
    {d : Destination} {p q : Phase} (x : Edge d p q)
    → follow d (stage_of p) (fact_of x).event (fact_of x).outcome (fact_of x).metadata ≡ ok tt
unfolding follow fact_of
follow-fact_of (dispatch_metadata e) = rw e
follow-fact_of (dispatch_quarantine e) = rw e
follow-fact_of {d} drop_reservation = any_destination d
follow-fact_of {d} drop_metadata = any_destination d
follow-fact_of {d} settle_metadata = any_destination d
follow-fact_of _ = refl

pub phase_of-fact_of :
    {d : Destination} {p q : Phase} (x : Edge d p q)
    → phase_of (fact_of x).event (fact_of x).outcome ≡ some q
unfolding phase_of fact_of
phase_of-fact_of write_metadata = refl
phase_of-fact_of _ = refl
