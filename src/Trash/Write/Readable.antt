-- ===== src/Trash/Write/Readable.antt =====
-- What `writeTrashInfoDurableWith` of internal/trash/write.go publishes is read back.
use mathlib.Core.Path.{subst}
use linux_deep_clean.Prelude.{
  Bool, true, false, [], ◌∷◌, Option, none, some, ◌≡◌, refl, sym, ap, ◌⊎◌, inl, inr, All, IsBytes,
  Bytes, Result, ok, err, require, bind-eq-ok, ok-injective,
}
use linux_deep_clean.Pathbytes.BytePath.{BytePath}
use linux_deep_clean.Domain.Identifiers.{validate_stable_id}
use linux_deep_clean.Trash.Facts.{Fault, unsupported, interrupted, Kinds}
use linux_deep_clean.Trash.Program.{Publication}
use linux_deep_clean.Trash.Metadata.{
  home_absolute, top_relative, Clock, Basis, TrashInfo, validate_info, new_trash_info, marshal,
  parse_trash_info,
}
use linux_deep_clean.Trash.Metadata.RoundTrip.{ClockLaws, ReadsBack, parse_trash_info-marshal}
use linux_deep_clean.Trash.Reconcile.{
  MountBasis, mount_home_absolute, mount_top_relative, other_mount_basis, MountFault, classified,
  basis_from, as_unsupported,
}
use linux_deep_clean.Trash.Write.{
  MetadataAuthority, open_directories, publish, close_directories, Outside, Writing, contents_for,
  root_of, receipt_answer, publish_with, write_contents, write_trash_info,
}

classified-ok : {A : Type 0} (m : Result MountFault A) {a : A} → classified m ≡ ok a → m ≡ ok a
classified-ok (ok a) h = ap ok (ok-injective h)
classified-ok (err e) h = absurd cc

pub as_unsupported-ok : {E A : Type 0} (m : Result E A) {a : A} → as_unsupported m ≡ ok a → m ≡ ok a
as_unsupported-ok (ok a) h = ap ok (ok-injective h)
as_unsupported-ok (err e) h = absurd cc

-- The authority maps a source to a path of bytes.
abbrev pub MapsBytes : Option MetadataAuthority → BytePath → Type 0
MapsBytes none source = Unit {0}
MapsBytes (some facts) source =
    (path : BytePath) → facts.path_for source ≡ ok path → All IsBytes path.components

-- The basis of a record for that of the authority.
pub IsBasis : MountBasis → Basis → Type 0
IsBasis mount_home_absolute home_absolute = Unit {0}
IsBasis mount_top_relative top_relative = Unit {0}
IsBasis given basis = ⊥

basis_from-IsBasis :
    (given : MountBasis) (basis : Basis) → basis_from given ≡ ok basis → IsBasis given basis
unfolding basis_from IsBasis
basis_from-IsBasis mount_home_absolute basis h =
    subst (IsBasis mount_home_absolute) (ok-injective h) tt
basis_from-IsBasis mount_top_relative basis h =
    subst (IsBasis mount_top_relative) (ok-injective h) tt
basis_from-IsBasis (other_mount_basis text) basis h = absurd cc

-- What an answer says of a publication: a receipt, for the root and the token, or why there is none.
pub Reports : Bytes → Bytes → Result Fault Bool → Result Fault Publication → Type 0
Reports root token (ok true) given =
    (p : Publication) × (given ≡ ok p) × (p.root ≡ root) × (p.token ≡ token) × (p.receipt ≡ true)
Reports root token (ok false) given = given ≡ err interrupted
Reports root token (err e) given = given ≡ err e

receipt_answer-Reports :
    (root token : Bytes) (published : Result Fault Bool)
    → Reports root token published (receipt_answer root token published)
unfolding receipt_answer Reports
receipt_answer-Reports root token (ok true) = (_, refl, refl, refl, refl)
receipt_answer-Reports root token (ok false) = refl
receipt_answer-Reports root token (err e) = refl

module _ {k : Kinds} (clock : Clock k) (laws : ClockLaws k clock) where
  -- Contents that are read back as the path that the authority maps a source to.
  pub record IsReadable (authority : Option MetadataAuthority) (token : Bytes) (source : BytePath)
      (deleted_at : k.Time) (contents : Bytes) : Type 0 where
    pub facts : MetadataAuthority
    pub path : BytePath
    pub basis : Basis
    pub authority_is : authority ≡ some facts
    pub mapped : facts.path_for source ≡ ok path
    pub based : IsBasis facts.basis basis
    pub reads :
        ReadsBack clock laws
          (record { token = token; basis = basis; path = path; deleted_at = deleted_at })
          (parse_trash_info clock contents token basis)

  new_trash_info-fields :
      (token : Bytes) (basis : Basis) (path : BytePath) (deleted_at : k.Time) (info : TrashInfo k)
      → new_trash_info token basis path deleted_at ≡ ok info
      → info ≡ record { token = token; basis = basis; path = path; deleted_at = deleted_at }
  unfolding new_trash_info
  new_trash_info-fields token basis path deleted_at info h =
      let (_, _, same) =
        bind-eq-ok
          (validate_info
            (record { token = token; basis = basis; path = path; deleted_at = deleted_at }))
          _ h in
      sym (ok-injective same)

  contents_for-IsReadable :
      (context : Bool) (authority : Option MetadataAuthority) (selector : Bool) (token : Bytes)
      (source : BytePath) (deleted_at : k.Time) (contents : Bytes)
      → MapsBytes authority source
      → contents_for clock context authority selector token source deleted_at ≡ ok contents
      → IsReadable authority token source deleted_at contents
  unfolding contents_for
  contents_for-IsReadable context none selector token source deleted_at contents bytes h =
      let (_, _, h1) = bind-eq-ok (require context interrupted) _ h in absurd cc
  contents_for-IsReadable context (some facts) selector token source deleted_at contents bytes h =
      let (_, _, h1) = bind-eq-ok (require context interrupted) _ h in
      let (_, _, h2) = bind-eq-ok (require selector unsupported) _ h1 in
      let (_, _, h3) = bind-eq-ok (as_unsupported (validate_stable_id facts.root)) _ h2 in
      let (path, mapped, h4) = bind-eq-ok (classified (facts.path_for source)) _ h3 in
      let (basis, based, h5) = bind-eq-ok (basis_from facts.basis) _ h4 in
      let (info, made, written) =
        bind-eq-ok (as_unsupported (new_trash_info token basis path deleted_at)) _ h5 in
      let fields =
        new_trash_info-fields token basis path deleted_at info (as_unsupported-ok _ made) in
      let there = classified-ok _ mapped in
      let marshalled = rw fields at (as_unsupported-ok (marshal clock info) written) in
      record {
        facts = facts;
        path = path;
        basis = basis;
        authority_is = refl;
        mapped = there;
        based = basis_from-IsBasis facts.basis basis based;
        reads =
            parse_trash_info-marshal clock laws
              (record { token = token; basis = basis; path = path; deleted_at = deleted_at })
              contents (bytes path there) marshalled;
      }

  -- Either nothing is published, or readable contents are, once, between open and close.
  pub Publishes : Option MetadataAuthority → Bytes → BytePath → k.Time → Outside → Writing → Type 0
  Publishes authority token source deleted_at outside w =
      (((w.calls ≡ []) ⊎ (w.calls ≡ open_directories ∷ [])) × ((e : Fault) × (w.answer ≡ err e)))
      ⊎ ((contents : Bytes) × (is : IsReadable authority token source deleted_at contents)
          × (w.calls ≡ open_directories ∷ publish token contents ∷ close_directories ∷ [])
          × Reports is.facts.root token (outside.published token contents) w.answer)

  publish_with-Publishes :
      (authority : Option MetadataAuthority) (token : Bytes) (source : BytePath)
      (deleted_at : k.Time) (outside : Outside) (opened : Result Fault Bool) (contents : Bytes)
      → IsReadable authority token source deleted_at contents
      → Publishes authority token source deleted_at outside
          (publish_with outside opened (root_of authority) token contents)
  unfolding publish_with Publishes
  publish_with-Publishes authority token source deleted_at outside (err e) contents is =
      inl (inr refl, (e, refl))
  publish_with-Publishes authority token source deleted_at outside (ok false) contents is =
      inl (inr refl, (unsupported, refl))
  publish_with-Publishes authority token source deleted_at outside (ok true) contents is =
      let root_is : is.facts.root ≡ root_of authority = rw (is.authority_is) refl in
      inr (
        contents,
        is,
        refl,
        rw root_is
            (receipt_answer-Reports (root_of authority) token (outside.published token contents)),
      )

  write_contents-Publishes :
      (authority : Option MetadataAuthority) (token : Bytes) (source : BytePath)
      (deleted_at : k.Time) (outside : Outside) (made : Result Fault Bytes)
      → ((contents : Bytes)
          → made ≡ ok contents
          → IsReadable authority token source deleted_at contents)
      → Publishes authority token source deleted_at outside
          (write_contents outside (root_of authority) token made)
  unfolding write_contents Publishes
  write_contents-Publishes authority token source deleted_at outside (err e) is =
      inl (inl refl, (e, refl))
  write_contents-Publishes authority token source deleted_at outside (ok contents) is =
      publish_with-Publishes authority token source deleted_at outside outside.opened contents
        (is contents refl)

  -- Where the authority maps the source to a path of bytes and the time layout is read and written as
  -- documented, a write either gives an error before anything is published, or publishes once,
  -- between the opening and the closing of the directories, contents that are read back for its
  -- token as the mapped path and the wall clock of the deletion date, unless that is the zero time,
  -- which is refused. It then succeeds exactly with a receipt, which it answers for the root of the
  -- authority and the token, and else gives the error of the publication or an interruption.
  pub write_trash_info-Publishes :
      (context : Bool) (authority : Option MetadataAuthority) (selector : Bool) (token : Bytes)
      (source : BytePath) (deleted_at : k.Time) (outside : Outside)
      → MapsBytes authority source
      → Publishes authority token source deleted_at outside
          (write_trash_info clock context authority selector token source deleted_at outside)
  unfolding write_trash_info
  write_trash_info-Publishes context authority selector token source deleted_at outside bytes =
      write_contents-Publishes authority token source deleted_at outside _ (λ contents h.
        contents_for-IsReadable context authority selector token source deleted_at contents bytes h)
