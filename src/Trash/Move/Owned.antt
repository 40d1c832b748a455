-- ===== src/Trash/Move/Owned.antt =====
-- `moveToTrashWith` of internal/trash/move.go: tickets and publications that are of its request.
use mathlib.Core.Path.{subst}
use linux_deep_clean.Prelude.{
  Bool, true, ◌&&◌, ◌≡◌, ◌∙◌, [], ◌∷◌, Option, none, some, Bool-cases, inl, inr, bytes_equal,
  bytes_equal_iff, and-eq-true, ok, bind-eq-ok, ok-injective, require, require-eq-ok, arith,
}
use linux_deep_clean.Ledger.Vocabulary.{Event}
use linux_deep_clean.Trash.Facts.{
  drifted, interrupted, unsupported, valid_ticket, Kinds, Ticket, Request, Faults, event_equal,
}
use linux_deep_clean.Trash.Program.{Publication}
use linux_deep_clean.Trash.Move.{is_at, transitioned, valid_publication}
use linux_deep_clean.Trash.Move.Recording.{some_fault}

first_holds : (a b c d e : Bool) → (a && b && c && d && e) ≡ true → a ≡ true
first_holds a b c d e h = ground arith

module _ {k : Kinds} (request : Request k) where
  -- A ticket with the token of the reservation, that binds to the request.
  pub record Belongs (first ticket : Ticket k) : Type 0 where
    pub token : ticket.token ≡ first.token
    pub valid : valid_ticket ticket request ≡ true

  -- A publication with a receipt, for the root of the request and the token of the reservation.
  pub record IsPublished (first : Ticket k) (publication : Publication) : Type 0 where
    pub receipt : publication.receipt ≡ true
    pub root : publication.root ≡ request.root
    pub token : publication.token ≡ first.token

  pub is_at-valid :
      (ticket : Ticket k) (e : Event)
      → is_at ticket request e ≡ true
      → valid_ticket ticket request ≡ true
  unfolding is_at
  is_at-valid ticket e h = first_holds (valid_ticket ticket request) _ _ _ _ h

  module _ (first : Ticket k) where
    pub transitioned-Belongs :
        (ticket u : Ticket k) (e : Event) (o : Option (Ticket k)) (faults : Faults)
        → Belongs first ticket
        → (transitioned request ticket e o faults).faults ≡ []
        → (transitioned request ticket e o faults).ticket ≡ some u
        → Belongs first u
    unfolding transitioned
    transitioned-Belongs ticket u e none [] is h at = cc
    transitioned-Belongs ticket u e none (f ∷ faults) is h at = cc
    transitioned-Belongs ticket u e (some v) faults is h at =
        elim (Bool-cases (bytes_equal v.token ticket.token)) [
          | inl a ↦ elim (Bool-cases (valid_ticket v request && event_equal v.event e)) [
            | inl b ↦
                let same : v ≡ u = let at' = rw (a, b) at at in cc in
                let (valid, _) = and-eq-true (valid_ticket v request) _ b in
                subst (Belongs first) same (record {
                  token = (bytes_equal_iff v.token ticket.token).0 a ∙ is.token;
                  valid = valid;
                })
            | inr b ↦ absurd (some_fault faults unsupported (rw (a, b) at h))
          ]
          | inr a ↦ absurd (some_fault faults unsupported (rw a at h))
        ]

    pub valid_publication-IsPublished :
        (ticket : Ticket k) (o : Option Publication) (publication : Publication)
        → Belongs first ticket
        → valid_publication request ticket o ≡ ok publication
        → IsPublished first publication
    unfolding valid_publication
    valid_publication-IsPublished ticket none publication is h = cc
    valid_publication-IsPublished ticket (some p) publication is h =
        let (_, receipt, h1) = bind-eq-ok (require p.receipt interrupted) _ h in
        let (_, both, same) =
          bind-eq-ok (require (bytes_equal p.root request.root && _) drifted) _ h1 in
        let (root, token) =
          and-eq-true (bytes_equal p.root request.root) _ (require-eq-ok _ _ both) in
        subst (IsPublished first) (ok-injective same) (record {
          receipt = require-eq-ok _ _ receipt;
          root = (bytes_equal_iff p.root request.root).0 root;
          token = (bytes_equal_iff p.token ticket.token).0 token ∙ is.token;
        })
