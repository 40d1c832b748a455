-- ===== src/Ledger/Replay/Digested.antt =====
-- internal/state/recovery_ledger.go: the digest behind which a history is continued.
use linux_deep_clean.Prelude.{true, false, ◌≡◌, sym, ◌∙◌, List, some, Bytes, ok, ok-injective}
use linux_deep_clean.Ledger.Frame.{
  Frame, Recovery, Bindings, is_zero_digest, validate_frame, frame_digest,
}
use linux_deep_clean.Ledger.Replay.{last_frame, replay_frames}
use linux_deep_clean.Ledger.Replay.Chain.{Chain, end, link, last_of, replay_frames-IsHistory}
use linux_deep_clean.Ledger.Replay.Append.{history_last}

module _ (b : Bindings) where
  open b use {Binding, same_binding}

  -- What is asked of the frames of a binding: each that is valid encodes within its bound, and its
  -- digest is not the zero digest.
  abbrev pub IsDigested : Binding → Type 0
  IsDigested x =
      (f : Frame Binding)
      → same_binding x f.binding ≡ true
      → validate_frame b f ≡ ok tt
      → (d : Bytes) × (frame_digest b f ≡ ok d) × (is_zero_digest d ≡ false)

  Chain-last :
      {x : Binding} {f : Frame Binding} {fs : List (Frame Binding)}
      → Chain b x f fs
      → validate_frame b f ≡ ok tt
      → same_binding x f.binding ≡ true
      → (validate_frame b (last_of b f fs) ≡ ok tt)
        × (same_binding x (last_of b f fs).binding ≡ true)
  Chain-last (end f) valid same = (valid, same)
  Chain-last (link l c) valid same = Chain-last c l.valid l.binding

  -- The digest of the last frame is that of the recovery, and not zero.
  pub record IsChained (history : List (Frame Binding)) (r : Recovery Binding) : Type 0 where
    pub last : Frame Binding
    pub last_is : last_frame history ≡ some last
    pub ordinal : r.ordinal ≡ last.ordinal
    pub digest : frame_digest b last ≡ ok r.digest
    pub nonzero : is_zero_digest r.digest ≡ false

  pub history-IsChained :
      (history : List (Frame Binding)) (r : Recovery Binding)
      → replay_frames b history ≡ ok r
      → same_binding r.binding r.binding ≡ true
      → IsDigested r.binding
      → IsChained history r
  history-IsChained history r replayed own digested =
      let is = replay_frames-IsHistory b history r replayed in
      let last = last_of b is.first is.rest in
      let (valid, same) = Chain-last is.chain is.valid (rw is.binding at own) in
      let (d, digest, nonzero) = digested last (rw is.binding same) valid in
      let e : d ≡ r.digest = ok-injective (sym digest ∙ is.views.digest) in
      record {
        last = last;
        last_is = history_last b history r is;
        ordinal = is.views.ordinal;
        digest = is.views.digest;
        nonzero = rw (sym e) nonzero;
      }
