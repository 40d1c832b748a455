-- ===== src/Trash/Program/Run.antt =====
-- A protocol for the programs of internal/trash, and that a program keeps it whatever the replies.
use linux_deep_clean.Prelude.{ℕ, ◌+◌, Bool, true, ◌≡◌, refl, ◌&&◌}
use linux_deep_clean.Trash.Facts.{Kinds}
use linux_deep_clean.Trash.Program.{Command, Reply, Program, return, perform, chain}

-- What stands so far, which commands it allows, and what the reply makes of it.
pub record Protocol (k : Kinds) : Type 1 where
  pub Stage : Type 0
  pub allowed : Stage → Command k → Bool
  pub next : Stage → (c : Command k) → Reply c → Stage

-- The other side: a reply to every command, which may differ each time.
abbrev pub World : Kinds → Type 0
World k = ℕ → (c : Command k) → Reply c

-- The value, and the number of commands performed, from the given number on.
unfoldable pub run : {k : Kinds} {A : Type 0} → World k → ℕ → Program k A → A × ℕ
run world n (return a) = (a, n)
run world n (perform c go) = run world (n + 1) (go (world n c))

module _ {k : Kinds} (P : Command k → Type 0) where
  -- Every command that is performed satisfies the predicate, whatever the replies.
  abbrev pub Sends : {A : Type 0} → Program k A → Type 0
  Sends (return a) = Unit {0}
  Sends (perform c go) = P c × ((reply : Reply c) → Sends (go reply))

  pub Sends-chain :
      {A B : Type 0} (p : Program k A) (go : A → Program k B)
      → Sends p
      → ((a : A) → Sends (go a))
      → Sends (chain p go)
  unfolding chain
  Sends-chain (return a) go h on = on a
  Sends-chain (perform c more) go (fits, h) on =
      (fits, λ reply. Sends-chain (more reply) go (h reply) on)

module _ {k : Kinds} (protocol : Protocol k) where
  open protocol use {Stage, allowed, next}

  -- Every command is allowed where it is performed, and at the end the postcondition holds.
  abbrev pub Keeps : {A : Type 0} → (Stage → A → Type 0) → Stage → Program k A → Type 0
  Keeps Q s (return a) = Q s a
  Keeps Q s (perform c go) =
      (allowed s c ≡ true) × ((reply : Reply c) → Keeps Q (next s c reply) (go reply))

  pub Keeps-chain :
      {A B : Type 0} (Q : Stage → A → Type 0) (R : Stage → B → Type 0) (s : Stage) (p : Program k A)
      (go : A → Program k B)
      → Keeps Q s p
      → ((s' : Stage) (a : A) → Q s' a → Keeps R s' (go a))
      → Keeps R s (chain p go)
  unfolding chain
  Keeps-chain Q R s (return a) go h on = on s a h
  Keeps-chain Q R s (perform c more) go (fits, h) on =
      (fits, λ reply. Keeps-chain Q R (next s c reply) (more reply) go (h reply) on)

  pub Keeps-weaken :
      {A : Type 0} (Q R : Stage → A → Type 0) (s : Stage) (p : Program k A)
      → Keeps Q s p
      → ((s' : Stage) (a : A) → Q s' a → R s' a)
      → Keeps R s p
  Keeps-weaken Q R s (return a) h on = on s a h
  Keeps-weaken Q R s (perform c more) (fits, h) on =
      (fits, λ reply. Keeps-weaken Q R (next s c reply) (more reply) (h reply) on)

  -- The stage after a run.
  unfoldable pub stage_after : {A : Type 0} → World k → ℕ → Stage → Program k A → Stage
  stage_after world n s (return a) = s
  stage_after world n s (perform c go) =
      stage_after world (n + 1) (next s c (world n c)) (go (world n c))

  -- Whether a run performs only allowed commands.
  unfoldable pub keeps : {A : Type 0} → World k → ℕ → Stage → Program k A → Bool
  keeps world n s (return a) = true
  keeps world n s (perform c go) =
      allowed s c && keeps world (n + 1) (next s c (world n c)) (go (world n c))

  pub Keeps-run :
      {A : Type 0} (Q : Stage → A → Type 0) (world : World k) (n : ℕ) (s : Stage) (p : Program k A)
      → Keeps Q s p
      → (keeps world n s p ≡ true) × Q (stage_after world n s p) ((run world n p).0)
  unfolding run stage_after keeps
  Keeps-run Q world n s (return a) h = (refl, h)
  Keeps-run Q world n s (perform c go) (fits, h) =
      let (one, two) =
        Keeps-run Q world (n + 1) (next s c (world n c)) (go (world n c)) (h (world n c)) in
      (rw (fits, one) refl, two)
