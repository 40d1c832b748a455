-- ===== src/Pathbytes/BytePath/Names.antt =====
-- What `validateComponents` of internal/pathbytes/byte_path.go accepts.
use linux_deep_clean.Prelude.{
  ℕ, ◌+◌, true, ◌≡◌, ◌≢◌, ◌↔◌, refl, List, [], ◌∷◌, arith, All, Bytes, bytes_equal_iff, ok,
}
use linux_deep_clean.Pathbytes.BytePath.{
  BytePath, validate_bytes, validate_component, validate_from, validate_components, new_path,
  components_equal, path_equal,
}

-- A file name as Linux takes it in a directory: not empty, not `.` or `..`, no NUL, no slash.
pub record IsName (component : Bytes) : Type 0 where
  pub ne_nil : component ≢ []
  pub ne_dot : component ≢ b'.' ∷ []
  pub ne_dot_dot : component ≢ b'.' ∷ b'.' ∷ []
  pub clean : All (λ b. (b ≢ 0) × (b ≢ b'/')) component

pub record IsPath (components : List Bytes) : Type 0 where
  pub some_component : components ≢ []
  pub names : All IsName components

validate_bytes_iff :
    (index : ℕ) (c : Bytes) → (validate_bytes index c ≡ ok tt) ↔ All (λ b. (b ≢ 0) × (b ≢ b'/')) c
unfolding validate_bytes
validate_bytes_iff index [] = ((λ _. tt), (λ _. refl))
validate_bytes_iff index (b ∷ c) =
    let ih = validate_bytes_iff index c in
    ((λ h. ground (arith, ih.0)), (λ h. ground (arith, ih.1 h.1)))

validate_component_iff : (index : ℕ) (c : Bytes) → (validate_component index c ≡ ok tt) ↔ IsName c
unfolding validate_component
validate_component_iff index [] = ((λ h. cc), (λ h. absurd (h.ne_nil refl)))
validate_component_iff index (b ∷ c) =
    let dot = bytes_equal_iff (b ∷ c) (b'.' ∷ []) in
    let dots = bytes_equal_iff (b ∷ c) (b'.' ∷ b'.' ∷ []) in
    let inner = validate_bytes_iff index (b ∷ c) in
    (
      (λ h. record {
        ne_nil = λ e. cc;
        ne_dot = λ e. ground (arith, dot, dots, inner);
        ne_dot_dot = λ e. ground (arith, dot, dots, inner);
        clean = inner.0 (ground (arith, dot, dots));
      }),
      (λ h. ground (arith, dot, dots, inner, h.ne_dot, h.ne_dot_dot)),
    )

validate_from_iff : (index : ℕ) (cs : List Bytes) → (validate_from index cs ≡ ok tt) ↔ All IsName cs
unfolding validate_from
validate_from_iff index [] = ((λ _. tt), (λ _. refl))
validate_from_iff index (c ∷ cs) =
    let one = validate_component_iff index c in
    let more = validate_from_iff (index + 1) cs in
    ((λ h. ground (arith, one, more)), (λ h. ground (arith, one, more, h)))

pub validate_components_iff : (cs : List Bytes) → (validate_components cs ≡ ok tt) ↔ IsPath cs
unfolding validate_components
validate_components_iff [] = ((λ h. cc), (λ h. absurd (h.some_component refl)))
validate_components_iff (c ∷ cs) =
    let all = validate_from_iff 0 (c ∷ cs) in
    ((λ h. record { some_component = λ e. cc; names = all.0 h }), (λ h. all.1 h.names))

-- `New` accepts exactly the non-empty lists of file names, and keeps them as they are.
pub new_path_iff :
    (cs : List Bytes) (path : BytePath)
    → (new_path cs ≡ ok path) ↔ (IsPath cs × (path.components ≡ cs))
unfolding new_path
new_path_iff cs path =
    let all = validate_components_iff cs in
    ((λ h. ground (arith, all)), (λ h. ground (arith, all, h.0, h.1)))

pub components_equal_iff : (a b : List Bytes) → (components_equal a b ≡ true) ↔ (a ≡ b)
unfolding components_equal
components_equal_iff (x ∷ a) (y ∷ b) = ground (arith, bytes_equal_iff x y, components_equal_iff a b)
components_equal_iff _ _ = ground arith

-- `Equal` is equality of the components.
pub path_equal_iff : (a b : BytePath) → (path_equal a b ≡ true) ↔ (a ≡ b)
unfolding path_equal
path_equal_iff a b = ground (arith, components_equal_iff a.components b.components)
