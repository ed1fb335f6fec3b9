-- ===== src/Core/Paths/Canonical.antt =====
-- The paths that SanitizePath of internal/core/path.go is meant to accept.
use distributed_configs_fs.Base.{
  ◌≡◌, refl, ◌↔◌, ◌≢◌, ◌≤◌, false, nat_eq, text_eq, Text, List, [], ◌∷◌, length, arith, All,
  Bool-cases, inl, inr, has_prefix, codes,
}
use distributed_configs_fs.Core.Error.{ok}
use distributed_configs_fs.Core.Paths.{
  split, max_path_len, contains_nul, check_elements, sanitize_path,
}
use distributed_configs_fs.Core.Paths.Elements.{IsElement, has_prefix-split, clean-IsElement}

-- A path of the tree: not empty, not too long, without NUL, and made of proper elements.
pub record IsCanonical (p : Text) : Type 0 where
  pub not_empty : p ≢ []
  pub fits : length p ≤ max_path_len
  pub no_nul : All (λ c. c ≢ 0) p
  pub elements : All IsElement (split p)

contains_nul_sound : (p : Text) → contains_nul p ≡ false → All (λ c. c ≢ 0) p
unfolding contains_nul
contains_nul_sound [] h = tt
contains_nul_sound (c ∷ s) h = ground (arith, contains_nul_sound s)

contains_nul_complete : (p : Text) → All (λ c. c ≢ 0) p → contains_nul p ≡ false
unfolding contains_nul
contains_nul_complete [] h = refl
contains_nul_complete (c ∷ s) h = ground (arith, contains_nul_complete s)

check_elements_sound : (els : List Text) → check_elements els ≡ ok tt → All IsElement els
unfolding check_elements
check_elements_sound [] h = tt
check_elements_sound (el ∷ els) h = ground (arith, check_elements_sound els)

check_elements_complete : (els : List Text) → All IsElement els → check_elements els ≡ ok tt
unfolding check_elements
check_elements_complete [] h = refl
check_elements_complete (el ∷ els) h =
    ground (
      arith,
      check_elements_complete els h.1,
      h.0.not_empty,
      h.0.not_dot,
      h.0.not_dot_dot,
      h.0.fits,
    )

sanitize_sound : (p q : Text) → sanitize_path p ≡ ok q → (q ≡ p) × IsCanonical p
unfolding sanitize_path
sanitize_sound p q h = (
  ground arith,
  record {
    not_empty = ground arith;
    fits = ground arith;
    no_nul = contains_nul_sound p (ground arith);
    elements = check_elements_sound (split p) (ground arith);
  },
)

sanitize_complete : (p : Text) → IsCanonical p → sanitize_path p ≡ ok p
unfolding sanitize_path
sanitize_complete p h = elim (Bool-cases (has_prefix p (codes "/"))) [
  | inl e ↦ absurd (has_prefix-split p e h.elements)
  | inr e ↦ ground (
    arith,
    h.not_empty,
    contains_nul_complete p h.no_nul,
    clean-IsElement p h.elements,
    check_elements_complete (split p) h.elements,
  )
]

-- SanitizePath accepts exactly the canonical paths, and returns an accepted path unchanged.
pub sanitize_path_exact : (p q : Text) → (sanitize_path p ≡ ok q) ↔ ((q ≡ p) × IsCanonical p)
sanitize_path_exact p q = (sanitize_sound p q, λ h. rw h.0 (sanitize_complete p h.1))
