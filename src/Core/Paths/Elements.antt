-- ===== src/Core/Paths/Elements.antt =====
-- Splitting a path into its elements, and what path.Clean does to proper elements.
use mathlib.Core.List.{reverse, reverse-append, append-nil, append_assoc}
use distributed_configs_fs.Base.{
  ℕ, ◌≡◌, refl, sym, ◌≢◌, Bool, true, false, nat_eq, text_eq, Text, List, [], ◌∷◌, ◌++◌, length,
  ◌≤◌, arith, All, Bool-cases, inl, inr, has_prefix, codes,
}
use distributed_configs_fs.Core.Paths.{
  slash, dot, dot_dot, cons_head, split, join, clean_step, clean_elements, clean, max_name_len,
}

-- An element that a path may have.
pub record IsElement (el : Text) : Type 0 where
  pub not_empty : el ≢ []
  pub not_dot : el ≢ dot
  pub not_dot_dot : el ≢ dot_dot
  pub fits : length el ≤ max_name_len

split-cons : (s : Text) → split s ≢ []
unfolding split cons_head
split-cons [] = λ h. cc
split-cons (c ∷ s) = λ h. ground (arith, split-cons s)

join-cons_head : (c : ℕ) (els : List Text) → els ≢ [] → join (cons_head c els) ≡ c ∷ join els
unfolding join cons_head
join-cons_head c [] h = absurd (h refl)
join-cons_head c (el ∷ []) h = refl
join-cons_head c (el ∷ el' ∷ els) h = refl

join-nil_cons : (els : List Text) → els ≢ [] → join ([] ∷ els) ≡ slash ∷ join els
unfolding join
join-nil_cons [] h = absurd (h refl)
join-nil_cons (el ∷ els) h = refl

-- The elements, joined, are the path again.
pub join-split : (s : Text) → join (split s) ≡ s
unfolding split join
join-split [] = refl
join-split (c ∷ s) =
    ground (arith, join-split s, join-cons_head c (split s), join-nil_cons (split s), split-cons s)

clean_step-IsElement :
    (rooted : Bool) (kept : List Text) (el : Text)
    → IsElement el
    → clean_step rooted kept el ≡ el ∷ kept
unfolding clean_step
clean_step-IsElement rooted [] el h = ground (arith, h.not_empty, h.not_dot, h.not_dot_dot)
clean_step-IsElement rooted (k ∷ ks) el h = ground (arith, h.not_empty, h.not_dot, h.not_dot_dot)

clean_elements-IsElement :
    (rooted : Bool) (els kept : List Text)
    → All IsElement els
    → reverse (clean_elements rooted kept els) ≡ reverse kept ++ els
unfolding clean_elements
clean_elements-IsElement rooted [] kept h = sym (append-nil (reverse kept))
clean_elements-IsElement rooted (el ∷ els) kept h =
    rw
      (clean_step-IsElement rooted kept el h.0, clean_elements-IsElement rooted els (el ∷ kept) h.1)
      (rw (reverse-append (el ∷ []) kept) (append_assoc (reverse kept) (el ∷ []) els))

split-slash : (c : ℕ) (s : Text) → c ≡ slash → split (c ∷ s) ≡ [] ∷ split s
unfolding split
split-slash c s h = ground arith

-- A path that starts with a slash has an empty first element.
pub has_prefix-split : (p : Text) → has_prefix p (codes "/") ≡ true → All IsElement (split p) → ⊥
unfolding has_prefix
has_prefix-split [] h e = cc
has_prefix-split (c ∷ s) h e =
    let first : All IsElement ([] ∷ split s) = rw (split-slash c s (ground arith)) at e in
    first.0.not_empty refl

-- Cleaning changes nothing where every element is proper.
pub clean-IsElement : (p : Text) → All IsElement (split p) → clean p ≡ p
unfolding clean
clean-IsElement [] h = absurd (h.0.not_empty refl)
clean-IsElement (c ∷ s) h = elim (Bool-cases (has_prefix (c ∷ s) (codes "/"))) [
  | inl e ↦ absurd (has_prefix-split (c ∷ s) e h)
  | inr e ↦
      rw (e, clean_elements-IsElement false (split (c ∷ s)) [] h, join-split (c ∷ s)) (ground arith)
]
