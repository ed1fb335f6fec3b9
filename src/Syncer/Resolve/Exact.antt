-- ===== src/Syncer/Resolve/Exact.antt =====
-- When `resolve` skips, accepts, and sees a conflict.
use mathlib.Core.Path.{subst}
use distributed_configs_fs.Base.{
  ◌≡◌, refl, ◌≢◌, ◌↔◌, true, false, [], arith, Bool-cases, inl, inr, sym,
}
use distributed_configs_fs.Core.Entry.{Meta, after, equal}
use distributed_configs_fs.Core.Order.{
  after_total, after_asymm, after_irrefl, equal_sound, equal_refl,
}
use distributed_configs_fs.Syncer.Resolve.{skip, accept, conflict, preserve, resolve}

-- An entry that is not skipped is strictly newer than the local one.
pub after_of_not_skip :
    (local remote : Meta)
    → equal local.version remote.version ≡ false
    → after local.version remote.version ≡ false
    → after remote.version local.version ≡ true
after_of_not_skip local remote e a = elim (Bool-cases (after remote.version local.version)) [
  | inl p ↦ p
  | inr p ↦
      let same : local.version ≡ remote.version = after_total local.version remote.version a p in
      let eq : equal local.version local.version ≡ false =
        subst (λ v. equal local.version v ≡ false) (sym same) e in
      cc (equal_refl local.version)
]

-- The remote entry is strictly newer, and the local one holds content that the remote one neither
-- replaces nor repeats.
pub record IsConflict (local remote : Meta) : Type 0 where
  pub newer : after remote.version local.version ≡ true
  pub alive : local.deleted ≡ false
  pub has_content : local.hash ≢ []
  pub not_replaced : remote.prev_hash ≢ local.hash
  pub not_repeated : remote.hash ≢ local.hash

equal_of_after :
    (local remote : Meta)
    → after remote.version local.version ≡ true
    → (equal local.version remote.version ≡ false) × (after local.version remote.version ≡ false)
equal_of_after local remote h = (
  elim (Bool-cases (equal local.version remote.version)) [
    | inl p ↦ cc (equal_sound local.version remote.version p, after_irrefl local.version)
    | inr p ↦ p
  ],
  after_asymm remote.version local.version h,
)

-- With a local entry, `resolve` skips exactly what is not strictly newer; it sees a conflict
-- exactly where a strictly newer write would drop live content that it neither replaces nor
-- repeats. Without one it accepts.
pub resolve_exact :
    (local remote : Meta)
    → ((resolve local true remote ≡ skip) ↔ (after remote.version local.version ≡ false))
      × ((resolve local true remote ≡ conflict) ↔ IsConflict local remote)
      × (resolve local false remote ≡ accept)
unfolding resolve preserve
resolve_exact local remote = elim (Bool-cases (after remote.version local.version)) [
  | inl p ↦
      let (e, a) = equal_of_after local remote p in
      (
        (λ h. ground arith, λ h. cc),
        (
          λ h. record {
            newer = p;
            alive = ground arith;
            has_content = ground arith;
            not_replaced = ground arith;
            not_repeated = ground arith;
          },
          λ c. ground (arith, c.alive, c.has_content, c.not_replaced, c.not_repeated),
        ),
        refl,
      )
  | inr p ↦
      let s : resolve local true remote ≡ skip = ground (arith, after_of_not_skip local remote) in
      ((λ h. p, λ h. s), (λ h. cc, λ c. cc (c.newer)), refl)
]
