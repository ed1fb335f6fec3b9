-- ===== src/Syncer/Pull/Bookmark.antt =====
-- applyRemote of internal/syncer/antientropy.go: the bookmark that it returns.
use distributed_configs_fs.Base.{
  ◌≡◌, refl, ◌∙◌, ◌⊎◌, inl, inr, true, ℤ, pos, maxz, ◌<ℤ◌, Text, List, [], ◌∷◌, ◌++◌, All, subst,
  arith, Bool-cases,
}
use distributed_configs_fs.Core.Error.{Result, ok, err, Result-cases}
use distributed_configs_fs.Core.Entry.{Meta}
use distributed_configs_fs.Core.Clock.{Observed, adopted, clock_drift}
use distributed_configs_fs.Effect.{◌>>=◌}
use distributed_configs_fs.Syncer.State.{Config, Service, PeerClient, clock_observe}
use distributed_configs_fs.Syncer.Local.{lookup, commit}
use distributed_configs_fs.Syncer.Resolve.{Decision, skip, accept, conflict, resolve}
use distributed_configs_fs.Syncer.Pull.{
  Page, new_page, advance, needs_blob, is_ok, validate, conflict_copy, fetch_or_defer, store_remote,
  decide, resolve_remote, apply_entry, apply_entries, commit_page, apply_remote,
}

-- What one round may do to the bookmark: leave it and defer, or take the entry into account unless
-- an earlier one was deferred.
abbrev Advances : Meta → Page → Result Page → Type 0
Advances remote page (err e) = Unit
Advances remote page (ok next) =
    ((next.deferred ≡ true) × (next.safe ≡ page.safe))
    ⊎ ((next.deferred ≡ page.deferred) × (next.safe ≡ (advance remote page).safe))

-- The same page with another batch.
abbrev SameMark : Page → Page → Type 0
SameMark p q = (p.safe ≡ q.safe) × (p.deferred ≡ q.deferred)

advance_mark :
    (remote : Meta) (p q : Page)
    → SameMark p q
    → ((advance remote p).safe ≡ (advance remote q).safe)
      × ((advance remote p).deferred ≡ (advance remote q).deferred)
unfolding advance
advance_mark remote p q h = ground arith

deferred-advance : (remote : Meta) (p : Page) → (advance remote p).deferred ≡ p.deferred
unfolding advance
deferred-advance remote p = ground arith

module _ (sum256 : Text → Text) (cfg : Config) (peer : PeerClient) (addr : Text)
    (remote : Meta) where
  fetch_or_defer-Advances :
      (page from : Page) (r : Result (Unit {0}))
      → SameMark page from
      → Advances remote from (ok (fetch_or_defer sum256 cfg peer remote page r))
  unfolding fetch_or_defer
  fetch_or_defer-Advances page from (ok _) h =
      let q : Page = record page { batch = page.batch ++ remote ∷ [] } in
      let (a, b) = advance_mark remote q from h in inr (b ∙ deferred-advance remote from, a)
  fetch_or_defer-Advances page from (err e) h = inl (refl, h.0)

  store_remote-Advances :
      (page from : Page) (s : Service)
      → SameMark page from
      → Advances remote from (store_remote sum256 cfg peer addr remote page s).0
  unfolding store_remote ◌>>=◌
  store_remote-Advances page from s h = elim (Bool-cases (needs_blob remote)) [
    | inl e ↦ rw e (fetch_or_defer-Advances page from _ h)
    | inr e ↦
        let q : Page = record page { batch = page.batch ++ remote ∷ [] } in
        let (a, b) = advance_mark remote q from h in
        rw e (inr (b ∙ deferred-advance remote from, a))
  ]

  decide-Advances :
      (page : Page) (local : Meta) (d : Decision) (s : Service)
      → Advances remote page (decide sum256 cfg peer addr remote page local d s).0
  unfolding decide ◌>>=◌
  decide-Advances page local skip s = inr (deferred-advance remote page, refl)
  decide-Advances page local accept s = store_remote-Advances page page s (refl, refl)
  decide-Advances page local conflict s =
      elim (Result-cases (conflict_copy sum256 cfg peer local s).0) [
        | inl (m, e) ↦ rw e (store_remote-Advances _ page _ (refl, refl))
        | inr (x, e) ↦ rw e tt
      ]

  resolve_remote-Advances :
      (page : Page) (o : Observed) (s : Service)
      → Advances remote page (resolve_remote sum256 cfg peer addr remote page o s).0
  unfolding resolve_remote ◌>>=◌
  resolve_remote-Advances page clock_drift s = inr (deferred-advance remote page, refl)
  resolve_remote-Advances page (adopted t) s = elim (Result-cases (lookup remote.path s).0) [
    | inl ((local, have), e) ↦ rw e (decide-Advances page local (resolve local have remote) _)
    | inr (x, e) ↦ rw e tt
  ]

  apply_entry-Advances :
      (page : Page) (s : Service)
      → Advances remote page (apply_entry sum256 cfg peer addr remote page s).0
  unfolding apply_entry clock_observe ◌>>=◌
  apply_entry-Advances page s = elim (Bool-cases (is_ok (validate cfg remote))) [
    | inl e ↦ rw e (resolve_remote-Advances page _ _)
    | inr e ↦ rw e (inr (deferred-advance remote page, refl))
  ]

-- What holds of the page that is returned, if one is.
abbrev pub Returns : (Page → Type 0) → Result Page → Type 0
Returns P (ok p) = P p
Returns P (err e) = Unit

below_of_advance :
    (b : ℤ) (remote : Meta) (page : Page) (r : Result Page)
    → page.safe <ℤ b
    → remote.seq <ℤ b
    → Advances remote page r
    → Returns (λ p. p.safe <ℤ b) r
unfolding advance maxz
below_of_advance b remote page (err e) h k a = tt
below_of_advance b remote page (ok p) h k (inl (d, e)) = rw e h
below_of_advance b remote page (ok p) h k (inr (d, e)) = ground arith

-- The bookmark of a page with a deferred entry stays.
abbrev Frozen : ℤ → Page → Type 0
Frozen z p = (p.safe ≡ z) × (p.deferred ≡ true)

Frozen-of_advance :
    (z : ℤ) (remote : Meta) (page : Page) (r : Result Page)
    → Frozen z page
    → Advances remote page r
    → Returns (Frozen z) r
unfolding advance
Frozen-of_advance z remote page (err e) h a = tt
Frozen-of_advance z remote page (ok p) h (inl (d, e)) = (e ∙ h.0, d)
Frozen-of_advance z remote page (ok p) h (inr (d, e)) = (ground arith, d ∙ h.1)

still_below :
    (b : ℤ) (remote : Meta) (page next : Page)
    → page.safe <ℤ b
    → next.deferred ≡ true
    → Advances remote page (ok next)
    → next.safe <ℤ b
unfolding advance
still_below b remote page next h d (inl (e, f)) = rw f h
still_below b remote page next h d (inr (e, f)) = ground arith

module _ (sum256 : Text → Text) (cfg : Config) (peer : PeerClient) (addr : Text) where
  entries_below :
      (b : ℤ) (entries : List Meta) (page : Page) (s : Service)
      → page.safe <ℤ b
      → All (λ m. m.seq <ℤ b) entries
      → Returns (λ p. p.safe <ℤ b) (apply_entries sum256 cfg peer addr entries page s).0
  unfolding apply_entries ◌>>=◌
  entries_below b [] page s h k = h
  entries_below b (m ∷ ms) page s h (km, kms) =
      let first : Returns (λ p. p.safe <ℤ b) (apply_entry sum256 cfg peer addr m page s).0 =
        below_of_advance b m page _ h km (apply_entry-Advances sum256 cfg peer addr m page s) in
      elim (Result-cases (apply_entry sum256 cfg peer addr m page s).0) [
        | inl (p, e) ↦
            let below : p.safe <ℤ b = subst (Returns (λ q. q.safe <ℤ b)) e first in
            rw e (entries_below b ms p _ below kms)
        | inr (x, e) ↦ rw e tt
      ]

  entries-Frozen :
      (z : ℤ) (entries : List Meta) (page : Page) (s : Service)
      → Frozen z page
      → Returns (Frozen z) (apply_entries sum256 cfg peer addr entries page s).0
  unfolding apply_entries ◌>>=◌
  entries-Frozen z [] page s h = h
  entries-Frozen z (m ∷ ms) page s h =
      let first : Returns (Frozen z) (apply_entry sum256 cfg peer addr m page s).0 =
        Frozen-of_advance z m page _ h (apply_entry-Advances sum256 cfg peer addr m page s) in
      elim (Result-cases (apply_entry sum256 cfg peer addr m page s).0) [
        | inl (p, e) ↦
            let frozen : Frozen z p = subst (Returns (Frozen z)) e first in
            rw e (entries-Frozen z ms p _ frozen)
        | inr (x, e) ↦ rw e tt
      ]

  pub apply_entries-append :
      (xs ys : List Meta) (page : Page) (s : Service)
      → apply_entries sum256 cfg peer addr (xs ++ ys) page s
        ≡ (apply_entries sum256 cfg peer addr xs page >>= apply_entries sum256 cfg peer addr ys) s
  unfolding apply_entries ◌>>=◌
  apply_entries-append [] ys page s = refl
  apply_entries-append (x ∷ xs) ys page s =
      elim (Result-cases (apply_entry sum256 cfg peer addr x page s).0) [
        | inl (p, e) ↦ rw e (apply_entries-append xs ys p _)
        | inr (y, e) ↦ rw e refl
      ]

  commit_page_safe :
      (p : Page) (s : Service) (z : ℤ) → (commit_page sum256 cfg peer p s).0 ≡ ok z → z ≡ p.safe
  unfolding commit_page ◌>>=◌
  commit_page_safe p s z h = elim (Result-cases (commit cfg p.batch s).0) [
    | inl (u, e) ↦ ground arith
    | inr (x, e) ↦ ground arith
  ]

  rest_of_page :
      (b : ℤ) (rest : List Meta) (page : Page) (s : Service) (safe : ℤ)
      → (page.safe <ℤ b) × (page.deferred ≡ true)
      → ((apply_entries sum256 cfg peer addr rest page >>= commit_page sum256 cfg peer) s).0
        ≡ ok safe
      → safe <ℤ b
  unfolding ◌>>=◌
  rest_of_page b rest page s safe (h, d) =
      let f : Returns (Frozen page.safe) (apply_entries sum256 cfg peer addr rest page s).0 =
        entries-Frozen page.safe rest page s (refl, d) in
      elim (Result-cases (apply_entries sum256 cfg peer addr rest page s).0) [
        | inl (q, e) ↦ rw e λ k.
            let same : safe ≡ page.safe =
              commit_page_safe q _ safe k ∙ (subst (Returns (Frozen page.safe)) e f).0 in
            rw same h
        | inr (x, e) ↦ rw e λ k. cc k
      ]

  -- A page of a peer's feed holds, after entries of lower positions, an entry at a positive
  -- position that is deferred. If the page is applied without an error, the position that may be
  -- bookmarked is below that of the entry, whatever follows it in the page.
  pub apply_remote_excludes_deferred :
      (before rest : List Meta) (remote : Meta) (s : Service) (page next : Page) (safe : ℤ)
      → All (λ m. m.seq <ℤ remote.seq) before
      → pos 0 <ℤ remote.seq
      → (apply_entries sum256 cfg peer addr before new_page s).0 ≡ ok page
      → let s1 = (apply_entries sum256 cfg peer addr before new_page s).1 in
        (apply_entry sum256 cfg peer addr remote page s1).0 ≡ ok next
        → next.deferred ≡ true
        → (apply_remote sum256 cfg peer addr (before ++ remote ∷ rest) s).0 ≡ ok safe
        → safe <ℤ remote.seq
  unfolding apply_remote ◌>>=◌ apply_entries
  apply_remote_excludes_deferred before rest remote s page next safe h p e1 e2 d e3 =
      let below : page.safe <ℤ remote.seq =
        subst (Returns (λ q. q.safe <ℤ remote.seq)) e1
          (entries_below remote.seq before new_page s p h) in
      let stays : next.safe <ℤ remote.seq = still_below remote.seq remote page next below d (
        subst (Advances remote page) e2
          (apply_entry-Advances sum256 cfg peer addr remote page _)) in
      rest_of_page remote.seq rest next _ safe (stays, d) (rw (apply_entries-append, e1, e2) at e3)
