-- ===== src/Store/Sorted.antt =====
-- Tables in the order of their paths: the rows for the paths determine the whole list.
use distributed_configs_fs.Base.{
  ◌≡◌, refl, sym, ◌∙◌, ap, inl, inr, true, false, pos, Text, ltt, text_eq, List, [], ◌∷◌, map, All,
  All-map, ◌==◌, Option, none, some, if◌then◌else◌, Bool-cases, arith,
}
use distributed_configs_fs.Base.TextOrder.{ltt_irrefl, ltt_trans, ltt_total}
use distributed_configs_fs.Store.State.{EntryRow}
use distributed_configs_fs.Store.Table.{take_row, insert_by, order_by}
use distributed_configs_fs.Store.Table.Keys.{UniqueKeys}
use distributed_configs_fs.Store.Ops.{at_path, by_path}

-- The columns that are replicated: all but the position in the feed.
abbrev pub replicated : Option EntryRow → Option EntryRow
replicated none = none
replicated (some r) = some (record r { seq = pos 0 })

abbrev pub IsUnique : List EntryRow → Type 0
IsUnique = UniqueKeys (λ (r : EntryRow). r.path)

-- Rows in the order of their paths, each path once.
abbrev pub IsSorted : List EntryRow → Type 0
IsSorted [] = Unit
IsSorted (r ∷ rows) = All (λ (q : EntryRow). ltt r.path q.path ≡ true) rows × IsSorted rows

unlisted :
    (p : Text) (rows : List EntryRow)
    → All (λ (q : EntryRow). ltt p q.path ≡ true) rows
    → take_row (at_path p) rows ≡ none
unfolding take_row
unlisted p [] h = refl
unlisted p (r ∷ rows) h = elim (text_eq.dec r.path p) [
  | yes y ↦ let l : ltt p p ≡ true = rw y at h.0 in cc (l, ltt_irrefl p)
  | no n ↦ ground (arith, unlisted p rows h.1)
]

insert-lookup :
    (p : Text) (r : EntryRow) (rows : List EntryRow)
    → take_row (at_path r.path) rows ≡ none
    → take_row (at_path p) (insert_by by_path r rows)
      ≡ (if r.path == p then some r else take_row (at_path p) rows)
unfolding take_row insert_by
insert-lookup p r [] h = refl
insert-lookup p r (q ∷ rows) h = elim (text_eq.dec q.path r.path) [
  | yes y ↦ absurd (ground (arith, h, y))
  | no n ↦
      let other : take_row (at_path r.path) rows ≡ none = ground (arith, h, n) in
      ground (arith, insert-lookup p r rows other, n)
]

insert-Above :
    (p : Text) (r : EntryRow) (rows : List EntryRow)
    → ltt p r.path ≡ true
    → All (λ (q : EntryRow). ltt p q.path ≡ true) rows
    → All (λ (q : EntryRow). ltt p q.path ≡ true) (insert_by by_path r rows)
unfolding insert_by
insert-Above p r [] l h = (l, tt)
insert-Above p r (q ∷ rows) l h = elim (Bool-cases (ltt q.path r.path)) [
  | inl e ↦ rw e (h.0, insert-Above p r rows l h.1)
  | inr e ↦ rw e (l, h)
]

above : (p q : Text) → ¬ (q ≡ p) → ltt q p ≡ false → ltt p q ≡ true
above p q n h = elim (Bool-cases (ltt p q)) [ inl e ↦ e | inr e ↦ absurd (n (ltt_total q p h e)) ]

insert-IsSorted :
    (r : EntryRow) (rows : List EntryRow)
    → take_row (at_path r.path) rows ≡ none
    → IsSorted rows
    → IsSorted (insert_by by_path r rows)
unfolding insert_by take_row
insert-IsSorted r [] u h = (tt, tt)
insert-IsSorted r (q ∷ rows) u h = elim (Bool-cases (ltt q.path r.path)) [
  | inl e ↦
      let rest : take_row (at_path r.path) rows ≡ none = ground (arith, u) in
      rw e (insert-Above q.path r rows e h.0, insert-IsSorted r rows rest h.1)
  | inr e ↦
      let less : ltt r.path q.path ≡ true = above r.path q.path (λ y. ground (arith, u, y)) e in
      rw e ((less, All-map rows (λ s k. ltt_trans r.path q.path s.path less k) h.0), h)
]

pub order_by-lookup :
    (p : Text) (rows : List EntryRow)
    → IsUnique rows
    → take_row (at_path p) (order_by by_path rows) ≡ take_row (at_path p) rows
unfolding order_by take_row
order_by-lookup p [] u = refl
order_by-lookup p (r ∷ rows) u =
    rw (insert-lookup p r (order_by by_path rows) (order_by-lookup r.path rows u.1 ∙ u.0))
      (ground (arith, order_by-lookup p rows u.1))

pub order_by-IsSorted : (rows : List EntryRow) → IsUnique rows → IsSorted (order_by by_path rows)
unfolding order_by
order_by-IsSorted [] u = tt
order_by-IsSorted (r ∷ rows) u =
    insert-IsSorted r _ (order_by-lookup r.path rows u.1 ∙ u.0) (order_by-IsSorted rows u.1)

own : (r : EntryRow) (rows : List EntryRow) → take_row (at_path r.path) (r ∷ rows) ≡ some r
unfolding take_row
own r rows = let e : r.path == r.path ≡ true = ground arith in rw e refl

nothing : (p : Text) → take_row (at_path p) [] ≡ none
unfolding take_row
nothing p = refl

own_at :
    (a b : EntryRow) (rows : List EntryRow)
    → a.path ≡ b.path
    → take_row (at_path a.path) (b ∷ rows) ≡ some b
own_at a b rows y = rw y (own b rows)

passed :
    (p : Text) (r : EntryRow) (rows : List EntryRow)
    → ¬ (r.path ≡ p)
    → take_row (at_path p) (r ∷ rows) ≡ take_row (at_path p) rows
unfolding take_row
passed p r rows n = let e : r.path == p ≡ false = ground (arith, n) in rw e refl

-- A row before all others of a list is not among them.
missing :
    (a b : EntryRow) (rows : List EntryRow)
    → IsSorted (b ∷ rows)
    → ltt a.path b.path ≡ true
    → take_row (at_path a.path) (b ∷ rows) ≡ none
missing a b rows h l =
    unlisted a.path (b ∷ rows) (l, All-map rows (λ s k. ltt_trans a.path b.path s.path l k) h.0)

unfoldable pub Agree : List EntryRow → List EntryRow → Type 0
Agree xs ys =
    (p : Text) → replicated (take_row (at_path p) xs) ≡ replicated (take_row (at_path p) ys)

Agree-rest :
    (a b : EntryRow) (xs ys : List EntryRow)
    → IsSorted (a ∷ xs)
    → IsSorted (b ∷ ys)
    → a.path ≡ b.path
    → Agree (a ∷ xs) (b ∷ ys)
    → Agree xs ys
unfolding Agree
Agree-rest a b xs ys h l y e p = elim (text_eq.dec a.path p) [
  | yes z ↦
      let x : take_row (at_path p) xs ≡ none = rw (sym z) (unlisted a.path xs h.0) in
      let w : take_row (at_path p) ys ≡ none = rw (sym z, y) (unlisted b.path ys l.0) in
      rw (x, w) refl
  | no n ↦
      sym (ap replicated (passed p a xs n)) ∙ e p ∙ ap replicated (passed p b ys (λ z. n (y ∙ z)))
]

no_row : (a : EntryRow) → ¬ (replicated (some a) ≡ none)
no_row a h = cc h

module _ {B : Type 0} (f : EntryRow → B)
    (k : (r : EntryRow) → f (record r { seq = pos 0 }) ≡ f r) where
  same_row : (a b : EntryRow) → replicated (some a) ≡ replicated (some b) → f a ≡ f b
  same_row a b h =
      let same : (record a { seq = pos 0 }) ≡ (record b { seq = pos 0 }) = cc h in
      sym (k a) ∙ ap f same ∙ k b

  -- Two sorted lists in which every path has the same row have the same rows.
  pub same_rows :
      (xs ys : List EntryRow) → IsSorted xs → IsSorted ys → Agree xs ys → map f xs ≡ map f ys
  unfolding Agree
  same_rows [] [] h l e = refl
  same_rows [] (b ∷ ys) h l e =
      absurd (
        no_row b (sym (sym (ap replicated (nothing b.path)) ∙ e b.path ∙ ap replicated (own b ys))))
  same_rows (a ∷ xs) [] h l e =
      absurd (no_row a (sym (ap replicated (own a xs)) ∙ e a.path ∙ ap replicated (nothing a.path)))
  same_rows (a ∷ xs) (b ∷ ys) h l e = elim (text_eq.dec a.path b.path) [
    | yes y ↦
        let at_b : take_row (at_path a.path) (b ∷ ys) ≡ some b = own_at a b ys y in
        let head = same_row a b (sym (ap replicated (own a xs)) ∙ e a.path ∙ ap replicated at_b) in
        rw (head, same_rows xs ys h.1 l.1 (Agree-rest a b xs ys h l y e)) refl
    | no n ↦ elim (Bool-cases (ltt a.path b.path)) [
      | inl c ↦ absurd (
          no_row a (sym (ap replicated (own a xs)) ∙ e a.path ∙ ap replicated (missing a b ys l c)))
      | inr c ↦ absurd (
          no_row b (
            sym (
              sym (ap replicated (missing b a xs h (above b.path a.path n c)))
              ∙ e b.path
              ∙ ap replicated (own b ys))))
    ]
  ]
