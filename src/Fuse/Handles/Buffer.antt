-- ===== src/Fuse/Handles/Buffer.antt =====
-- internal/fusefs/fusefs.go: what a handle reads back after a write, and what it flushes.
use distributed_configs_fs.Base.{
  ℕ, zero, suc, ◌+◌, ◌≤◌, max, ◌≡◌, ◌≢◌, ◌⊎◌, refl, ◌∙◌, ap, sym, inl, inr, true, false, Bool-cases,
  ltb, ltz, pos, ◌<◌, ◌-◌, ◌%◌, ◌^◌, wrap64, wrap64_of_int64, take_all, Text, [], ◌∷◌, ◌++◌, length,
  take, drop, length-append, length-take, length-drop, arith,
}
use distributed_configs_fs.Core.Error.{Result-cases}
use distributed_configs_fs.Syncer.State.{Service, Config}
use distributed_configs_fs.Syncer.Local.{put_file}
use distributed_configs_fs.Syncer.Local.Writes.{HoldsFile, put_file_held, put_file_failure}
use distributed_configs_fs.Fuse.State.{done}
use distributed_configs_fs.Fuse.Handles.{
  WriteHandle, read_at, grow, overwrite, padded, write, read_buffer, flush,
}

length-grow : (n : ℕ) (buf : Text) → length buf ≤ n → length (grow n buf) ≡ n
unfolding grow
length-grow zero [] h = refl
length-grow zero (b ∷ buf) h = absurd (omega arith)
length-grow (suc n) [] h = ap suc (length-grow n [] (omega arith))
length-grow (suc n) (b ∷ buf) h = ap suc (length-grow n buf (omega arith))

-- Where the content fits, all of it is copied.
overwrite_all :
    (off : ℕ) (content buf : Text)
    → off + length content ≤ length buf
    → overwrite off content buf ≡ take off buf ++ (content ++ drop (off + length content) buf)
unfolding overwrite
overwrite_all off content buf h = rw (take_all (length buf - off) content (omega arith)) refl

length-overwrite :
    (off : ℕ) (content buf : Text)
    → off + length content ≤ length buf
    → length (overwrite off content buf) ≡ length buf
length-overwrite off content buf h = rw (overwrite_all off content buf h) (
    ground (
      arith,
      length-append (take off buf) (content ++ drop (off + length content) buf),
      length-append content (drop (off + length content) buf),
      length-take off buf,
      length-drop (off + length content) buf,
    ))

take_front : (xs ys : Text) → take (length xs) (xs ++ ys) ≡ xs
take_front [] ys = refl
take_front (x ∷ xs) ys = ap (λ l. x ∷ l) (take_front xs ys)

drop-take : (n : ℕ) (buf rest : Text) → n ≤ length buf → drop n (take n buf ++ rest) ≡ rest
drop-take zero buf rest h = refl
drop-take (suc n) [] rest h = absurd (omega arith)
drop-take (suc n) (b ∷ buf) rest h = drop-take n buf rest (omega arith)

take-take : (n : ℕ) (buf rest : Text) → n ≤ length buf → take n (take n buf ++ rest) ≡ take n buf
take-take zero buf rest h = refl
take-take (suc n) [] rest h = absurd (omega arith)
take-take (suc n) (b ∷ buf) rest h = ap (λ l. b ∷ l) (take-take n buf rest (omega arith))

drop-drop : (n m : ℕ) (buf : Text) → drop m (drop n buf) ≡ drop (n + m) buf
drop-drop zero m buf = let e : 0 + m ≡ m = omega arith in rw e refl
drop-drop (suc n) zero [] = let e : suc n + 0 ≡ suc n = omega arith in rw e refl
drop-drop (suc n) (suc m) [] = let e : suc n + suc m ≡ suc (n + suc m) = omega arith in rw e refl
drop-drop (suc n) m (b ∷ buf) =
    let e : suc n + m ≡ suc (n + m) = omega arith in rw e (drop-drop n m buf)

drop_front : (xs ys : Text) → drop (length xs) (xs ++ ys) ≡ ys
drop_front [] ys = refl
drop_front (x ∷ xs) ys = drop_front xs ys

-- The three parts of a buffer after the bytes at an offset have been overwritten.
overwrite_parts :
    (off : ℕ) (content buf : Text)
    → off + length content ≤ length buf
    → let new = overwrite off content buf in
      (take off new ≡ take off buf)
      × (take (length content) (drop off new) ≡ content)
      × (drop (off + length content) new ≡ drop (off + length content) buf)
overwrite_parts off content buf h =
    let tail : Text = drop (off + length content) buf in
    let back : drop off (take off buf ++ (content ++ tail)) ≡ content ++ tail =
      drop-take off buf _ (omega arith) in
    rw (overwrite_all off content buf h) (
      take-take off buf _ (omega arith),
      rw back (take_front content tail),
      sym (drop-drop off (length content) _) ∙ rw back (drop_front content tail),
    )

length-padded : (end : ℕ) (buf : Text) → length (padded (pos end) buf) ≡ max (length buf) end
unfolding padded
length-padded end buf = ground (arith, length-grow end buf)

drop_all : (n : ℕ) (buf : Text) → length buf ≤ n → drop n buf ≡ []
drop_all zero [] h = refl
drop_all zero (b ∷ buf) h = absurd (omega arith)
drop_all (suc n) [] h = refl
drop_all (suc n) (b ∷ buf) h = drop_all n buf (omega arith)

drop-padded : (end : ℕ) (buf : Text) → drop end (padded (pos end) buf) ≡ drop end buf
unfolding padded
drop-padded end buf = elim (Bool-cases (ltb (length buf) end)) [
  | inl e ↦
      let short : length buf ≤ end = ground arith in
      let full : length (grow end buf) ≤ end = omega (arith, length-grow end buf short) in
      rw e (drop_all end (grow end buf) full ∙ sym (drop_all end buf short))
  | inr e ↦ rw e refl
]

-- As many zero bytes.
pub zeros : ℕ → Text
zeros zero = []
zeros (suc n) = 0 ∷ zeros n

take-grow_nil : (off n : ℕ) → off ≤ n → take off (grow n []) ≡ zeros off
unfolding grow zeros
take-grow_nil zero n h = refl
take-grow_nil (suc off) zero h = absurd (omega arith)
take-grow_nil (suc off) (suc n) h = ap (λ l. 0 ∷ l) (take-grow_nil off n (omega arith))

-- What stands in front of an offset in a buffer that has been made longer.
front-grow :
    (off n : ℕ) (buf : Text)
    → off ≤ n
    → length buf ≤ n
    → take off (grow n buf) ≡ take off buf ++ zeros (off - length buf)
unfolding grow zeros
front-grow zero n [] h k = refl
front-grow zero n (b ∷ buf) h k = let gone : 0 - suc (length buf) ≡ 0 = omega arith in rw gone refl
front-grow (suc off) n [] h k =
    let all_zero : suc off - 0 ≡ suc off = omega arith in rw all_zero (take-grow_nil (suc off) n h)
front-grow (suc off) zero (b ∷ buf) h k = absurd (omega arith)
front-grow (suc off) (suc n) (b ∷ buf) h k =
    let less : suc off - suc (length buf) ≡ off - length buf = omega arith in
    rw less (ap (λ l. b ∷ l) (front-grow off n buf (omega arith) (omega arith)))

append_nil : (xs : Text) → xs ++ [] ≡ xs
append_nil [] = refl
append_nil (x ∷ xs) = ap (λ l. x ∷ l) (append_nil xs)

front-padded :
    (off end : ℕ) (buf : Text)
    → off ≤ end
    → take off (padded (pos end) buf) ≡ take off buf ++ zeros (off - length buf)
unfolding padded zeros
front-padded off end buf h = elim (Bool-cases (ltb (length buf) end)) [
  | inl e ↦ rw e (front-grow off end buf h (ground arith))
  | inr e ↦
      let long : end ≤ length buf = ground arith in
      let none_more : off - length buf ≡ 0 = omega arith in
      rw (e, none_more) (sym (append_nil (take off buf)))
]

-- A write of less than 2^32 bytes that ends within the size limit, and at an int64, succeeds with
-- the number of its bytes and marks the handle dirty. A read at its offset then returns the bytes
-- that were written; the bytes in front of them are as they were, with zero bytes where the buffer
-- did not reach, the bytes behind them are as they were, and the buffer is as long as before or, if
-- that is longer, as the write reaches.
pub write-read :
    (cfg : Config) (content : Text) (off : ℕ) (h : WriteHandle)
    → off + length content < 2 ^ 63
    → length content < 2 ^ 32
    → ltz cfg.max_file_size (pos (off + length content)) ≡ false
    → let r = write cfg content off h in
      (r.0 ≡ done (length content))
      × (r.1.dirty ≡ true)
      × (read_buffer r.1 (length content) (pos off) ≡ content)
      × (take off r.1.buf ≡ take off h.buf ++ zeros (off - length h.buf))
      × (drop (off + length content) r.1.buf ≡ drop (off + length content) h.buf)
      × (length r.1.buf ≡ max (length h.buf) (off + length content))
unfolding write read_buffer read_at
write-read cfg content off h fits few small =
    let end : ℕ = off + length content in
    let base : Text = padded (pos end) h.buf in
    let exact : wrap64 (pos end) ≡ pos end = wrap64_of_int64 (pos end) (fits, omega arith) in
    let long : length base ≡ max (length h.buf) end = length-padded end h.buf in
    let reach : end ≤ length base = omega arith in
    let (front, middle, back) = overwrite_parts off content base reach in
    let size : length (overwrite off content base) ≡ length base =
      length-overwrite off content base reach in
    let starts : ltb (length base) off ≡ false = ground arith in
    let within : ltb (length (overwrite off content base)) off ≡ false = ground arith in
    let count : length content % 2 ^ 32 ≡ length content = omega arith in
    rw (exact, small, starts)
      (
        ap done count,
        refl,
        rw within middle,
        front ∙ front-padded off end h.buf (omega arith),
        back ∙ drop-padded end h.buf,
        size ∙ long,
      )

-- A flush of a handle that has been written to either stores the buffer under the path of the
-- handle, with its mode and owner, and marks the handle clean, so that the next flush has no
-- effect; or it answers an errno, the handle stays dirty, and no entry has changed.
pub flush_outcome :
    (sum256 : Text → Text) (cfg : Config) (h : WriteHandle) (s : Service)
    → h.dirty ≡ true
    → let (reply, g, t) = flush sum256 cfg h s in
      ((reply ≡ done tt)
        × (flush sum256 cfg g t ≡ (done tt, g, t))
        × HoldsFile sum256 h.path h.buf h.mode h.uid h.gid t)
      ⊎ ((reply ≢ done tt) × (g ≡ h) × (t.db.entries ≡ s.db.entries))
unfolding flush
flush_outcome sum256 cfg h s d =
    elim (Result-cases (put_file sum256 cfg h.path h.buf h.mode h.uid h.gid s).0) [
      | inl (u, e) ↦
          rw (d, e)
            (inl (refl, refl, (put_file_held sum256 cfg h.path h.buf h.mode h.uid h.gid s e).0))
      | inr (x, e) ↦
          rw (d, e)
            (inr (
              (λ k. cc k),
              refl,
              (put_file_failure sum256 cfg h.path h.buf h.mode h.uid h.gid s e).0,
            ))
    ]
