-- ===== src/Transport/Auth/Credential.antt =====
-- `verify` of internal/transport/auth.go, on what `authorize` makes.
use native.Mathlib.Decide.{ℕ_discrete}
use distributed_configs_fs.Base.{
  ℕ, ◌/◌, ◌%◌, ◌^◌, ◌<◌, ◌≡◌, refl, ◌≢◌, ◌||◌, Bool, true, false, ltz, ℤ, pos, ◌-ℤ◌, Text, [], ◌∷◌,
  ◌++◌, All, All-map, none, some, Bool-cases, inl, inr, ◌==◌, nat_eq, text_eq, codes, arith,
  if◌then◌else◌,
}
use distributed_configs_fs.Core.Paths.{cons_head, format_int, decimal}
use distributed_configs_fs.Core.Entry.{hex_encode, hex_digit}
use distributed_configs_fs.Transport.Number.Decimal.{decimal_digits, parse_int-decimal}
use distributed_configs_fs.Transport.Auth.{
  auth_scheme, max_skew, colon, split_colon, cut_space, Request, sign, authorize, check_time,
  check_parts, check_credential, check_scheme, verify,
}

-- A text without a colon.
abbrev pub IsField : Text → Type 0
IsField s = All (λ c. c ≢ colon) s

split_field : (s : Text) → IsField s → split_colon s ≡ s ∷ []
unfolding split_colon cons_head
split_field [] h = refl
split_field (c ∷ s) h =
    let rest = split_field s h.1 in
    elim (Bool-cases (c == colon)) [
      | inl e ↦ absurd (ground (arith, e, h.0))
      | inr e ↦ rw (e, rest) refl
    ]

split_fields : (s t : Text) → IsField s → split_colon (s ++ (codes ":" ++ t)) ≡ s ∷ split_colon t
unfolding split_colon cons_head ℕ_discrete
split_fields [] t h = refl
split_fields (c ∷ s) t h =
    let rest = split_fields s t h.1 in
    elim (Bool-cases (c == colon)) [
      | inl e ↦ absurd (ground (arith, e, h.0))
      | inr e ↦ rw (e, rest) refl
    ]

hex_digit_field : (d : ℕ) → hex_digit d ≢ colon
unfolding hex_digit
hex_digit_field d h = ground arith

cut_scheme :
    (rest : Text) → cut_space (auth_scheme ++ (codes " " ++ rest)) ≡ some (auth_scheme, rest)
unfolding cut_space ℕ_discrete
cut_scheme rest = refl

hex-IsField : (bs : Text) → IsField (hex_encode bs)
unfolding hex_encode
hex-IsField [] = tt
hex-IsField (b ∷ bs) = (hex_digit_field (b / 16), (hex_digit_field (b % 16), hex-IsField bs))

hex_filled : (bs : Text) → bs ≢ [] → hex_encode bs ≢ []
unfolding hex_encode
hex_filled [] h e = h refl
hex_filled (b ∷ bs) h e = cc

decimal-IsField : (n : ℕ) → IsField (decimal n)
decimal-IsField n = All-map (decimal n) (λ c d e. ground (arith, d, e)) (decimal_digits n)

-- The time of a request is further from the receiver's clock than is permitted.
abbrev pub is_skewed : ℤ → ℤ → Bool
is_skewed now ts = ltz max_skew (now -ℤ ts) || ltz (now -ℤ ts) (pos 0 -ℤ max_skew)

module _ (mac : Text → Text → Text) (key method uri node nonce_bytes : Text) (t : ℕ) where
  abbrev Signed : Request
  Signed = record {
    method = method;
    uri = uri;
    authorization = authorize mac key method uri node (pos t) nonce_bytes;
  }

  abbrev signature : Text
  signature = sign mac key method uri node (pos t) (hex_encode nonce_bytes)

  known : auth_scheme == auth_scheme ≡ true
  known = ground arith

  four_fields :
      IsField node
      → ((k m : Text) → IsField (mac k m))
      → split_colon (
          node
          ++ (codes ":"
              ++ (format_int (pos t)
                  ++ (codes ":" ++ (hex_encode nonce_bytes ++ (codes ":" ++ signature))))))
        ≡ node ∷ decimal t ∷ hex_encode nonce_bytes ∷ signature ∷ []
  unfolding format_int sign
  four_fields f g =
      rw
        (
          split_fields node _ f,
          split_fields (decimal t) (hex_encode nonce_bytes ++ (codes ":" ++ signature))
              (decimal-IsField t),
          split_fields (hex_encode nonce_bytes) signature (hex-IsField nonce_bytes),
          split_field signature (g key _),
        )
        refl

  checked :
      (now : ℤ)
      → node ≢ []
      → nonce_bytes ≢ []
      → t < 2 ^ 63
      → check_parts mac key now Signed node (decimal t) (hex_encode nonce_bytes) signature
        ≡ (if is_skewed now (pos t) then none else some node)
  unfolding check_parts check_time
  checked now named fresh fits =
      let whole = parse_int-decimal t fits in
      let filled = hex_filled nonce_bytes fresh in
      let here : node == [] || hex_encode nonce_bytes == [] ≡ false =
        ground (arith, named, filled) in
      let same : signature == signature ≡ true = ground arith in rw (here, whole) (rw same refl)

  -- A request that carries what `authorize` makes is accepted as the node's, or refused because its
  -- time is further from the receiver's clock than is permitted, and for no other reason: the
  -- node's name is not empty and holds no colon, nor do the signatures, the nonce is not empty, and
  -- the time is an int64 that is not negative.
  pub verify-authorize :
      (now : ℤ)
      → IsField node
      → node ≢ []
      → nonce_bytes ≢ []
      → t < 2 ^ 63
      → ((k m : Text) → IsField (mac k m))
      → verify mac key now (record {
        method = method;
        uri = uri;
        authorization = authorize mac key method uri node (pos t) nonce_bytes;
      })
        ≡ (if is_skewed now (pos t) then none else some node)
  unfolding verify check_scheme check_credential authorize
  verify-authorize now field named fresh fits g =
      rw
        (cut_scheme (
          node
          ++ (codes ":"
              ++ (format_int (pos t)
                  ++ (codes ":" ++ (hex_encode nonce_bytes ++ (codes ":" ++ signature)))))))
        (rw (known, four_fields field g) (checked now named fresh fits))
