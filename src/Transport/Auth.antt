-- ===== src/Transport/Auth.antt =====
-- internal/transport/auth.go: the signature on a request. `mac` stands for HMAC-SHA256 under a key,
-- in base64.
pub mod Credential
use distributed_configs_fs.Base.{
  ℕ, ◌*◌, ◌||◌, ltz, ℤ, pos, ◌-ℤ◌, Text, List, [], ◌∷◌, ◌++◌, Option, none, some, ◌==◌, nat_eq,
  text_eq, if◌then◌else◌, codes,
}
use distributed_configs_fs.Core.Paths.{cons_head, format_int}
use distributed_configs_fs.Core.Entry.{hex_encode}
use distributed_configs_fs.Transport.Number.{parse_int}

abbrev pub auth_scheme : Text
auth_scheme = codes "DCFS1"

-- Five minutes, in nanoseconds.
abbrev pub max_skew : ℤ
max_skew = pos (5 * 60 * 1000000000)

abbrev pub newline : Text
newline = codes "\n"

abbrev pub colon : ℕ
colon = b':'

-- strings.Split(s, ":")
unfoldable pub split_colon : Text → List Text
unfolding cons_head
split_colon [] = [] ∷ []
split_colon (c ∷ s) = if c == colon then [] ∷ split_colon s else cons_head c (split_colon s)

abbrev before_rest : ℕ → Option (Text × Text) → Option (Text × Text)
before_rest c none = none
before_rest c (some (before, rest)) = some (c ∷ before, rest)

-- strings.Cut(s, " ")
unfoldable pub cut_space : Text → Option (Text × Text)
cut_space [] = none
cut_space (c ∷ s) = if c == b' ' then some ([], s) else before_rest c (cut_space s)

pub record Request : Type 0 where
  pub method : Text
  -- the path with the query
  pub uri : Text
  pub authorization : Text

module _ (mac : Text → Text → Text) (key : Text) where
  unfoldable pub sign : Text → Text → Text → ℤ → Text → Text
  sign method uri node unix_nano nonce = mac key (
      method
      ++ (newline
          ++ (uri
              ++ (newline ++ (node ++ (newline ++ (format_int unix_nano ++ (newline ++ nonce))))))))

  -- `authorize`, at the random bytes and the time that it reads.
  unfoldable pub authorize : Text → Text → Text → ℤ → Text → Text
  unfolding sign
  authorize method uri node ts nonce_bytes =
      let nonce = hex_encode nonce_bytes in
      auth_scheme
      ++ (codes " "
          ++ (node
              ++ (codes ":"
                  ++ (format_int ts
                      ++ (codes ":" ++ (nonce ++ (codes ":" ++ sign method uri node ts nonce)))))))

  unfoldable pub check_time : ℤ → Request → Text → Text → Text → ℤ → Option Text
  unfolding sign
  check_time now r node nonce got_sig ts =
      let skew = now -ℤ ts in
      if ltz max_skew skew || ltz skew (pos 0 -ℤ max_skew)
      then none
      else if sign r.method r.uri node ts nonce == got_sig
      then some node
      else none

  unfoldable pub check_parts : ℤ → Request → Text → Text → Text → Text → Option Text
  unfolding check_time
  check_parts now r node ts_raw nonce got_sig =
      if node == [] || nonce == [] then none else (elim (parse_int ts_raw) [
        | none ↦ none
        | some ts ↦ check_time now r node nonce got_sig ts
      ])

  unfoldable pub check_credential : ℤ → Request → List Text → Option Text
  unfolding check_parts
  check_credential now r (node ∷ ts_raw ∷ nonce ∷ got_sig ∷ []) =
      check_parts now r node ts_raw nonce got_sig
  check_credential now r _ = none

  unfoldable pub check_scheme : ℤ → Request → Option (Text × Text) → Option Text
  unfolding check_credential split_colon
  check_scheme now r none = none
  check_scheme now r (some (scheme, rest)) =
      if scheme == auth_scheme then check_credential now r (split_colon rest) else none

  -- `verify`: the node that signed the request, or `none` for ErrUnauthorized.
  unfoldable pub verify : ℤ → Request → Option Text
  unfolding check_scheme cut_space
  verify now r = check_scheme now r (cut_space r.authorization)
