-- ===== src/Transport/Client/Verified.antt =====
-- internal/transport/client.go and envelope.go: what a client may believe of an answer.
use native.Mathlib.Decide.{ℕ_discrete}
use distributed_configs_fs.Base.{
  ℕ, ◌+◌, ◌≡◌, refl, ap, sym, inl, inr, false, ltb, ℤ, Text, [], ◌∷◌, ◌++◌, length, take, drop,
  take_all, length-append, Option, some, arith, codes,
}
use distributed_configs_fs.Core.Error.{Result, ok, Result-cases}
use distributed_configs_fs.Core.Entry.{hash_content}
use distributed_configs_fs.Syncer.State.{DigestResponse, ManifestResponse}
use distributed_configs_fs.Syncer.Pull.Servable.{IsVerified}
use distributed_configs_fs.Transport.Auth.{Request, authorize}
use distributed_configs_fs.Transport.Envelope.{Gcm, IsAead, nonce_size, seal, unseal}
use distributed_configs_fs.Transport.Client.{HttpResponse, Client, get, blob}

take_prefix : (xs ys : Text) → take (length xs) (xs ++ ys) ≡ xs
take_prefix [] ys = refl
take_prefix (x ∷ xs) ys = ap (λ l. x ∷ l) (take_prefix xs ys)

drop_prefix : (xs ys : Text) → drop (length xs) (xs ++ ys) ≡ ys
drop_prefix [] ys = refl
drop_prefix (x ∷ xs) ys = drop_prefix xs ys

-- What has been sealed under a key, at a nonce of twelve bytes, opens under that key to the same
-- bytes.
pub unseal-seal :
    (gcm : Gcm) (key nonce plain : Text)
    → IsAead gcm
    → length nonce ≡ nonce_size
    → unseal gcm key (seal gcm key nonce plain) ≡ ok plain
unfolding unseal seal
unseal-seal gcm key nonce plain a h =
    let at_nonce : take nonce_size (seal gcm key nonce plain) ≡ nonce =
      rw (sym h) (take_prefix nonce _) in
    let rest : drop nonce_size (seal gcm key nonce plain) ≡ gcm.encrypt key nonce plain =
      rw (sym h) (drop_prefix nonce _) in
    let long : ltb (length (seal gcm key nonce plain)) nonce_size ≡ false =
      ground (arith, length-append nonce (gcm.encrypt key nonce plain)) in
    rw (long, at_nonce, rest, a.decrypt-encrypt key nonce plain h) refl

module _ (c : Client) (http : Text → Request → Option HttpResponse) (now : ℤ)
    (nonce_bytes addr hash : Text) where
  -- Whatever the network answers, a blob that the client hands on has the hash that was asked for.
  pub blob-verified :
      {content : Text}
      → blob c http now nonce_bytes addr hash ≡ ok content
      → hash_content c.sum256 content ≡ hash
  unfolding blob
  blob-verified h =
      elim (Result-cases (get c http now nonce_bytes addr (codes "/v1/blob/" ++ hash))) [
        | inl (body, e) ↦ ground arith
        | inr (x, e) ↦ cc (rw e at h)
      ]

  get_of_sealed :
      (path nonce content : Text)
      → IsAead c.gcm
      → length nonce ≡ nonce_size
      → http addr (record {
        method = codes "GET";
        uri = path;
        authorization = authorize c.mac c.api_key (codes "GET") path c.node now nonce_bytes;
      })
        ≡ some (record { status = 200; payload = seal c.gcm c.blob_key nonce content })
      → ltb c.max_body (length (seal c.gcm c.blob_key nonce content)) ≡ false
      → get c http now nonce_bytes addr path ≡ ok content
  unfolding get ℕ_discrete
  get_of_sealed path nonce content a n answer small =
      let fits : take (c.max_body + 1) (seal c.gcm c.blob_key nonce content)
          ≡ seal c.gcm c.blob_key nonce content =
        take_all (c.max_body + 1) _ (ground arith) in
      rw (answer, fits, small) (unseal-seal c.gcm c.blob_key nonce content a n)

  -- If a peer answers a request for a blob with 200 and sealed bytes, in a body within the size
  -- limit, and the bytes have the hash that was asked for, the client hands on these bytes.
  pub blob_of_sealed :
      (nonce content : Text)
      → IsAead c.gcm
      → length nonce ≡ nonce_size
      → (let path = codes "/v1/blob/" ++ hash in
          http addr (record {
            method = codes "GET";
            uri = path;
            authorization = authorize c.mac c.api_key (codes "GET") path c.node now nonce_bytes;
          })
          ≡ some (record { status = 200; payload = seal c.gcm c.blob_key nonce content }))
      → ltb c.max_body (length (seal c.gcm c.blob_key nonce content)) ≡ false
      → hash_content c.sum256 content ≡ hash
      → blob c http now nonce_bytes addr hash ≡ ok content
  unfolding blob
  blob_of_sealed nonce content a n answer small h =
      let got : get c http now nonce_bytes addr (codes "/v1/blob/" ++ hash) ≡ ok content =
        get_of_sealed _ nonce content a n answer small in
      ground arith

-- The blobs of a client have been checked, on whatever network, clock and random bytes: what the
-- syncer relies on.
pub client-IsVerified :
    (c : Client) (http : ℕ → Text → Request → Option HttpResponse) (now : ℕ → ℤ)
    (nonce_bytes : ℕ → Text) (digests : ℕ → Text → Result DigestResponse)
    (manifests : ℕ → Text → ℤ → Result ManifestResponse)
    → IsVerified c.sum256 (record {
      digest = digests;
      manifest = manifests;
      blob = λ n. blob c (http n) (now n) (nonce_bytes n);
    })
client-IsVerified c http now nonce_bytes digests manifests n addr hash content h =
    blob-verified c (http n) (now n) (nonce_bytes n) addr hash h
