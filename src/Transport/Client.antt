-- ===== src/Transport/Client.antt =====
-- internal/transport/client.go: one signed request, and the check of a blob against its hash. The
-- network is a parameter: the response to a request, if one arrives.
pub mod Verified
use distributed_configs_fs.Base.{
  ℕ, suc, ◌+◌, Bool, true, false, not, ltb, ℤ, Text, List, [], ◌∷◌, ◌++◌, length, take, ◌==◌,
  nat_eq, text_eq, if◌then◌else◌, codes, Option, none, some,
}
use distributed_configs_fs.Core.Error.{
  Error, Result, ok, err, network, invalid, peer_not_found, ◌>>=◌, ◌>>◌, guard,
}
use distributed_configs_fs.Core.Entry.{hash_content}
use distributed_configs_fs.Core.Paths.{format_int}
use distributed_configs_fs.Transport.Auth.{Request, authorize}
use distributed_configs_fs.Transport.Envelope.{Gcm, unseal}

pub record HttpResponse : Type 0 where
  pub status : ℕ
  pub payload : Text

pub record Client : Type 0 where
  pub mac : Text → Text → Text
  pub gcm : Gcm
  pub sum256 : Text → Text
  pub api_key : Text
  pub blob_key : Text
  pub node : Text
  pub max_body : ℕ

module _ (c : Client) (http : Text → Request → Option HttpResponse) where
  check_response : Option HttpResponse → Result Text
  check_response none = err network
  check_response (some resp) = do
    guard (not (resp.status == 404)) peer_not_found
    guard (resp.status == 200) network
    let sealed_body = take (c.max_body + 1) resp.payload
    guard (not (ltb c.max_body (length sealed_body))) invalid
    unseal c.gcm c.blob_key sealed_body

  -- `get`, at the time and the random bytes that it reads.
  unfoldable pub get : ℤ → Text → Text → Text → Result Text
  unfolding check_response authorize unseal
  get now nonce_bytes addr path = check_response (
      http addr (record {
        method = codes "GET";
        uri = path;
        authorization = authorize c.mac c.api_key (codes "GET") path c.node now nonce_bytes;
      }))

  unfoldable pub blob : ℤ → Text → Text → Text → Result Text
  unfolding get
  blob now nonce_bytes addr hash = do
    content ← get now nonce_bytes addr (codes "/v1/blob/" ++ hash)
    guard (hash_content c.sum256 content == hash) invalid
    ok content

  -- The path of a manifest request.
  unfoldable pub manifest_path : ℤ → Text
  manifest_path since = codes "/v1/manifest?since=" ++ format_int since
