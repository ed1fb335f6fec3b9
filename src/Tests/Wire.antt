-- ===== src/Tests/Wire.antt =====
-- A toy cipher and a feed of three entries.
use native.Mathlib.Decide.{ℕ_discrete}
use distributed_configs_fs.Base.{
  ℕ, ◌<◌, ◌≡◌, refl, arith, false, ltb, pos, Text, [], ◌∷◌, codes, length, Option, none, some,
  text_eq, int_eq,
}
use distributed_configs_fs.Core.Error.{ok}
use distributed_configs_fs.Core.Entry.{zero_meta, hash_content, hex_encode, hex_digit}
use distributed_configs_fs.Store.State.{EntryRow, Db, empty_db, row_of}
use distributed_configs_fs.Store.Table.{take_row, select, order_by, insert_by}
use distributed_configs_fs.Store.Table.Keys.{UniqueKeys}
use distributed_configs_fs.Store.Ops.{feed}
use distributed_configs_fs.Transport.Auth.{Request}
use distributed_configs_fs.Transport.Envelope.{Gcm, IsAead, seal, unseal}
use distributed_configs_fs.Transport.Client.{Client, HttpResponse, blob, get}
use distributed_configs_fs.Transport.Client.Verified.{unseal-seal, blob-verified, blob_of_sealed}
use distributed_configs_fs.Transport.Server.Paging.{pull_pages, pull_pages_complete}
use distributed_configs_fs.Tests.Node.{sum}

-- Puts a byte in front, and takes it off.
abbrev opened : Text → Option Text
opened [] = none
opened (b ∷ text) = some text

abbrev toy : Gcm
toy = record { encrypt = λ key nonce plain. 1 ∷ plain; decrypt = λ key nonce text. opened text }

toy-IsAead : IsAead toy
toy-IsAead = record { decrypt-encrypt = λ key nonce plain h. refl }

abbrev nonce : Text
nonce = codes "0123456789ab"

unseal-seal_example :
    unseal toy (codes "key") (seal toy (codes "key") nonce (codes "body")) ≡ ok (codes "body")
unseal-seal_example = unseal-seal toy (codes "key") nonce (codes "body") toy-IsAead refl

abbrev client : Client
client = record {
  mac = λ key message. codes "tag";
  gcm = toy;
  sum256 = sum;
  api_key = codes "api";
  blob_key = codes "key";
  node = codes "alpha";
  max_body = 1000;
}

abbrev http : Text → Request → Option HttpResponse
http addr r = some (record { status = 200; payload = seal toy (codes "key") nonce (codes "x") })

small : ltb client.max_body (length (seal toy (codes "key") nonce (codes "x"))) ≡ false
unfolding seal
small = refl

blob_of_sealed_example :
    blob client http (pos 1) (codes "r") (codes "addr") (hash_content sum (codes "x"))
    ≡ ok (codes "x")
blob_of_sealed_example =
    blob_of_sealed client http (pos 1) (codes "r") (codes "addr") (hash_content sum (codes "x"))
      nonce (codes "x") toy-IsAead refl refl small refl

believed :
    blob client http (pos 1) (codes "r") (codes "addr") (hash_content sum (codes "x"))
    ≡ ok (codes "x")
unfolding blob get unseal seal hash_content hex_encode hex_digit text_eq ℕ_discrete
believed = refl

blob-verified_example : hash_content client.sum256 (codes "x") ≡ hash_content sum (codes "x")
blob-verified_example =
    blob-verified client http (pos 1) (codes "r") (codes "addr") (hash_content sum (codes "x"))
      {content = codes "x"} believed

abbrev row : ℕ → Text → EntryRow
row n path = record (row_of (record zero_meta { path = path })) { seq = pos n }

-- Three rows, stored in another order than that of their positions.
abbrev three : Db
three = record empty_db {
  entries = row 3 (codes "c") ∷ row 1 (codes "a") ∷ row 2 (codes "b") ∷ [];
  seq = 3;
}

unique : UniqueKeys (λ (r : EntryRow). r.seq) three.entries
unfolding take_row row_of int_eq ℕ_discrete
unique = (refl, (refl, (refl, tt)))

few : length (feed (pos 0) three) < 4
unfolding feed order_by insert_by select
few = omega arith

pull_pages_complete_example : pull_pages 4 2 (pos 0) three ≡ some (feed (pos 0) three)
pull_pages_complete_example = pull_pages_complete 4 2 (pos 0) three refl unique (omega arith) few
