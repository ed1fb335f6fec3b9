-- ===== src/Core/Entry.antt =====
-- internal/core/entry.go and the types of internal/core/hlc.go: an entry of the tree, its version,
-- and the comparison that decides which of two writes wins.
use distributed_configs_fs.Base.{
  ℕ, ◌==◌, Bool, false, not, ◌&&◌, ◌||◌, ℤ, pos, negsuc, ltz, ltb, Text, ltt, int_eq, nat_eq,
  text_eq, if◌then◌else◌, [], ◌∷◌, ◌/◌, ◌%◌, ◌+◌, ◌-◌,
}

-- `Kind` is a uint8: a peer can send any of its values.
abbrev pub Kind : Type 0
Kind = ℕ

abbrev pub kind_file : Kind
kind_file = 1

abbrev pub kind_dir : Kind
kind_dir = 2

unfoldable pub valid : Kind → Bool
valid k = k == kind_file || k == kind_dir

pub record Timestamp : Type 0 where
  pub wall : ℤ
  pub counter : ℕ

-- -1, 0 or 1
unfoldable pub compare_time : Timestamp → Timestamp → ℤ
compare_time t o =
    if ltz t.wall o.wall
    then negsuc 0
    else if ltz o.wall t.wall
    then pos 1
    else if ltb t.counter o.counter
    then negsuc 0
    else if ltb o.counter t.counter
    then pos 1
    else pos 0

pub record Version : Type 0 where
  pub hlc : Timestamp
  pub origin : Text

-- `v` wins a last-writer-wins comparison against `o`.
unfoldable pub after : Version → Version → Bool
unfolding compare_time
after v o =
    let c = compare_time v.hlc o.hlc in
    if not (c == pos 0) then ltz (pos 0) c else ltt o.origin v.origin

unfoldable pub equal : Version → Version → Bool
unfolding compare_time
equal v o = compare_time v.hlc o.hlc == pos 0 && v.origin == o.origin

pub record Meta : Type 0 where
  pub path : Text
  pub kind : Kind
  pub hash : Text
  pub prev_hash : Text
  pub size : ℤ
  pub mode : ℕ
  pub uid : ℕ
  pub gid : ℕ
  pub version : Version
  pub deleted : Bool
  pub deleted_at : ℤ
  pub seq : ℤ

abbrev pub zero_time : Timestamp
zero_time = record { wall = pos 0; counter = 0 }

-- `core.Meta{}`
abbrev pub zero_meta : Meta
zero_meta = record {
  path = [];
  kind = 0;
  hash = [];
  prev_hash = [];
  size = pos 0;
  mode = 0;
  uid = 0;
  gid = 0;
  version = record { hlc = zero_time; origin = [] };
  deleted = false;
  deleted_at = pos 0;
  seq = pos 0;
}

-- One lowercase hexadecimal digit, as encoding/hex writes it.
unfoldable pub hex_digit : ℕ → ℕ
hex_digit d = if ltb d 10 then b'0' + d else b'a' + (d - 10)

unfoldable pub hex_encode : Text → Text
unfolding hex_digit
hex_encode [] = []
hex_encode (b ∷ bs) = hex_digit (b / 16) ∷ hex_digit (b % 16) ∷ hex_encode bs

-- The address of a blob. `sum256` stands for crypto/sha256.Sum256.
unfoldable pub hash_content : (Text → Text) → Text → Text
unfolding hex_encode
hash_content sum256 content = hex_encode (sum256 content)
