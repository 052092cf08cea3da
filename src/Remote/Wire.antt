-- ===== src/Remote/Wire.antt =====
-- remote/wire.go: the data frames. A stream's UUID is its 16 bytes, a byte is a number below 256.
pub mod Frames
use acpp.Prelude.{
  Bytes, ℕ, ◌+◌, ◌*◌, ◌/◌, ◌%◌, ltb, List, [], ◌∷◌, ◌++◌, if◌then◌else◌, length, take, drop,
  get_elem?, Option, none, some, Result, ok, err,
}

pub record Frame : Type 0 where
  pub id : Bytes
  pub kind : ℕ
  pub off : ℕ
  pub payload : Bytes

pub data Error : Type 0 where
  short_data_frame : Error

-- 16 + 8 + 1
abbrev pub data_header_len : ℕ
data_header_len = 25

-- `binary.BigEndian.PutUint64`
unfoldable pub put_uint64 : ℕ → Bytes
put_uint64 v =
    (v / 72057594037927936 % 256)
    ∷ (v / 281474976710656 % 256)
    ∷ (v / 1099511627776 % 256)
    ∷ (v / 4294967296 % 256)
    ∷ (v / 16777216 % 256)
    ∷ (v / 65536 % 256)
    ∷ (v / 256 % 256)
    ∷ (v % 256)
    ∷ []

-- `binary.BigEndian.Uint64`, with the bytes before as `acc`.
unfoldable pub uint64_from : ℕ → Bytes → ℕ
uint64_from acc [] = acc
uint64_from acc (b ∷ bs) = uint64_from (acc * 256 + b) bs

unfoldable pub encode_data : Frame → Bytes
unfolding put_uint64
encode_data f = f.id ++ (put_uint64 f.off ++ f.kind ∷ f.payload)

unfoldable pub byte_or_zero : Option ℕ → ℕ
byte_or_zero none = 0
byte_or_zero (some b) = b

unfoldable pub parts_of : Bytes → Frame
unfolding uint64_from byte_or_zero
parts_of b = record {
  id = take 16 b;
  kind = byte_or_zero (get_elem? b 24);
  off = uint64_from 0 (take 8 (drop 16 b));
  payload = drop data_header_len b;
}

unfoldable pub decode_data : Bytes → Result Error Frame
unfolding parts_of
decode_data b = if ltb (length b) data_header_len then err short_data_frame else ok (parts_of b)
