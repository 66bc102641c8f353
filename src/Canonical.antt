-- ===== src/Canonical.antt =====
-- go/internal/canonical/canonical.go: Canonical Binary Encoding. `Encode` writes into a
-- `bytes.Buffer`; here each writer takes the bytes that are in the buffer and returns those with its
-- own behind them. An error of the source that wraps a sentinel with the field's name or index in the
-- text is the sentinel.
pub mod Decode
pub mod Format
pub mod RoundTrip
mod Tests
use grantd.Base.{
  ℕ, ◌-◌, ◌%◌, ◌^◌, ◌<◌, Bool, not, List, [], ◌∷◌, ◌++◌, Bytes, Result, ok, err, ◌>>=◌, length, ltb,
  ◌==◌, eq_bytes, if◌then◌else◌,
}
use grantd.Std.BigEndian.{be32, be64}
use grantd.Std.Utf8.{valid_string, contains_nul}

pub data Error : Type 0 where
  invalid_utf8 nul_in_string u64_range empty_name empty_ctx : Error
  unknown_tag : ℕ → Error

abbrev pub tag_string : ℕ
tag_string = 0x01

abbrev pub tag_u64 : ℕ
tag_u64 = 0x02

abbrev pub tag_bytes : ℕ
tag_bytes = 0x03

abbrev pub tag_bool : ℕ
tag_bool = 0x04

abbrev pub max_u64 : ℕ
max_u64 = 2 ^ 63 - 1

pub record Field : Type 0 where
  pub name : Bytes
  pub tag : ℕ
  pub str : Bytes
  pub u64 : ℕ
  pub bytes : Bytes
  pub bool : Bool

-- S, U, B and Bl of the source: the fields that a constructor does not name are zero values.
abbrev pub string_field : Bytes → Bytes → Field
string_field name v = record {
  name = name;
  tag = tag_string;
  str = v;
  u64 = 0;
  bytes = [];
  bool = Bool.false;
}

abbrev pub u64_field : Bytes → ℕ → Field
u64_field name v = record {
  name = name;
  tag = tag_u64;
  str = [];
  u64 = v;
  bytes = [];
  bool = Bool.false;
}

abbrev pub bytes_field : Bytes → Bytes → Field
bytes_field name v = record {
  name = name;
  tag = tag_bytes;
  str = [];
  u64 = 0;
  bytes = v;
  bool = Bool.false;
}

abbrev pub bool_field : Bytes → Bool → Field
bool_field name v = record { name = name; tag = tag_bool; str = []; u64 = 0; bytes = []; bool = v }

-- `uint32(len(b))` keeps the low 32 bits of the length.
unfoldable pub write_lp : Bytes → Bytes → Bytes
write_lp buf b = (buf ++ be32 (length b % 2 ^ 32)) ++ b

unfoldable pub encode_value : Bytes → Field → Result Error Bytes
encode_value buf f =
    if f.tag == tag_string
    then (if not (valid_string f.str)
        then err invalid_utf8
        else if contains_nul f.str
        then err nul_in_string
        else ok (write_lp buf f.str))
    else if f.tag == tag_u64
    then (if ltb max_u64 f.u64 then err u64_range else ok (write_lp buf (be64 f.u64)))
    else if f.tag == tag_bytes
    then ok (write_lp buf f.bytes)
    else if f.tag == tag_bool
    then ok (write_lp buf ((if f.bool then 0x01 else 0x00) ∷ []))
    else err (unknown_tag f.tag)

unfoldable pub encode_field : Bytes → Field → Result Error Bytes
encode_field buf f =
    if eq_bytes f.name []
    then err empty_name
    else if not (valid_string f.name)
    then err invalid_utf8
    else encode_value (write_lp buf f.name ++ f.tag ∷ []) f

unfoldable pub encode_fields : Bytes → List Field → Result Error Bytes
encode_fields buf [] = ok buf
encode_fields buf (f ∷ fs) = do buf' ← encode_field buf f; encode_fields buf' fs

unfoldable pub encode : Bytes → List Field → Result Error Bytes
encode context fields =
    if eq_bytes context []
    then err empty_ctx
    else if not (valid_string context)
    then err invalid_utf8
    else encode_fields (write_lp [] context ++ be32 (length fields % 2 ^ 32)) fields

-- What a field says: its name, and the value that its tag selects. `encode` refuses any other tag.
pub data Value : Type 0 where
  string : Bytes → Value
  word : ℕ → Value
  blob : Bytes → Value
  flag : Bool → Value

unfoldable pub value : Field → Value
value f =
    if f.tag == tag_string
    then string f.str
    else if f.tag == tag_u64
    then word f.u64
    else if f.tag == tag_bytes
    then blob f.bytes
    else flag f.bool

pub record Item : Type 0 where
  pub name : Bytes
  pub content : Value

unfoldable pub item : Field → Item
unfolding value
item f = record { name = f.name; content = value f }

-- Lengths that a 32-bit count can hold.
pub record Fits (f : Field) : Type 0 where
  pub name_fits : length f.name < 2 ^ 32
  pub str_fits : length f.str < 2 ^ 32
  pub bytes_fits : length f.bytes < 2 ^ 32
