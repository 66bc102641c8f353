-- ===== src/Canonical/Tests.antt =====
-- The encoder at concrete messages.
use grantd.Base.{
  ◌≡◌, ◌↔◌, refl, true, List, [], ◌∷◌, ◌++◌, Bytes, codes, ok, arith, All, map, some, eq_bytes,
}
use grantd.Std.BigEndian.{be32, be64}
use grantd.Std.Utf8.{valid_string, contains_nul}
use grantd.Canonical.{
  encode_fields, encode_field, encode_value, write_lp, Field, Fits, string_field, u64_field,
  bytes_field, bool_field, encode, item,
}
use grantd.Canonical.Decode.{decode}
use grantd.Canonical.Format.{IsMessage, format, encode_iff}
use grantd.Canonical.RoundTrip.{decode-encode}

abbrev sample_fields : List Field
sample_fields =
    string_field (codes "a") (codes "xy")
    ∷ u64_field (codes "n") 258
    ∷ bytes_field (codes "b") (0 ∷ 255 ∷ [])
    ∷ bool_field (codes "t") true
    ∷ []

abbrev out : Bytes
out =
    0 ∷ 0 ∷ 0 ∷ 1 ∷ b'c' ∷ 0 ∷ 0 ∷ 0 ∷ 4 ∷ 0 ∷ 0 ∷ 0 ∷ 1 ∷ b'a' ∷ 1 ∷ 0 ∷ 0 ∷ 0 ∷ 2 ∷ b'x' ∷ b'y'
    ∷ 0 ∷ 0 ∷ 0 ∷ 1 ∷ b'n' ∷ 2 ∷ 0 ∷ 0 ∷ 0 ∷ 8 ∷ 0 ∷ 0 ∷ 0 ∷ 0 ∷ 0 ∷ 0 ∷ 1 ∷ 2 ∷ 0 ∷ 0 ∷ 0 ∷ 1
    ∷ b'b' ∷ 3 ∷ 0 ∷ 0 ∷ 0 ∷ 2 ∷ 0 ∷ 255 ∷ 0 ∷ 0 ∷ 0 ∷ 1 ∷ b't' ∷ 4 ∷ 0 ∷ 0 ∷ 0 ∷ 1 ∷ 1 ∷ []

message_bytes : encode (codes "c") sample_fields ≡ ok out
unfolding encode encode_fields encode_field encode_value write_lp be32 be64 valid_string
    contains_nul eq_bytes
message_bytes = refl

sample_fit : All Fits sample_fields
sample_fit = omega arith

decode-encode_example : decode (out ++ 7 ∷ []) ≡ some (codes "c", map item sample_fields, 7 ∷ [])
decode-encode_example =
    decode-encode (codes "c") sample_fields out (7 ∷ []) (omega arith) (omega arith) sample_fit
      message_bytes

encode_iff_example :
    (encode (codes "c") sample_fields ≡ ok out)
    ↔ (IsMessage (codes "c") sample_fields × (out ≡ format (codes "c") sample_fields))
encode_iff_example = encode_iff (codes "c") sample_fields out
