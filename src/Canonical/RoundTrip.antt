-- ===== src/Canonical/RoundTrip.antt =====
-- What `encode` writes, `decode` reads back. So the encoding is injective, and two messages under
-- different contexts are never the same bytes.
use grantd.Base.{
  ◌%◌, ◌^◌, ◌<◌, ◌≡◌, refl, some, List, [], ◌∷◌, ◌++◌, map, append_assoc, Bytes, ok, >>=-eq-ok,
  arith, All, length,
}
use grantd.Std.BigEndian.{read_be32-be32, read_be64-be64, length-be64}
use grantd.Canonical.{Field, Fits, encode_value, encode_field, encode_fields, encode, value, item}
use grantd.Canonical.Decode.{
  take_exactly, read_lp, read_flag, read_word, read_value, read_tag, read_item, read_items, decode,
}
use grantd.Canonical.Format.{
  lp, payload, field_bytes, fields_bytes, write_lp-lp, encode_field-value, encode_fields-bytes,
  encode-fields,
}

take_exactly-append : (b rest : Bytes) → take_exactly (length b) (b ++ rest) ≡ some (b, rest)
unfolding take_exactly
take_exactly-append [] rest = refl
take_exactly-append (x ∷ b) rest = rw (take_exactly-append b rest)

read_lp-lp : (b rest : Bytes) → length b < 2 ^ 32 → read_lp (lp b ++ rest) ≡ some (b, rest)
unfolding read_lp lp
read_lp-lp b rest h =
    rw (append_assoc, read_be32-be32 (length b % 2 ^ 32) (b ++ rest) (omega arith))
      (let e : length b % 2 ^ 32 ≡ length b = omega arith in rw e (take_exactly-append b rest))

read_value-payload :
    (buf out : Bytes) (f : Field)
    → encode_value buf f ≡ ok out
    → read_value f.tag (payload f) ≡ some (value f)
unfolding encode_value payload value read_value read_word read_flag
read_value-payload buf out f h = ground (arith, read_be64-be64 f.u64)

length-payload : (f : Field) → Fits f → length (payload f) < 2 ^ 32
unfolding payload
length-payload f h = ground (arith, length-be64 f.u64)

read_item-field :
    (buf out rest : Bytes) (f : Field)
    → Fits f
    → encode_field buf f ≡ ok out
    → read_item (field_bytes f ++ rest) ≡ some (item f, rest)
unfolding read_item read_tag field_bytes item
read_item-field buf out rest f h e =
    rw
      (
        append_assoc,
        read_lp-lp f.name _ h.name_fits,
        read_lp-lp (payload f) rest (length-payload f h),
        read_value-payload _ out f (encode_field-value buf out f e),
      )
      refl

read_items-fields :
    (buf out rest : Bytes) (fs : List Field)
    → All Fits fs
    → encode_fields buf fs ≡ ok out
    → read_items (length fs) (fields_bytes fs ++ rest) ≡ some (map item fs, rest)
unfolding encode_fields fields_bytes read_items
read_items-fields buf out rest [] h e = refl
read_items-fields buf out rest (f ∷ fs) h e =
    let (buf', e0, e1) = >>=-eq-ok (encode_field buf f) _ e in
    rw
      (
        append_assoc,
        read_item-field buf buf' (fields_bytes fs ++ rest) f h.0 e0,
        read_items-fields buf' out rest fs h.1 e1,
      )
      refl

-- When a message whose lengths fit in 32 bits is encoded, the reader takes its context and the name
-- and value of each of its fields, in order, off the bytes, whatever bytes follow them.
pub decode-encode :
    (context : Bytes) (fs : List Field) (out rest : Bytes)
    → length context < 2 ^ 32
    → length fs < 2 ^ 32
    → All Fits fs
    → encode context fs ≡ ok out
    → decode (out ++ rest) ≡ some (context, map item fs, rest)
unfolding decode
decode-encode context fs out rest hc hn hf h =
    let e = encode-fields context out fs h in
    let b = encode_fields-bytes _ out fs e in
    rw
      (
        b,
        write_lp-lp,
        append_assoc,
        append_assoc,
        append_assoc,
        read_lp-lp context _ hc,
        read_be32-be32 (length fs % 2 ^ 32) _ (omega arith),
      )
      (let n : length fs % 2 ^ 32 ≡ length fs = omega arith in
        rw (n, read_items-fields _ out rest fs hf e) refl)

-- Two messages whose lengths fit in 32 bits and whose encodings are the same bytes have the same
-- context and the same names and values of fields, in the same order.
pub encode-injective :
    (context context' : Bytes) (fs fs' : List Field) (out : Bytes)
    → length context < 2 ^ 32
    → length fs < 2 ^ 32
    → All Fits fs
    → length context' < 2 ^ 32
    → length fs' < 2 ^ 32
    → All Fits fs'
    → encode context fs ≡ ok out
    → encode context' fs' ≡ ok out
    → (context ≡ context') × (map item fs ≡ map item fs')
encode-injective context context' fs fs' out hc hn hf hc' hn' hf' e e' =
    let d = decode-encode context fs out [] hc hn hf e in
    let d' = decode-encode context' fs' out [] hc' hn' hf' e' in (cc (d, d'), cc (d, d'))
