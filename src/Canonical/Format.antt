-- ===== src/Canonical/Format.antt =====
-- The format of docs/whitepaper.md §5.1, written apart from the encoder, and what the encoder
-- accepts.
use grantd.Base.{
  ◌%◌, ◌^◌, ◌<◌, ◌≤◌, ◌≡◌, ◌↔◌, sym, ◌≢◌, refl, ap, ◌∙◌, true, false, List, [], ◌∷◌, ◌++◌,
  append-nil, append_assoc, Bytes, ok, >>=-eq-ok, arith, All, length, ◌==◌, eq_bytes, eq_bytes_iff,
  if◌then◌else◌,
}
use grantd.Std.BigEndian.{be32, be64}
use grantd.Std.Utf8.{valid_string, contains_nul}
use grantd.Canonical.{
  Field, Value, string, word, blob, flag, write_lp, encode_value, encode_field, encode_fields,
  encode, value,
}

unfoldable pub lp : Bytes → Bytes
lp b = be32 (length b % 2 ^ 32) ++ b

-- The bytes of a value behind its tag, before their length is written.
unfoldable pub payload : Field → Bytes
payload f =
    if f.tag == 1
    then f.str
    else if f.tag == 2
    then be64 f.u64
    else if f.tag == 3
    then f.bytes
    else (if f.bool then 0x01 else 0x00) ∷ []

unfoldable pub field_bytes : Field → Bytes
field_bytes f = lp f.name ++ (f.tag ∷ lp (payload f))

unfoldable pub fields_bytes : List Field → Bytes
fields_bytes [] = []
fields_bytes (f ∷ fs) = field_bytes f ++ fields_bytes fs

-- LP(context) || u32be(number of fields) || LP(name) || tag || LP(value) for each field.
unfoldable pub format : Bytes → List Field → Bytes
format context fs = lp context ++ be32 (length fs % 2 ^ 32) ++ fields_bytes fs

abbrev pub CanEncode : Value → Type 0
CanEncode (string s) = (valid_string s ≡ true) × (contains_nul s ≡ false)
CanEncode (word n) = n < 2 ^ 63
CanEncode (blob b) = Unit {0}
CanEncode (flag b) = Unit {0}

pub record IsEncodable (f : Field) : Type 0 where
  pub named : f.name ≢ []
  pub utf8_name : valid_string f.name ≡ true
  pub least_tag : 1 ≤ f.tag
  pub greatest_tag : f.tag ≤ 4
  pub content : CanEncode (value f)

pub record IsMessage (context : Bytes) (fs : List Field) : Type 0 where
  pub in_context : context ≢ []
  pub utf8_context : valid_string context ≡ true
  pub fields : All IsEncodable fs

pub write_lp-lp : (buf b : Bytes) → write_lp buf b ≡ buf ++ lp b
unfolding write_lp lp
write_lp-lp buf b = append_assoc buf _ b

pub encode_value-payload :
    (buf out : Bytes) (f : Field) → encode_value buf f ≡ ok out → out ≡ write_lp buf (payload f)
unfolding encode_value payload
encode_value-payload buf out f h = ground arith

pub encode_field-value :
    (buf out : Bytes) (f : Field)
    → encode_field buf f ≡ ok out
    → encode_value (write_lp buf f.name ++ f.tag ∷ []) f ≡ ok out
unfolding encode_field
encode_field-value buf out f h = ground arith

join_field :
    (buf : Bytes) (f : Field)
    → write_lp (write_lp buf f.name ++ f.tag ∷ []) (payload f) ≡ buf ++ field_bytes f
unfolding field_bytes
join_field buf f = simp (write_lp-lp, append_assoc)

encode_field-bytes :
    (buf out : Bytes) (f : Field) → encode_field buf f ≡ ok out → out ≡ buf ++ field_bytes f
encode_field-bytes buf out f h =
    encode_value-payload _ out f (encode_field-value buf out f h) ∙ join_field buf f

pub encode_fields-bytes :
    (buf out : Bytes) (fs : List Field)
    → encode_fields buf fs ≡ ok out
    → out ≡ buf ++ fields_bytes fs
unfolding encode_fields fields_bytes
encode_fields-bytes buf out [] h = rw append-nil (cc)
encode_fields-bytes buf out (f ∷ fs) h =
    let (buf', e, e') = >>=-eq-ok (encode_field buf f) _ h in
    encode_fields-bytes buf' out fs e'
    ∙ ap (λ b. b ++ fields_bytes fs) (encode_field-bytes buf buf' f e)
    ∙ append_assoc buf (field_bytes f) (fields_bytes fs)

-- The whole message.
pub encode-fields :
    (context out : Bytes) (fs : List Field)
    → encode context fs ≡ ok out
    → encode_fields (write_lp [] context ++ be32 (length fs % 2 ^ 32)) fs ≡ ok out
unfolding encode
encode-fields context out fs h = ground arith

nonempty : (b : Bytes) → eq_bytes b [] ≡ false → b ≢ []
nonempty b h e = cc (h, (eq_bytes_iff b []).1 e)

empty_test : (b : Bytes) → b ≢ [] → eq_bytes b [] ≡ false
empty_test b h = ground (arith, eq_bytes_iff b [])

encode_field-IsEncodable :
    (buf out : Bytes) (f : Field) → encode_field buf f ≡ ok out → IsEncodable f
unfolding encode_field encode_value value
encode_field-IsEncodable buf out f h = ground (arith, eq_bytes_iff f.name [])

encode_field-ok :
    (buf : Bytes) (f : Field) → IsEncodable f → (out : Bytes) × (encode_field buf f ≡ ok out)
unfolding encode_field encode_value value
encode_field-ok buf f h = (
  write_lp (write_lp buf f.name ++ f.tag ∷ []) (payload f),
  unfold payload in ground (arith, h.content, eq_bytes_iff f.name []),
)

encode_fields-IsEncodable :
    (buf out : Bytes) (fs : List Field) → encode_fields buf fs ≡ ok out → All IsEncodable fs
unfolding encode_fields
encode_fields-IsEncodable buf out [] h = tt
encode_fields-IsEncodable buf out (f ∷ fs) h =
    let (buf', e, e') = >>=-eq-ok (encode_field buf f) _ h in
    (encode_field-IsEncodable buf buf' f e, encode_fields-IsEncodable buf' out fs e')

encode_fields-ok :
    (buf : Bytes) (fs : List Field)
    → All IsEncodable fs
    → encode_fields buf fs ≡ ok (buf ++ fields_bytes fs)
unfolding encode_fields fields_bytes
encode_fields-ok buf [] h = rw append-nil refl
encode_fields-ok buf (f ∷ fs) h =
    let (out, e) = encode_field-ok buf f h.0 in
    rw e (
      encode_fields-ok out fs h.1
      ∙ ap ok (
          ap (λ b. b ++ fields_bytes fs) (encode_field-bytes buf out f e)
          ∙ append_assoc buf (field_bytes f) (fields_bytes fs)))

head_format :
    (context : Bytes) (fs : List Field)
    → (write_lp [] context ++ be32 (length fs % 2 ^ 32)) ++ fields_bytes fs ≡ format context fs
unfolding format write_lp lp
head_format context fs = refl

pub encode-eq-format :
    (context : Bytes) (fs : List Field)
    → IsMessage context fs
    → encode context fs ≡ ok (format context fs)
unfolding encode
encode-eq-format context fs h =
    rw (empty_test context h.in_context, h.utf8_context)
      (encode_fields-ok _ fs h.fields ∙ ap ok (head_format context fs))

encode-context :
    (context out : Bytes) (fs : List Field)
    → encode context fs ≡ ok out
    → (context ≢ []) × (valid_string context ≡ true)
unfolding encode
encode-context context out fs h = ground (arith, eq_bytes_iff context [])

pub encode-IsMessage :
    (context : Bytes) (fs : List Field) (out : Bytes)
    → encode context fs ≡ ok out
    → IsMessage context fs × (out ≡ format context fs)
encode-IsMessage context fs out h =
    let e = encode-fields context out fs h in
    let c = encode-context context out fs h in
    (
      record {
        in_context = c.0;
        utf8_context = c.1;
        fields = encode_fields-IsEncodable _ out fs e;
      },
      encode_fields-bytes _ out fs e ∙ head_format context fs,
    )

-- `encode` returns bytes exactly for a context that is nonempty UTF-8 with fields that each have a name
-- that is nonempty UTF-8, one of the four tags, and a value that the tag admits (a text that is UTF-8
-- without U+0000, a number below 2^63), and the bytes are those of the format.
pub encode_iff :
    (context : Bytes) (fs : List Field) (out : Bytes)
    → (encode context fs ≡ ok out) ↔ (IsMessage context fs × (out ≡ format context fs))
encode_iff context fs out =
    (encode-IsMessage context fs out, λ (m, e). encode-eq-format context fs m ∙ ap ok (sym e))
