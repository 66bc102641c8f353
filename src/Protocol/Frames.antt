-- ===== src/Protocol/Frames.antt =====
-- go/internal/protocol/frames.go: the messages of the rendezvous connection.
use grantd.Base.{
  sym, ap, ◌∙◌, Bool-cases, inl, inr, ◌≡◌, refl, Bool, ◌||◌, Option, none, some, [], Bytes, ℕ,
  codes, All, eq_bytes, eq_bytes_iff, if◌then◌else◌,
}
use grantd.Std.Base32.{IsByte}
use grantd.Std.Base64.{url_alphabet, encode_raw, decode_raw, decode_digits}
use grantd.Std.Base64.RoundTrip.{decode_raw-encode_raw}

abbrev pub frame_hello : Bytes
frame_hello = codes "hello"

abbrev pub frame_redeem_request : Bytes
frame_redeem_request = codes "redeem.request"

abbrev pub frame_redeem_response : Bytes
frame_redeem_response = codes "redeem.response"

abbrev pub frame_ping : Bytes
frame_ping = codes "ping"

abbrev pub frame_pong : Bytes
frame_pong = codes "pong"

pub record Frame : Type 0 where
  pub kind : Bytes
  pub id : Bytes
  pub protocol_version : ℕ
  pub status : ℕ
  pub body_b64 : Bytes

unfoldable pub set_body : Bytes → Frame → Frame
set_body raw f = record f { body_b64 = encode_raw url_alphabet raw }

-- An absent body is empty.
unfoldable pub body : Frame → Option Bytes
body f = if eq_bytes f.body_b64 [] then some [] else decode_raw url_alphabet f.body_b64

-- BodyJSON: the bytes are taken as JSON as they are.
unfoldable pub body_json : Frame → Option Bytes
unfolding body
body_json f = elim (body f) [ none ↦ none | some raw ↦ some raw ]

unfoldable pub known_frame : Bytes → Bool
known_frame t =
    eq_bytes t frame_hello
    || eq_bytes t frame_redeem_request
    || eq_bytes t frame_redeem_response
    || eq_bytes t frame_ping
    || eq_bytes t frame_pong

nothing_encoded : decode_raw url_alphabet [] ≡ some []
unfolding decode_raw decode_digits
nothing_encoded = refl

pub body-set_body : (raw : Bytes) (f : Frame) → All IsByte raw → body (set_body raw f) ≡ some raw
unfolding body set_body
body-set_body raw f h = elim (Bool-cases (eq_bytes (encode_raw url_alphabet raw) [])) [
  | inl e ↦ rw e (
      sym nothing_encoded
      ∙ ap (decode_raw url_alphabet) (sym ((eq_bytes_iff (encode_raw url_alphabet raw) []).0 e))
      ∙ decode_raw-encode_raw raw h)
  | inr e ↦ rw e (decode_raw-encode_raw raw h)
]
