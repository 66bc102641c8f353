-- ===== src/Protocol/Json/ErrorBody.antt =====
-- go/internal/protocol/envelopes.go: MarshalErrorBody and ParseErrorBody, on which clients branch.
use grantd.Base.{◌≡◌, refl, ap, ◌∙◌, false, Option, none, some, [], Bytes, eq_bytes, if◌then◌else◌}
use grantd.Protocol.Envelopes.{ApiError}
use grantd.Protocol.Errors.{Code, bad_request, code_text}
use grantd.Protocol.Json.{Codec}

pub record ApiErrorEnvelope : Type 0 where
  pub error : ApiError

unfoldable pub marshal_error_body : {W : Type 0} → Codec W ApiErrorEnvelope → Bytes → Bytes → W
marshal_error_body json code msg =
    json.marshal (record { error = record { code = code; message = msg } })

-- A body without a code is no error.
unfoldable pub coded : ApiErrorEnvelope → Option ApiError
coded env = if eq_bytes env.error.code [] then none else some env.error

unfoldable pub parse_error_body : {W : Type 0} → Codec W ApiErrorEnvelope → W → Option ApiError
unfolding coded
parse_error_body json body = elim (json.unmarshal body) [ none ↦ none | some env ↦ coded env ]

code_text-given : (c : Code) → eq_bytes (code_text c) [] ≡ false
unfolding code_text eq_bytes
code_text-given bad_request = refl
code_text-given _ = refl

-- A client reads the code of every refusal, if encoding/json reads back what it wrote.
pub parse_error_body-marshal_error_body :
    {W : Type 0} (json : Codec W ApiErrorEnvelope) (c : Code) (msg : Bytes)
    → ((env : ApiErrorEnvelope) → json.unmarshal (json.marshal env) ≡ some env)
    → parse_error_body json (marshal_error_body json (code_text c) msg)
      ≡ some (record { code = code_text c; message = msg })
unfolding parse_error_body marshal_error_body
parse_error_body-marshal_error_body json c msg back =
    let env : ApiErrorEnvelope = record { error = record { code = code_text c; message = msg } } in
    ap
      (λ (o : Option ApiErrorEnvelope). elim o as (λ x. Option ApiError) [
        | none ↦ none
        | some e ↦ coded e
      ])
      (back env)
    ∙ (unfold coded in (rw (code_text-given c) refl))
