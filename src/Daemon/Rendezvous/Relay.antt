-- ===== src/Daemon/Rendezvous/Relay.antt =====
-- The daemon neither reads nor writes what it relays.
use grantd.Base.{ℕ, ◌≡◌, ◌≢◌, refl, ap, ◌∙◌, Option, some, [], ◌∷◌, Bytes, All}
use grantd.Std.Base32.{IsByte}
use grantd.Protocol.Errors.{Code}
use grantd.Protocol.Frames.{Frame, frame_redeem_response, set_body, body, body-set_body}
use grantd.Daemon.Rendezvous.{reply, relayed, relay, handle_redeem}

module _ (error_body : Code → Bytes) where
  relay-some :
      (signer : Bytes → Option (ℕ × Bytes)) (id raw : Bytes)
      → raw ≢ []
      → relay error_body signer id (some raw) ≡ relayed error_body id (signer raw)
  unfolding relay
  relay-some signer id [] n = absurd (n refl)
  relay-some signer id (b ∷ bs) n = refl

  -- The signer gets the bytes of the envelope that the service was given, and the frame that goes back has
  -- the signer's status and the bytes of its answer, under the id of the request: for an envelope that
  -- is not empty, of bytes, and an answer of bytes.
  pub handle_redeem-relays :
      (signer : Bytes → Option (ℕ × Bytes)) (f : Frame) (raw : Bytes) (status : ℕ) (answer : Bytes)
      → raw ≢ []
      → All IsByte raw
      → All IsByte answer
      → signer raw ≡ some (status, answer)
      → (body (handle_redeem error_body signer (set_body raw f)) ≡ some answer)
        × ((handle_redeem error_body signer (set_body raw f)).status ≡ status)
        × ((handle_redeem error_body signer (set_body raw f)).id ≡ f.id)
  unfolding handle_redeem relayed reply set_body
  handle_redeem-relays signer f raw status answer n b c s =
      let frame = set_body answer (reply frame_redeem_response f.id status) in
      let done : handle_redeem error_body signer (set_body raw f) ≡ frame =
        ap (relay error_body signer f.id) (body-set_body raw f b)
        ∙ relay-some signer f.id raw n
        ∙ ap (relayed error_body f.id) s in
      (
        ap body done ∙ body-set_body answer (reply frame_redeem_response f.id status) c,
        ap (λ x. x.status) done,
        ap (λ x. x.id) done,
      )
