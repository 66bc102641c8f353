-- ===== src/Daemon/Rendezvous/Accounts.antt =====
-- Every redemption that is asked for is answered once or its answer is lost, and never more than eight
-- are in flight.
use grantd.Base.{
  ℕ, ◌+◌, ◌≤◌, ◌≡◌, refl, Bool, false, ◌&&◌, Option, none, some, List, [], ◌∷◌, ◌++◌, Bytes, length,
  length-append, eq_bytes, eq_bytes_iff, arith, inl, inr, Bool-cases, if◌then◌else◌,
}
use grantd.Protocol.Errors.{Code}
use grantd.Protocol.Frames.{
  Frame, frame_hello, frame_ping, frame_pong, frame_redeem_request, frame_redeem_response, set_body,
  body,
}
use grantd.Daemon.Rendezvous.{
  Daemon, reply, send, error_frame, relayed, relay, handle_redeem, start_redeem, dispatch,
  handle_frame, asks, Reach, start, receiving, finishing, max_inflight_redeems,
}

-- How many pass a test.
abbrev pub count : {A : Type 0} → (A → Bool) → List A → ℕ
count p [] = 0
count p (x ∷ xs) = (if p x then 1 else 0) + count p xs

count-append :
    {A : Type 0} (p : A → Bool) (xs ys : List A) → count p (xs ++ ys) ≡ count p xs + count p ys
count-append p [] ys = omega arith
count-append p (x ∷ xs) ys = omega (arith, count-append p xs ys)

abbrev pub has_id : Bytes → Frame → Bool
has_id id f = eq_bytes f.id id

abbrev pub is_answer : Bytes → Frame → Bool
is_answer id f = eq_bytes f.kind frame_redeem_response && eq_bytes f.id id

module _ (error_body : Code → Bytes) where
  error_frame-kind :
      (id : Bytes) (code : Code) → (error_frame error_body id code).kind ≡ frame_redeem_response
  unfolding error_frame reply set_body
  error_frame-kind id code = refl

  error_frame-id : (id : Bytes) (code : Code) → (error_frame error_body id code).id ≡ id
  unfolding error_frame reply set_body
  error_frame-id id code = refl

  relayed-answer :
      (id : Bytes) (a : Option (ℕ × Bytes))
      → ((relayed error_body id a).kind ≡ frame_redeem_response)
        × ((relayed error_body id a).id ≡ id)
  unfolding relayed reply set_body error_frame
  relayed-answer id none = (refl, refl)
  relayed-answer id (some (s, b)) = (refl, refl)

  relay-answer :
      (signer : Bytes → Option (ℕ × Bytes)) (id : Bytes) (o : Option Bytes)
      → ((relay error_body signer id o).kind ≡ frame_redeem_response)
        × ((relay error_body signer id o).id ≡ id)
  unfolding relay reply set_body error_frame
  relay-answer signer id none = (refl, refl)
  relay-answer signer id (some []) = (refl, refl)
  relay-answer signer id (some (b ∷ bs)) = relayed-answer id (signer (b ∷ bs))

  handle_redeem-answer :
      (signer : Bytes → Option (ℕ × Bytes)) (f : Frame)
      → ((handle_redeem error_body signer f).kind ≡ frame_redeem_response)
        × ((handle_redeem error_body signer f).id ≡ f.id)
  unfolding handle_redeem
  handle_redeem-answer signer f = relay-answer signer f.id (body f)

  -- Of each id: what was asked for, is in flight, was answered and could not be answered.
  abbrev pub Balanced : List Bytes → Daemon → Type 0
  Balanced asked d =
      (id : Bytes)
      → count (λ a. eq_bytes a id) asked
        ≡ count (has_id id) d.inflight + count (is_answer id) d.sent + count (is_answer id) d.lost

  is_answer-error :
      (id : Bytes) (f : Frame) (code : Code)
      → is_answer id (error_frame error_body f.id code) ≡ eq_bytes f.id id
  unfolding error_frame reply set_body eq_bytes
  is_answer-error id f code = refl

  is_answer-pong : (id own : Bytes) → is_answer id (reply frame_pong own 0) ≡ false
  unfolding reply eq_bytes
  is_answer-pong id own = refl

  start_redeem-Balanced :
      (written : Bool) (f : Frame) (asked : List Bytes) (d : Daemon)
      → Balanced asked d
      → Balanced (asked ++ f.id ∷ []) (start_redeem error_body written f d)
  unfolding start_redeem send
  start_redeem-Balanced written f asked d b id = ground (
    arith,
    b id,
    count-append (λ a. eq_bytes a id) asked (f.id ∷ []),
    count-append (has_id id) d.inflight (f ∷ []),
    count-append (is_answer id) d.sent (error_frame error_body f.id Code.rate_limited ∷ []),
    count-append (is_answer id) d.lost (error_frame error_body f.id Code.rate_limited ∷ []),
    is_answer-error id f Code.rate_limited,
  )

  is_answer-handle_redeem :
      (signer : Bytes → Option (ℕ × Bytes)) (id : Bytes) (f : Frame)
      → is_answer id (handle_redeem error_body signer f) ≡ eq_bytes f.id id
  is_answer-handle_redeem signer id f =
      let (k, i) = handle_redeem-answer signer f in
      rw ((eq_bytes_iff (handle_redeem error_body signer f).kind frame_redeem_response).1 k)
        (rw i refl)

  none_asked : (asked : List Bytes) (d : Daemon) → Balanced asked d → Balanced (asked ++ []) d
  none_asked asked d b id = omega (arith, b id, count-append (λ a. eq_bytes a id) asked [])

  pong-Balanced :
      (written : Bool) (own : Bytes) (asked : List Bytes) (d : Daemon)
      → Balanced asked d
      → Balanced (asked ++ []) (send written (reply frame_pong own 0) d)
  unfolding send
  pong-Balanced written own asked d b id = ground (
    arith,
    b id,
    count-append (λ a. eq_bytes a id) asked [],
    count-append (is_answer id) d.sent (reply frame_pong own 0 ∷ []),
    count-append (is_answer id) d.lost (reply frame_pong own 0 ∷ []),
    is_answer-pong id own,
  )

  -- What holds of a daemon: the bound, and the accounts.
  pub record Accounted (asked : List Bytes) (d : Daemon) : Type 0 where
    pub bounded : length d.inflight ≤ max_inflight_redeems
    pub balanced : Balanced asked d

  send-bounded :
      (written : Bool) (f : Frame) (d : Daemon)
      → length d.inflight ≤ max_inflight_redeems
      → length (send written f d).inflight ≤ max_inflight_redeems
  unfolding send
  send-bounded written f d b = ground arith

  start_redeem-bounded :
      (written : Bool) (f : Frame) (d : Daemon)
      → length d.inflight ≤ max_inflight_redeems
      → length (start_redeem error_body written f d).inflight ≤ max_inflight_redeems
  unfolding start_redeem send
  start_redeem-bounded written f d b = ground (arith, length-append d.inflight (f ∷ []))

  dispatch-Accounted :
      (written : Bool) (f : Frame) (asked : List Bytes) (d : Daemon)
      → Accounted asked d
      → Accounted (asked ++ asks error_body (some f)) (dispatch error_body written f d)
  unfolding asks dispatch
  dispatch-Accounted written f asked d a = elim (Bool-cases (eq_bytes f.kind frame_hello)) [
    | inl e ↦ rw e (record { bounded = a.bounded; balanced = none_asked asked d a.balanced })
    | inr e ↦ rw e (elim (Bool-cases (eq_bytes f.kind frame_ping)) [
      | inl e ↦ rw e (record {
        bounded = send-bounded written (reply frame_pong f.id 0) d a.bounded;
        balanced = pong-Balanced written f.id asked d a.balanced;
      })
      | inr e ↦ rw e (elim (Bool-cases (eq_bytes f.kind frame_redeem_request)) [
        | inl e ↦ rw e (record {
          bounded = start_redeem-bounded written f d a.bounded;
          balanced = start_redeem-Balanced written f asked d a.balanced;
        })
        | inr e ↦ rw e (record { bounded = a.bounded; balanced = none_asked asked d a.balanced })
      ])
    ])
  ]

  finishing-Accounted :
      (asked : List Bytes) (sent lost before : List Frame) (f : Frame) (after : List Frame)
      (signer : Bytes → Option (ℕ × Bytes)) (written : Bool)
      → Accounted asked (record { inflight = before ++ f ∷ after; sent = sent; lost = lost })
      → Accounted asked (
          send written
            (handle_redeem error_body signer f)
            (record { inflight = before ++ after; sent = sent; lost = lost }))
  unfolding send
  finishing-Accounted asked sent lost before f after signer written a = record {
    bounded =
        ground (arith, a.bounded, length-append before (f ∷ after), length-append before after);
    balanced = λ id. ground (
      arith,
      a.balanced id,
      count-append (has_id id) before (f ∷ after),
      count-append (has_id id) before after,
      count-append (is_answer id) sent (handle_redeem error_body signer f ∷ []),
      count-append (is_answer id) lost (handle_redeem error_body signer f ∷ []),
      is_answer-handle_redeem signer id f,
    );
  }

  handle_frame-Accounted :
      (written : Bool) (message : Option Frame) (asked : List Bytes) (d : Daemon)
      → Accounted asked d
      → Accounted (asked ++ asks error_body message) (handle_frame error_body written message d)
  unfolding handle_frame asks
  handle_frame-Accounted written none asked d a = record {
    bounded = a.bounded;
    balanced = none_asked asked d a.balanced;
  }
  handle_frame-Accounted written (some f) asked d a = dispatch-Accounted written f asked d a

  -- Of a daemon that has been started, whatever messages came in, in whatever order its redemptions
  -- ended and whichever frames could not be sent: at most eight are in flight; and of each id as many
  -- redemptions were asked for as are in flight, as answers were sent and as answers were lost because
  -- they could not be sent. So no request is answered twice, a refused one included, none is left
  -- without an answer but those in flight and those whose answer was lost, and nothing that was not
  -- asked for is answered.
  pub Reach-Accounted :
      {asked : List Bytes} {d : Daemon} → Reach error_body asked d → Accounted asked d
  Reach-Accounted start = record { bounded = omega arith; balanced = λ id. omega arith }
  Reach-Accounted (receiving {asked} {d} r written message) =
      handle_frame-Accounted written message asked d (Reach-Accounted r)
  Reach-Accounted (finishing {asked} {sent} {lost} before f after r signer written) =
      finishing-Accounted asked sent lost before f after signer written (Reach-Accounted r)
