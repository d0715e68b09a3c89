-- ===== src/Stun/Tests.antt =====
-- A binding request that is sent again, and what a server answers: src/nat/stun.
use rtp_sip_module.Prelude.{
  ℕ, ◌+◌, ◌<◌, ◌*◌, ◌%◌, ◌^◌, ◌≡◌, refl, ◌⊎◌, true, false, none, some, List, [], ◌∷◌, ◌++◌,
  replicate, take, drop, arith,
}
use rtp_sip_module.Prelude.Bytes.{u16_at, u32_at, xor_bytes}
use rtp_sip_module.Stun.Attribute.{
  SocketAddr, StunAttribute, encode, decode, xor_port, xor_ip, encode_address_attr, map_option,
  decode_address,
}
use rtp_sip_module.Stun.Attribute.Roundtrip.{decode-encode}
use rtp_sip_module.Stun.Message.{
  StunError, StunMessage, ok, err, new_binding_request, new_binding_indication, marshal, unmarshal,
  is_stun, header, encode_all, fingerprint, finish, parse_attributes, check_fingerprint, push,
}
use rtp_sip_module.Stun.Message.Access.{
  changed_address, error_code, mapped_address, is_success, is_error, is_request, is_indication,
}
use rtp_sip_module.Stun.Message.Termination.{unmarshal_returns}
use rtp_sip_module.Stun.Message.Roundtrip.{unmarshal-marshal}
use rtp_sip_module.Stun.Transaction.{
  StunTransaction, PollResult, new, poll, receive_response, next_deadline, is_timed_out,
  initial_rto, is_done, is_complete, elapsed,
}
use rtp_sip_module.Stun.Transaction.Laws.{History, IsWellFormed, History-IsWellFormed}
use rtp_sip_module.Stun.Transaction.Timetable.{poll_due, poll_due_schedule}

-- a checksum in place of the CRC
abbrev sum_bytes : List ℕ → ℕ
sum_bytes [] = 0
sum_bytes (b ∷ bytes) = (b + sum_bytes bytes) % 2 ^ 32

abbrev an_id : List ℕ
an_id = 1 ∷ 2 ∷ 3 ∷ 4 ∷ 5 ∷ 6 ∷ 7 ∷ 8 ∷ 9 ∷ 10 ∷ 11 ∷ 12 ∷ []

abbrev reflexive : StunAttribute
reflexive = StunAttribute.xor_mapped_address (SocketAddr.v4 (203 ∷ 0 ∷ 113 ∷ 50 ∷ []) 32853)

abbrev request : StunMessage
request = record { msg_type = 1; transaction_id = an_id; attributes = [] }

abbrev answer : StunMessage
answer = record { msg_type = 0x0101; transaction_id = an_id; attributes = reflexive ∷ [] }

decode-encode_example :
    let bytes = encode reflexive an_id in
    decode (λ s. s) (u16_at bytes 0) (take (u16_at bytes 2) (drop 4 bytes)) an_id ≡ some reflexive
decode-encode_example = decode-encode (λ s. s) reflexive an_id (refl, omega arith)

-- The message of the answer, and one that is cut short.
answer_parses :
    (unmarshal sum_bytes (λ s. s) (marshal sum_bytes answer) ≡ ok answer)
    × (unmarshal sum_bytes (λ s. s) (1 ∷ []) ≡ err StunError.too_short)
    × (is_stun (marshal sum_bytes answer) ≡ true)
unfolding unmarshal marshal is_stun header encode_all encode encode_address_attr xor_ip xor_bytes
    fingerprint u16_at u32_at finish parse_attributes decode map_option decode_address
    check_fingerprint xor_port push
answer_parses = (refl, refl, refl)

sum_bytes-lt : (bytes : List ℕ) → sum_bytes bytes < 2 ^ 32
sum_bytes-lt [] = omega arith
sum_bytes-lt (b ∷ bytes) = omega arith

unmarshal-marshal_example : unmarshal sum_bytes (λ s. s) (marshal sum_bytes answer) ≡ ok answer
unfolding encode_all encode encode_address_attr xor_ip xor_bytes
unmarshal-marshal_example =
    unmarshal-marshal sum_bytes (λ s. s) answer sum_bytes-lt
      (omega arith, refl, ((refl, omega arith), tt), omega arith)

unmarshal_returns_example :
    ((m : StunMessage) × (unmarshal sum_bytes (λ s. s) (marshal sum_bytes answer) ≡ ok m))
    ⊎ ((e : StunError) × (unmarshal sum_bytes (λ s. s) (marshal sum_bytes answer) ≡ err e))
unmarshal_returns_example = unmarshal_returns sum_bytes (λ s. s) (marshal sum_bytes answer)

poll_due_schedule_example :
    let t = new sum_bytes request 5 in
    ((poll_due 8 t).1
      ≡ replicate 7 (PollResult.retransmit (marshal sum_bytes request))
        ++ (PollResult.timed_out ∷ []))
    × (next_deadline (poll_due 7 t).0 ≡ some (5 + initial_rto * 255))
    × (is_timed_out (poll_due 7 t).0 ≡ false)
    × (is_timed_out (poll_due 8 t).0 ≡ true)
poll_due_schedule_example = poll_due_schedule sum_bytes request 5

answered : StunTransaction
answered = (receive_response (new sum_bytes request 5) answer).0

-- The request was sent again half a second after its creation, and then answered.
abbrev sent_twice : StunTransaction
sent_twice = (poll (new sum_bytes request 5) 500000005).0

twice_history : History sum_bytes request 5 1 (receive_response sent_twice answer).0
unfolding poll new
twice_history =
    History.received 1 sent_twice answer
      (History.polled 0 (new sum_bytes request 5) 500000005 History.start)

History-IsWellFormed_example :
    IsWellFormed sum_bytes request 5 1 (receive_response sent_twice answer).0
History-IsWellFormed_example =
    History-IsWellFormed sum_bytes request 5 1 (receive_response sent_twice answer).0 twice_history

flags :
    (is_done (new sum_bytes request 5) ≡ false)
    × (is_complete answered ≡ true)
    × (elapsed (new sum_bytes request 5) 9 ≡ 4)
unfolding is_done is_complete elapsed new answered receive_response
flags = (refl, refl, refl)

what_it_says :
    (changed_address answer ≡ none)
    × (error_code answer ≡ none)
    × (mapped_address answer ≡ none)
    × (is_success answer ≡ true)
    × (is_error answer ≡ false)
    × (is_request (new_binding_request an_id) ≡ true)
    × (is_indication (new_binding_indication an_id) ≡ true)
unfolding changed_address error_code mapped_address is_success is_error is_request is_indication
    new_binding_request new_binding_indication
what_it_says = (refl, refl, refl, refl, refl, refl, refl)
