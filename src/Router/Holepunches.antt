-- ===== src/Router/Holepunches.antt =====
-- `Router::handle_peer_holepunch` of router.cpp, from the encoded message to the answer that leaves.
use hyperdht_cpp.Prelude.{
  ℕ, ◌≡◌, ap, ◌∙◌, Option, none, some, true, List, if◌then◌else◌, ◌==◌, arith, if-true,
}
use hyperdht_cpp.Compact.Address.{Address, IsAddress}
use hyperdht_cpp.Messages.Request.{Request}
use hyperdht_cpp.Handshake.{mode_from_client, mode_from_server, mode_reply}
use hyperdht_cpp.Holepunch.Message.{HolepunchMessage, decode_holepunch_msg, encode_holepunch_msg}
use hyperdht_cpp.Holepunch.Message.RoundTrip.{IsHolepunch}
use hyperdht_cpp.Router.{
  Forward, ForwardEntry, address_or, call_holepunch, dispatch_holepunch, enter_holepunch, get,
  handle_peer_holepunch, relay, relay_to, reply, reply_holepunch, response_to,
}
use hyperdht_cpp.Router.Sent.{
  Sent, sent_by, observed, answered, sent_if, client_IsAddress, decode_holepunch-sent,
}

reply_holepunch-sent :
    (req : Request) (client : Address) (mode : ℕ) (m : HolepunchMessage)
    → IsHolepunch m
    → IsAddress 4 client
    → sent_by decode_holepunch_msg (reply_holepunch req client mode (encode_holepunch_msg m))
      ≡ answered req mode
          (record m { mode = mode_reply; peer_address = none })
          (record m { mode = mode_from_server; peer_address = some client })
unfolding reply_holepunch
reply_holepunch-sent req client mode m h a =
    let x = record m { mode = mode_reply; peer_address = none } in
    let y = record m { mode = mode_from_server; peer_address = some client } in
    ap
      (λ (d : HolepunchMessage). sent_by decode_holepunch_msg (
        if mode == mode_from_client
        then reply (
            response_to req
              (encode_holepunch_msg (record d { mode = mode_reply; peer_address = none })))
        else relay (
            relay_to req (
              encode_holepunch_msg
                (record d { mode = mode_from_server; peer_address = some client })))))
      (decode_holepunch-sent m h)
    ∙ sent_if decode_holepunch_msg req (mode == mode_from_client) (encode_holepunch_msg x)
        (encode_holepunch_msg y) x y
        (decode_holepunch-sent x (record {
          mode_range = ground arith;
          id_range = h.id_range;
          payload_cap = h.payload_cap;
          peer_range = tt;
        }))
        (decode_holepunch-sent y (record {
          mode_range = ground arith;
          id_range = h.id_range;
          payload_cap = h.payload_cap;
          peer_range = a;
        }))

-- A request for a target whose server handles holepunches, with a valid holepunch message that is encoded: the
-- handler is called, whatever the mode, with the bytes of the message and the client's address, which the message names or
-- else the request comes from. An answer that is a valid encoded message leaves with the same id and payload, as a
-- response to the client in mode `reply` and without an address if the message came from a client, and else as a request
-- back to the relay in mode `from_server` and with the client's address; either keeps the transaction.
pub handle_peer_holepunch-encode :
    (fs : List Forward) (req : Request) (target : List ℕ) (e : ForwardEntry)
    (m answer : HolepunchMessage)
    → req.target ≡ some target
    → req.value ≡ some (encode_holepunch_msg m)
    → get fs target ≡ some e
    → e.on_peer_holepunch ≡ true
    → IsHolepunch m
    → IsHolepunch answer
    → IsAddress 4 req.from
    → observed decode_holepunch_msg (encode_holepunch_msg answer) (handle_peer_holepunch fs req)
      ≡ some (
        encode_holepunch_msg m,
        (
          address_or m.peer_address req.from,
          answered req m.mode
              (record answer { mode = mode_reply; peer_address = none })
              (record answer {
                mode = mode_from_server;
                peer_address = some (address_or m.peer_address req.from);
              }),
        ),
      )
unfolding handle_peer_holepunch
handle_peer_holepunch-encode fs req target e m answer t v g on h c a =
    let value = encode_holepunch_msg m in
    ap (observed decode_holepunch_msg (encode_holepunch_msg answer)) (
      ap (λ (o : Option (List ℕ)). dispatch_holepunch fs req o req.value) t
      ∙ ap (dispatch_holepunch fs req (some target)) v
      ∙ ap (λ (o : Option ForwardEntry). enter_holepunch o req value) g
      ∙ if-true _ _ e.on_peer_holepunch on
      ∙ ap (λ (d : HolepunchMessage). some (call_holepunch req value d))
          (decode_holepunch-sent m h))
    ∙ ap (λ (x : Sent HolepunchMessage). some (value, (address_or m.peer_address req.from, x)))
        (reply_holepunch-sent req (address_or m.peer_address req.from) m.mode answer c
          (client_IsAddress m.peer_address req.from h.peer_range a))
