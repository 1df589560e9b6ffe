-- ===== src/Tests/Envelopes.antt =====
-- A request and a response with most of their fields.
use hyperdht_cpp.Prelude.{◌≡◌, refl, true, some, [], ◌∷◌, length, arith, IsU64}
use hyperdht_cpp.Compact.Address.{Address, IsAddress}
use hyperdht_cpp.Compact.State.{le16}
use hyperdht_cpp.Messages.Flags.{five_flags}
use hyperdht_cpp.Messages.Request.{Request, blank_request, request_flags, encode_request}
use hyperdht_cpp.Messages.Request.RoundTrip.{IsRequest, received, encode_request_lem}
use hyperdht_cpp.Messages.Request.RoundTrip
use hyperdht_cpp.Messages.Response.{Response, blank_response, response_flags, encode_response}
use hyperdht_cpp.Messages.Response.RoundTrip.{IsResponse, encode_response_lem}
use hyperdht_cpp.Messages.Response.RoundTrip as ResponseTrip
use hyperdht_cpp.Messages.Dispatch.{
  decode_message, request, response, decode_message-encode_request, decode_message-encode_response,
}

abbrev home : Address
home = record { host = 10 ∷ (0 ∷ (0 ∷ (1 ∷ []))); port = 49737 }

home-IsAddress : IsAddress 4 home
home-IsAddress = record {
  host_array = record {
    sized = refl;
    bytes = (omega arith, (omega arith, (omega arith, (omega arith, tt))));
  };
  port_range = omega arith;
}

abbrev ping : Request
ping = record blank_request {
  tid = 513;
  to = home;
  command = 2;
  value = some (1 ∷ (2 ∷ []));
  internal = true;
}

ping-IsRequest : IsRequest ping
ping-IsRequest = record {
  tid_range = omega arith;
  to_range = home-IsAddress;
  id_array = tt;
  token_array = tt;
  command_range = omega arith;
  target_array = tt;
  value_cap = omega arith;
}

ping_size : IsU64 (length (RoundTrip.wire ping))
unfolding le16 request_flags five_flags
ping_size = omega arith

decode_message-encode_request_example :
    decode_message
      (encode_request ping)
      (record blank_request { from = home; from_server = true })
      blank_response
    ≡ request (received ping (record blank_request { from = home; from_server = true }))
decode_message-encode_request_example =
    decode_message-encode_request ping home true blank_response ping-IsRequest ping_size

abbrev pong : Response
pong = record blank_response {
  tid = 513;
  from = home;
  closer_nodes = home ∷ (home ∷ []);
  error = some 16;
}

pong-IsResponse : IsResponse pong
pong-IsResponse = record {
  tid_range = omega arith;
  from_range = home-IsAddress;
  id_array = tt;
  token_array = tt;
  nodes_range = (omega arith, (home-IsAddress, (home-IsAddress, tt)));
  error_range = omega arith;
  value_cap = tt;
}

pong_size : IsU64 (length (ResponseTrip.wire pong))
unfolding le16 response_flags five_flags
pong_size = omega arith

decode_message-encode_response_example :
    decode_message (encode_response pong) blank_request blank_response
    ≡ response (record pong { flags = response_flags pong })
decode_message-encode_response_example =
    decode_message-encode_response pong blank_request pong-IsResponse pong_size
