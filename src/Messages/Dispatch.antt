-- ===== src/Messages/Dispatch.antt =====
-- `decode_message` of messages.cpp: which of the two decoders a datagram goes to.
use hyperdht_cpp.Prelude.{
  ℕ, ◌≡◌, ◌<◌, ap, ◌∙◌, Option, none, some, Bool, List, [], ◌∷◌, ◌++◌, le→leb, if◌then◌else◌, ◌==◌,
  length, arith, IsU64,
}
use hyperdht_cpp.Compact.Address.{Address}
use hyperdht_cpp.Messages.Flags.{request_id, response_id}
use hyperdht_cpp.Messages.Request.{Request, blank_request, encode_request, decode_request}
use hyperdht_cpp.Messages.Response.{
  Response, blank_response, response_flags, encode_response, decode_response,
}
use hyperdht_cpp.Messages.Request.RoundTrip.{
  IsRequest, received, encode_request_lem, decode_request-wire,
}
use hyperdht_cpp.Messages.Response.RoundTrip.{IsResponse, encode_response_lem, decode_response-wire}
use hyperdht_cpp.Messages.Request.RoundTrip as RequestTrip
use hyperdht_cpp.Messages.Response.RoundTrip as ResponseTrip
use hyperdht_cpp.Compact.Uint

-- The result byte with the struct that was filled: `ignored` is the result 0.
pub data Message : Type 0 where
  ignored : Message
  request : Request → Message
  response : Response → Message

abbrev request_or_ignored : Option Request → Message
request_or_ignored none = ignored
request_or_ignored (some r) = request r

abbrev response_or_ignored : Option Response → Message
response_or_ignored none = ignored
response_or_ignored (some r) = response r

unfoldable pub decode_message : List ℕ → Request → Response → Message
decode_message [] req resp = ignored
decode_message (type ∷ []) req resp = ignored
decode_message (type ∷ (b ∷ body)) req resp =
    if type == request_id
    then request_or_ignored (decode_request (b ∷ body) req)
    else if type == response_id
    then response_or_ignored (decode_response (b ∷ body) resp)
    else ignored

-- A small flags byte stands for itself.
small_wire : (v : ℕ) → v < 32 → Uint.wire v ≡ v ∷ []
small_wire v h = rw (le→leb v 0xfc (omega arith))

request_body :
    (v : ℕ) (rest : List ℕ) (req : Request) (resp : Response)
    → v < 32
    → decode_message (request_id ∷ (Uint.wire v ++ rest)) req resp
      ≡ request_or_ignored (decode_request (Uint.wire v ++ rest) req)
unfolding decode_message
request_body v rest req resp h = rw (small_wire v h)

response_body :
    (v : ℕ) (rest : List ℕ) (req : Request) (resp : Response)
    → v < 32
    → decode_message (response_id ∷ (Uint.wire v ++ rest)) req resp
      ≡ response_or_ignored (decode_response (Uint.wire v ++ rest) resp)
unfolding decode_message
response_body v rest req resp h = rw (small_wire v h)

-- A request whose fields fit the envelope, encoded and given to the dispatcher, is recognised
-- as a request, and all its fields come back, with the flags that they give.
pub decode_message-encode_request :
    (r : Request) (from : Address) (from_server : Bool) (resp : Response)
    → IsRequest r
    → IsU64 (length (RequestTrip.wire r))
    → let old = record blank_request { from = from; from_server = from_server } in
      decode_message (encode_request r) old resp ≡ request (received r old)
decode_message-encode_request r from from_server resp h k =
    let old : Request = record blank_request { from = from; from_server = from_server } in
    ap (λ (bytes : List ℕ). decode_message bytes old resp) (encode_request_lem r h k)
    ∙ request_body _ _ old resp (RequestTrip.flag_bits r).small
    ∙ ap request_or_ignored (decode_request-wire r from from_server h)

-- A response whose fields fit the envelope, encoded and given to the dispatcher, is recognised
-- as a response, and all its fields come back, with the flags that they give.
pub decode_message-encode_response :
    (r : Response) (req : Request)
    → IsResponse r
    → IsU64 (length (ResponseTrip.wire r))
    → decode_message (encode_response r) req blank_response
      ≡ response (record r { flags = response_flags r })
decode_message-encode_response r req h k =
    ap (λ (bytes : List ℕ). decode_message bytes req blank_response) (encode_response_lem r h k)
    ∙ response_body _ _ req blank_response (ResponseTrip.flag_bits r).small
    ∙ ap response_or_ignored (decode_response-wire r h)
