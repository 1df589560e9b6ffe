-- ===== src/Router/Handshakes.antt =====
-- `Router::handle_peer_handshake` of router.cpp, from the encoded message to the answer that leaves.
use hyperdht_cpp.Prelude.{
  ℕ, ◌≡◌, ◌<◌, refl, ap, sym, ◌∙◌, Option, none, some, Bool, true, false, ◌||◌, not, List, [],
  length, if◌then◌else◌, ◌==◌, arith, if-false, if-true, if_cases,
}
use hyperdht_cpp.Compact.Address.{Address, IsAddress}
use hyperdht_cpp.Messages.Request.{Request}
use hyperdht_cpp.Messages.Field.{IsValue}
use hyperdht_cpp.Handshake.{
  HandshakeMessage, blank_handshake, decode_handshake_msg, encode_handshake_msg, mode_from_client,
  mode_from_server, mode_reply,
}
use hyperdht_cpp.Handshake.RoundTrip.{IsHandshake}
use hyperdht_cpp.Router.{
  Call, Forward, ForwardEntry, address_or, call_handshake, dispatch_handshake, enter_handshake, get,
  handle_peer_handshake, is_incoming, reply_handshake,
}
use hyperdht_cpp.Router.Sent.{
  Sent, sent_by, observed, answered, sent_if, client_IsAddress, decode_handshake-sent,
}

reply_handshake-sent :
    (req : Request) (client : Address) (mode : ℕ) (answer : List ℕ)
    → IsValue answer
    → IsAddress 4 client
    → sent_by decode_handshake_msg (reply_handshake req client mode answer)
      ≡ answered req mode
          (record blank_handshake { mode = mode_reply; noise = answer })
          (record blank_handshake {
            mode = mode_from_server;
            noise = answer;
            peer_address = some client;
          })
unfolding reply_handshake
reply_handshake-sent req client mode answer v a =
    let m = record blank_handshake { mode = mode_reply; noise = answer } in
    let n = record blank_handshake {
      mode = mode_from_server;
      noise = answer;
      peer_address = some client;
    } in
    sent_if decode_handshake_msg req (mode == mode_from_client) (encode_handshake_msg m)
      (encode_handshake_msg n) m n
      (decode_handshake-sent m
        (record { mode_range = ground arith; noise_cap = v; peer_range = tt; relay_range = tt }))
      (decode_handshake-sent n
        (record { mode_range = ground arith; noise_cap = v; peer_range = a; relay_range = tt }))

-- The test of `call_handshake` on a message that is not empty.
observed-call_handshake :
    (req : Request) (m : HandshakeMessage) (answer : List ℕ) (b : Bool)
    → is_incoming m.mode ≡ b
    → 0 < length m.noise
    → IsHandshake m
    → IsValue answer
    → IsAddress 4 req.from
    → observed decode_handshake_msg answer (call_handshake req m) ≡ (
        if b
        then some (
          m.noise,
          (
            address_or m.peer_address req.from,
            answered req m.mode
                (record blank_handshake { mode = mode_reply; noise = answer })
                (record blank_handshake {
                  mode = mode_from_server;
                  noise = answer;
                  peer_address = some (address_or m.peer_address req.from);
                }),
          ),
        )
        else none)
observed-call_handshake req m answer true e l h v a =
    let test : ((length m.noise == 0) || not (is_incoming m.mode)) ≡ false = rw e (ground arith) in
    ap (observed decode_handshake_msg answer)
      (if-false _ _ ((length m.noise == 0) || not (is_incoming m.mode)) test)
    ∙ ap (λ (x : Sent HandshakeMessage). some (m.noise, (address_or m.peer_address req.from, x)))
        (reply_handshake-sent req (address_or m.peer_address req.from) m.mode answer v
          (client_IsAddress m.peer_address req.from h.peer_range a))
observed-call_handshake req m answer false e l h v a =
    let test : ((length m.noise == 0) || not (is_incoming m.mode)) ≡ true = rw e (ground arith) in
    ap (observed decode_handshake_msg answer)
      (if-true _ _ ((length m.noise == 0) || not (is_incoming m.mode)) test)

-- A request for a target whose server handles handshakes, with a valid handshake message that is encoded and not
-- empty: the handler is called if and only if the message comes from a client, a relay or a second relay. It gets the Noise
-- bytes and the client's address, which the message names or else the request comes from. Its answer leaves as a response
-- to the client, in mode `reply`, or as a request back to the relay, in mode `from_server` and with the client's address;
-- either keeps the transaction.
pub handle_peer_handshake-encode :
    (fs : List Forward) (req : Request) (target : List ℕ) (e : ForwardEntry) (m : HandshakeMessage)
    (answer : List ℕ)
    → req.target ≡ some target
    → req.value ≡ some (encode_handshake_msg m)
    → get fs target ≡ some e
    → e.on_peer_handshake ≡ true
    → 0 < length m.noise
    → IsHandshake m
    → IsValue answer
    → IsAddress 4 req.from
    → observed decode_handshake_msg answer (handle_peer_handshake fs req) ≡ (
        if is_incoming m.mode
        then some (
          m.noise,
          (
            address_or m.peer_address req.from,
            answered req m.mode
                (record blank_handshake { mode = mode_reply; noise = answer })
                (record blank_handshake {
                  mode = mode_from_server;
                  noise = answer;
                  peer_address = some (address_or m.peer_address req.from);
                }),
          ),
        )
        else none)
unfolding handle_peer_handshake
handle_peer_handshake-encode fs req target e m answer t v g on l h c a =
    ap (observed decode_handshake_msg answer) (
      ap (λ (o : Option (List ℕ)). dispatch_handshake fs req o req.value) t
      ∙ ap (dispatch_handshake fs req (some target)) v
      ∙ ap (λ (o : Option ForwardEntry). enter_handshake o req (encode_handshake_msg m)) g
      ∙ if-true _ _ e.on_peer_handshake on
      ∙ ap (call_handshake req) (decode_handshake-sent m h))
    ∙ observed-call_handshake req m answer (is_incoming m.mode) refl l h c a

-- What a call of the handler tells of the request.
pub record IsServed (fs : List Forward) (t v : Option (List ℕ)) (c : Call) : Type 0 where
  pub target : List ℕ
  pub value : List ℕ
  pub entry : ForwardEntry
  pub targeted : t ≡ some target
  pub valued : v ≡ some value
  pub known : get fs target ≡ some entry
  pub handled : entry.on_peer_handshake ≡ true
  pub passed : c.argument ≡ (decode_handshake_msg value).noise
  pub some_noise : 0 < length (decode_handshake_msg value).noise
  pub incoming : is_incoming (decode_handshake_msg value).mode ≡ true

accepted_noise : (n : ℕ) (b : Bool) → ((n == 0) || not b) ≡ false → (0 < n) × (b ≡ true)
accepted_noise n b h = (ground arith, ground arith)

argument_or : List ℕ → Option Call → List ℕ
argument_or d none = d
argument_or d (some c) = c.argument

call_handshake-some :
    (req : Request) (m : HandshakeMessage) (c : Call)
    → call_handshake req m ≡ some c
    → (c.argument ≡ m.noise) × ((0 < length m.noise) × (is_incoming m.mode ≡ true))
unfolding argument_or
call_handshake-some req m c =
    if_cases _ _
      (λ (x : Option Call).
        x ≡ some c → (c.argument ≡ m.noise) × ((0 < length m.noise) × (is_incoming m.mode ≡ true)))
      ((length m.noise == 0) || not (is_incoming m.mode)) (λ e h. absurd cc)
      (λ e h. (sym (ap (argument_or []) h), accepted_noise (length m.noise) (is_incoming m.mode) e))

enter_handshake-IsServed :
    (fs : List Forward) (req : Request) (target value : List ℕ) (o : Option ForwardEntry) (c : Call)
    → get fs target ≡ o
    → enter_handshake o req value ≡ some c
    → IsServed fs (some target) (some value) c
enter_handshake-IsServed fs req target value none c g = λ h. absurd cc
enter_handshake-IsServed fs req target value (some e) c g =
    if_cases _ _ (λ (x : Option Call). x ≡ some c → IsServed fs (some target) (some value) c)
      e.on_peer_handshake
      (λ on h.
        let w = call_handshake-some req (decode_handshake_msg value) c h in
        record {
          target = target;
          value = value;
          entry = e;
          targeted = refl;
          valued = refl;
          known = g;
          handled = on;
          passed = w.0;
          some_noise = w.1.0;
          incoming = w.1.1;
        })
      (λ on h. absurd cc)

dispatch_handshake-IsServed :
    (fs : List Forward) (req : Request) (t v : Option (List ℕ)) (c : Call)
    → dispatch_handshake fs req t v ≡ some c
    → IsServed fs t v c
dispatch_handshake-IsServed fs req none v c h = absurd cc
dispatch_handshake-IsServed fs req (some t) none c h = absurd cc
dispatch_handshake-IsServed fs req (some t) (some v) c h =
    enter_handshake-IsServed fs req t v (get fs t) c refl h

-- Of any request, its bytes malformed or not: a handshake handler is called only if the request has a target and a value, the
-- target is known and its server handles handshakes, and the message that the value decodes to has Noise bytes and the mode of
-- a client, a relay or a second relay; it is called with those bytes. In every other case nothing is called.
pub handle_peer_handshake-IsServed :
    (fs : List Forward) (req : Request) (c : Call)
    → handle_peer_handshake fs req ≡ some c
    → IsServed fs req.target req.value c
unfolding handle_peer_handshake
handle_peer_handshake-IsServed fs req c h =
    dispatch_handshake-IsServed fs req req.target req.value c h
