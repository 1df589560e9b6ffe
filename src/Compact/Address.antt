-- ===== src/Compact/Address.antt =====
-- `Ipv4Address` and `Ipv6Address` of compact.hpp, and their codecs: the host bytes as they are,
-- then the port.
use hyperdht_cpp.Prelude.{
  ℕ, ◌+◌, ◌≡◌, refl, ap, sym, ◌∙◌, ◌||◌, not, List, ◌++◌, append_assoc, length, length-append,
  replicate, arith, if◌then◌else◌, IsArray, IsU16,
}
use hyperdht_cpp.Compact.State.{
  State, fail, grow, advance, has_bytes, write_bytes, read_bytes, le16, read_le16,
}
use hyperdht_cpp.Compact.Cursor.{
  Room, Unread, Within, Room-guarded, Unread-ready, Unread-read, Unread-advance, Within-guarded,
  Within-fail, Within-refl, write_bytes-append, advance-advance,
}
use hyperdht_cpp.Compact.Codec.{Codec, IsLawful}
use hyperdht_cpp.Compact.Word.{read_le16-le16}

-- `Ipv4Address` has 4 host bytes, `Ipv6Address` has 16.
pub record Address : Type 0 where
  pub host : List ℕ
  pub port : ℕ

abbrev pub blank : ℕ → Address
blank n = record { host = replicate n 0; port = 0 }

unfoldable pub preencode : ℕ → State → Address → State
preencode n s v = grow s (n + 2)

unfoldable pub encode : ℕ → State → Address → State
encode n s v =
    if s.error || not (has_bytes s (n + 2))
    then fail s
    else write_bytes (write_bytes s v.host) (le16 v.port)

unfoldable pub decode : ℕ → State → Address × State
decode n s = if s.error || not (has_bytes s (n + 2)) then (blank n, fail s) else (
  record { host = read_bytes s n; port = read_le16 (read_bytes (advance s n) 2) },
  advance (advance s n) 2,
)

abbrev pub address : ℕ → Codec Address
address n = record { preencode = preencode n; encode = encode n; decode = decode n }

abbrev pub ipv4_addr : Codec Address
ipv4_addr = address 4

abbrev pub ipv6_addr : Codec Address
ipv6_addr = address 16

abbrev pub wire : Address → List ℕ
wire v = v.host ++ le16 v.port

pub record IsAddress (n : ℕ) (v : Address) : Type 0 where
  pub host_array : IsArray n v.host
  pub port_range : IsU16 v.port

pub length-wire : (n : ℕ) (v : Address) → IsAddress n v → length (wire v) ≡ n + 2
unfolding le16
length-wire n v h =
    let e : length v.host ≡ n = h.host_array.sized in
    omega (arith, length-append v.host (le16 v.port))

decode_lem :
    (n : ℕ) (s : State) (v : Address) (rest : List ℕ)
    → IsAddress n v
    → Unread s (wire v ++ rest)
    → decode n s ≡ (v, advance s (n + 2))
unfolding decode
decode_lem n s v rest h u =
    rw
      (Unread-ready s (wire v ++ rest) (n + 2) u
        (omega (arith, length-append (wire v) rest, length-wire n v h)))
      (λ i. (record { host = hosts i; port = ports i }, advance-advance s n 2 (n + 2) refl i))
  where
    size : length v.host ≡ n
    size = h.host_array.sized

    all : Unread s (v.host ++ (le16 v.port ++ rest))
    all = rw (← append_assoc v.host (le16 v.port) rest) u

    behind : Unread (advance s n) (le16 v.port ++ rest)
    behind = rw (← size) (Unread-advance s v.host (le16 v.port ++ rest) all)

    hosts : read_bytes s n ≡ v.host
    hosts = rw (← size) (Unread-read s v.host (le16 v.port ++ rest) all)

    word : read_bytes (advance s n) 2 ≡ le16 v.port
    word = unfold le16 in Unread-read (advance s n) (le16 v.port) rest behind

    ports : read_le16 (read_bytes (advance s n) 2) ≡ v.port
    ports = ap read_le16 word ∙ read_le16-le16 v.port h.port_range

encode_lem :
    (n : ℕ) (s : State) (v : Address)
    → IsAddress n v
    → Room s (n + 2)
    → encode n s v ≡ write_bytes s (wire v)
unfolding encode
encode_lem n s v h r =
    rw (Room-guarded s (n + 2) (n + 2) r (omega arith)) (write_bytes-append s v.host (le16 v.port))

decode-Within : (n : ℕ) (s : State) → Within s (decode n s).1
unfolding decode
decode-Within n s =
    Within-guarded s (n + 2)
      (
        record { host = read_bytes s n; port = read_le16 (read_bytes (advance s n) 2) },
        advance (advance s n) 2,
      )
      (blank n, fail s) (rw (advance-advance s n 2 (n + 2) refl) (Within-refl (advance s (n + 2))))
      (Within-fail s)

-- An address of n host bytes has the format of those and two bytes of the port: the size pass
-- adds the length of that format, encoding into enough room writes it, decoding it gives the
-- value back and stops behind it, and no input makes the decoder leave it.
pub address-IsLawful : (n : ℕ) → IsLawful (address n) wire (IsAddress n)
unfolding preencode
address-IsLawful n = record {
  preencode_lem = λ s v h. ap (grow s) (sym (length-wire n v h));
  encode_lem = λ s v h r. encode_lem n s v h (rw (length-wire n v h) at r);
  decode_lem = λ s v rest h u.
      decode_lem n s v rest h u ∙ ap (λ (k : ℕ). (v, advance s k)) (sym (length-wire n v h));
  decode_Within = decode-Within n;
}
