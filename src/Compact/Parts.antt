-- ===== src/Compact/Parts.antt =====
-- The codecs of compact.cpp as parts of messages, for each codec that the messages use.
use hyperdht_cpp.Prelude.{ℕ, ◌≡◌, ◌++◌, length, Option, List, IsU16, IsU64, IsArray}
use hyperdht_cpp.Compact.State.{State, advance, le16}
use hyperdht_cpp.Compact.Cursor.{Unread}
use hyperdht_cpp.Compact.Address.{Address, ipv4_addr, IsAddress, address-IsLawful}
use hyperdht_cpp.Compact.Array.{array, IsArrayOf}
use hyperdht_cpp.Compact.Array.Laws.{array-IsLawful}
use hyperdht_cpp.Compact.Fixed.{fixed, fixed-IsLawful}
use hyperdht_cpp.Compact.Uint.{uint}
use hyperdht_cpp.Compact.Uint.Laws.{uint-IsLawful}
use hyperdht_cpp.Compact.Uint16.{uint16, uint16-IsLawful}
use hyperdht_cpp.Compact.Sequence.{
  checked, if_present, Piece, Piece-codec, Piece-codec_option, Parses, Parses-codec, wire_option,
  ValidOption,
}
use hyperdht_cpp.Compact.Codec.{Codec}
use hyperdht_cpp.Compact.Uint16
use hyperdht_cpp.Compact.Array
use hyperdht_cpp.Compact.Uint
use hyperdht_cpp.Compact.Address

-- An array goes out as it is.
abbrev pub plain : List ℕ → List ℕ
plain bytes = bytes

-- `std::vector<Ipv4Address>`.
abbrev pub ipv4_array : Codec (List Address)
ipv4_array = array ipv4_addr

abbrev pub wire_addresses : List Address → List ℕ
wire_addresses = Array.wire Address.wire

abbrev pub AreAddresses : List Address → Type 0
AreAddresses = IsArrayOf (IsAddress 4)

pub Piece-uint :
    (v : ℕ) → IsU64 v → Piece (λ s. Uint.preencode s v) (λ s. Uint.encode s v) (Uint.wire v)
Piece-uint = Piece-codec uint Uint.wire IsU64 uint-IsLawful

pub Parses-uint : (v : ℕ) → IsU64 v → Parses (checked Uint.decode) v (Uint.wire v)
Parses-uint = Parses-codec uint Uint.wire IsU64 uint-IsLawful

pub Piece-uint16 :
    (v : ℕ) → IsU16 v → Piece (λ s. Uint16.preencode s v) (λ s. Uint16.encode s v) (le16 v)
Piece-uint16 = Piece-codec uint16 le16 IsU16 uint16-IsLawful

pub Parses-uint16 : (v : ℕ) → IsU16 v → Parses (checked Uint16.decode) v (le16 v)
Parses-uint16 = Parses-codec uint16 le16 IsU16 uint16-IsLawful

pub Piece-ipv4 :
    (v : Address)
    → IsAddress 4 v
    → Piece (λ s. ipv4_addr.preencode s v) (λ s. ipv4_addr.encode s v) (Address.wire v)
Piece-ipv4 = Piece-codec ipv4_addr Address.wire (IsAddress 4) (address-IsLawful 4)

pub Parses-ipv4 :
    (v : Address) → IsAddress 4 v → Parses (checked ipv4_addr.decode) v (Address.wire v)
Parses-ipv4 = Parses-codec ipv4_addr Address.wire (IsAddress 4) (address-IsLawful 4)

pub Piece-ipv4_array :
    (v : List Address)
    → AreAddresses v
    → Piece (λ s. ipv4_array.preencode s v) (λ s. ipv4_array.encode s v) (wire_addresses v)
Piece-ipv4_array =
    Piece-codec ipv4_array wire_addresses AreAddresses
      (array-IsLawful ipv4_addr Address.wire (IsAddress 4) (address-IsLawful 4))

pub Parses-ipv4_array :
    (v : List Address) → AreAddresses v → Parses (checked ipv4_array.decode) v (wire_addresses v)
Parses-ipv4_array =
    Parses-codec ipv4_array wire_addresses AreAddresses
      (array-IsLawful ipv4_addr Address.wire (IsAddress 4) (address-IsLawful 4))

pub Piece-fixed :
    (n : ℕ) (v : List ℕ)
    → IsArray n v
    → Piece (λ s. (fixed n).preencode s v) (λ s. (fixed n).encode s v) v
Piece-fixed n = Piece-codec (fixed n) plain (IsArray n) (fixed-IsLawful n)

pub Parses-fixed : (n : ℕ) (v : List ℕ) → IsArray n v → Parses (checked (fixed n).decode) v v
Parses-fixed n = Parses-codec (fixed n) plain (IsArray n) (fixed-IsLawful n)

pub Piece-fixed_option :
    (n : ℕ) (o : Option (List ℕ))
    → ValidOption (IsArray n) o
    → Piece
        (λ s. if_present (fixed n).preencode s o)
        (λ s. if_present (fixed n).encode s o)
        (wire_option plain o)
Piece-fixed_option n = Piece-codec_option (fixed n) plain (IsArray n) (fixed-IsLawful n)

-- What each decoder reads, as the raw functions of the cursor.
abbrev pub ReadsAs : {A : Type 0} → (State → A × State) → A → List ℕ → Type 0
ReadsAs {A} read v bytes =
    (s : State) (rest : List ℕ) → Unread s (bytes ++ rest) → read s ≡ (v, advance s (length bytes))

pub fixed_reads : (n : ℕ) (v : List ℕ) → IsArray n v → ReadsAs (fixed n).decode v v
fixed_reads n v h s rest u = (fixed-IsLawful n).decode_lem s v rest h u

pub uint_reads : (v : ℕ) → IsU64 v → ReadsAs Uint.decode v (Uint.wire v)
uint_reads v h s rest u = uint-IsLawful.decode_lem s v rest h u

pub ipv4_array_reads :
    (v : List Address) → AreAddresses v → ReadsAs ipv4_array.decode v (wire_addresses v)
ipv4_array_reads v h s rest u =
    (array-IsLawful ipv4_addr Address.wire (IsAddress 4) (address-IsLawful 4)).decode_lem s v rest h
      u
