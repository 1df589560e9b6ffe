-- ===== src/DhtMessages/Mutable/RoundTrip.antt =====
-- The encoders of mutable values against their decoders.
use hyperdht_cpp.Prelude.{
  ℕ, ◌≡◌, ap, sym, ◌∙◌, none, some, List, [], ◌∷◌, ◌++◌, length, replicate, IsArray, IsU64,
}
use hyperdht_cpp.Compact.State.{State, for_decode}
use hyperdht_cpp.Compact.Fixed.{fixed32, fixed64}
use hyperdht_cpp.Compact.Parts.{Piece-uint, Piece-fixed, fixed_reads, uint_reads}
use hyperdht_cpp.Compact.Sequence.{run_lem, Piece, Piece-append}
use hyperdht_cpp.Compact.Buffer
use hyperdht_cpp.Compact.Uint
use hyperdht_cpp.Messages.Field.{preencode_value, encode_value, wire_value, IsValue, Piece-value}
use hyperdht_cpp.DhtMessages.Partial.{
  Partial, result, ◌>>=◌, Fills, Fills-bind, Fills-assign, Fills-assign_checked, Fills-result,
}
use hyperdht_cpp.DhtMessages.Mutable.{
  MutableGetResponse, MutablePutRequest, blank_get, blank_put, preencode_put, encode_put,
  encode_mutable_put, put_put_value, key_step, seq_step, value_step, signature_step,
  decode_mutable_put, preencode_get, encode_get, encode_mutable_get_resp, put_get_value,
  get_seq_step, get_value_step, get_signature_step, decode_mutable_get_resp,
  encode_mutable_signable, value_reads,
}

-- The bytes that are signed.
abbrev pub wire_signable : ℕ → List ℕ → List ℕ
wire_signable seq value = Uint.wire seq ++ wire_value value

abbrev pub wire_get : MutableGetResponse → List ℕ
wire_get m = wire_signable m.seq m.value ++ m.signature

abbrev pub wire_put : MutablePutRequest → List ℕ
wire_put m = ((m.public_key ++ Uint.wire m.seq) ++ wire_value m.value) ++ m.signature

pub record IsGet (m : MutableGetResponse) : Type 0 where
  pub seq_range : IsU64 m.seq
  pub value_cap : IsValue m.value
  pub signature_array : IsArray 64 m.signature

pub record IsPut (m : MutablePutRequest) : Type 0 where
  pub key_array : IsArray 32 m.public_key
  pub seq_range : IsU64 m.seq
  pub value_cap : IsValue m.value
  pub signature_array : IsArray 64 m.signature

fill_get_value :
    (seq : ℕ) (v : List ℕ)
    → IsValue v
    → Fills get_value_step
        (record blank_get { seq = seq })
        (record blank_get { seq = seq; value = v })
        (wire_value v)
fill_get_value seq [] h =
    Fills-assign_checked Buffer.decode put_get_value (record blank_get { seq = seq }) none
      (wire_value []) (value_reads [] h)
fill_get_value seq (b ∷ v) h =
    Fills-assign_checked Buffer.decode put_get_value (record blank_get { seq = seq }) (some (b ∷ v))
      (wire_value (b ∷ v)) (value_reads (b ∷ v) h)

fill_put_value :
    (key : List ℕ) (seq : ℕ) (v : List ℕ)
    → IsValue v
    → Fills value_step
        (record blank_put { public_key = key; seq = seq })
        (record blank_put { public_key = key; seq = seq; value = v })
        (wire_value v)
fill_put_value key seq [] h =
    Fills-assign_checked Buffer.decode put_put_value
      (record blank_put { public_key = key; seq = seq }) none (wire_value []) (value_reads [] h)
fill_put_value key seq (b ∷ v) h =
    Fills-assign_checked Buffer.decode put_put_value
      (record blank_put { public_key = key; seq = seq }) (some (b ∷ v)) (wire_value (b ∷ v))
      (value_reads (b ∷ v) h)

Piece-signable :
    (seq : ℕ) (v : List ℕ)
    → IsU64 seq
    → IsValue v
    → Piece
        (λ s. preencode_value (Uint.preencode s seq) v)
        (λ s. encode_value (Uint.encode s seq) v)
        (wire_signable seq v)
Piece-signable seq v h k = Piece-append (Piece-uint seq h) (Piece-value v k)

Piece-get : (m : MutableGetResponse) → IsGet m → Piece (preencode_get m) (encode_get m) (wire_get m)
unfolding preencode_get encode_get
Piece-get m h =
    Piece-append (Piece-signable m.seq m.value h.seq_range h.value_cap)
      (Piece-fixed 64 m.signature h.signature_array)

Piece-put : (m : MutablePutRequest) → IsPut m → Piece (preencode_put m) (encode_put m) (wire_put m)
unfolding preencode_put encode_put
Piece-put m h =
    Piece-append
      (Piece-append
        (Piece-append (Piece-fixed 32 m.public_key h.key_array) (Piece-uint m.seq h.seq_range))
        (Piece-value m.value h.value_cap))
      (Piece-fixed 64 m.signature h.signature_array)

abbrev fill_get : MutableGetResponse → State → Partial MutableGetResponse
fill_get m s = (get_seq_step m s >>= get_value_step) >>= get_signature_step

Fills-get : (m : MutableGetResponse) → IsGet m → Fills fill_get blank_get m (wire_get m)
Fills-get m h =
    Fills-bind two get_signature_step blank_get upto_value m _ _
      (Fills-bind get_seq_step get_value_step blank_get upto_seq upto_value _ _
        (Fills-assign Uint.decode (λ m v. record m { seq = v }) blank_get m.seq (Uint.wire m.seq)
          (uint_reads m.seq h.seq_range))
        (fill_get_value m.seq m.value h.value_cap))
      (Fills-assign fixed64.decode (λ m v. record m { signature = v }) upto_value m.signature
        m.signature (fixed_reads 64 m.signature h.signature_array))
  where
    two : MutableGetResponse → State → Partial MutableGetResponse
    two m s = get_seq_step m s >>= get_value_step

    upto_seq : MutableGetResponse
    upto_seq = record blank_get { seq = m.seq }

    upto_value : MutableGetResponse
    upto_value = record blank_get { seq = m.seq; value = m.value }

abbrev fill_put : MutablePutRequest → State → Partial MutablePutRequest
fill_put m s = ((key_step m s >>= seq_step) >>= value_step) >>= signature_step

Fills-put : (m : MutablePutRequest) → IsPut m → Fills fill_put blank_put m (wire_put m)
Fills-put m h =
    Fills-bind three signature_step blank_put upto_value m _ _
      (Fills-bind two value_step blank_put upto_seq upto_value _ _
        (Fills-bind key_step seq_step blank_put upto_key upto_seq _ _
          (Fills-assign fixed32.decode (λ m v. record m { public_key = v }) blank_put m.public_key
            m.public_key (fixed_reads 32 m.public_key h.key_array))
          (Fills-assign Uint.decode (λ m v. record m { seq = v }) upto_key m.seq (Uint.wire m.seq)
            (uint_reads m.seq h.seq_range)))
        (fill_put_value m.public_key m.seq m.value h.value_cap))
      (Fills-assign fixed64.decode (λ m v. record m { signature = v }) upto_value m.signature
        m.signature (fixed_reads 64 m.signature h.signature_array))
  where
    two : MutablePutRequest → State → Partial MutablePutRequest
    two m s = key_step m s >>= seq_step

    three : MutablePutRequest → State → Partial MutablePutRequest
    three m s = two m s >>= value_step

    upto_key : MutablePutRequest
    upto_key = record blank_put { public_key = m.public_key }

    upto_seq : MutablePutRequest
    upto_seq = record blank_put { public_key = m.public_key; seq = m.seq }

    upto_value : MutablePutRequest
    upto_value = record m { signature = replicate 64 0 }

-- The answer to a mutable get with valid fields reads back, and it is the bytes that were
-- signed followed by the signature.
pub decode_mutable_get_resp-encode :
    (m : MutableGetResponse)
    → IsGet m
    → IsU64 (length (wire_get m))
    → IsU64 (length (wire_signable m.seq m.value))
    → (decode_mutable_get_resp (encode_mutable_get_resp m) ≡ m)
      × (encode_mutable_get_resp m ≡ encode_mutable_signable m.seq m.value ++ m.signature)
unfolding decode_mutable_get_resp encode_mutable_get_resp encode_mutable_signable
decode_mutable_get_resp-encode m h k l =
    let written = run_lem (Piece-get m h) k in
    (
      ap (λ (bytes : List ℕ). result (fill_get blank_get (for_decode bytes))) written
          ∙ Fills-result fill_get blank_get m (wire_get m) (Fills-get m h),
      written
          ∙ ap (λ (bytes : List ℕ). bytes ++ m.signature)
              (sym (run_lem (Piece-signable m.seq m.value h.seq_range h.value_cap) l)),
    )

-- A mutable put request with valid fields reads back.
pub decode_mutable_put-encode :
    (m : MutablePutRequest)
    → IsPut m
    → IsU64 (length (wire_put m))
    → decode_mutable_put (encode_mutable_put m) ≡ m
unfolding decode_mutable_put encode_mutable_put
decode_mutable_put-encode m h k =
    ap (λ (bytes : List ℕ). result (fill_put blank_put (for_decode bytes)))
      (run_lem (Piece-put m h) k)
    ∙ Fills-result fill_put blank_put m (wire_put m) (Fills-put m h)
