-- ===== src/DhtMessages/Mutable.antt =====
-- `MutablePutRequest`, `MutableGetResponse` and the bytes that a mutable value is signed over.
pub mod RoundTrip
use hyperdht_cpp.Prelude.{
  ℕ, ◌≡◌, ◌≤◌, refl, ap, ◌∙◌, Option, none, some, List, [], ◌∷◌, ◌++◌, length, replicate, IsArray,
  IsU64, arith,
}
use hyperdht_cpp.Compact.State.{State, for_decode}
use hyperdht_cpp.Compact.Buffer.{buffer-IsLawful}
use hyperdht_cpp.Compact.Fixed.{fixed, fixed32, fixed64}
use hyperdht_cpp.Compact.Parts.{Piece-uint, Piece-fixed, ReadsAs, fixed_reads, uint_reads}
use hyperdht_cpp.Compact.Sequence.{run, run_lem, Piece, Piece-append}
use hyperdht_cpp.Compact.Buffer
use hyperdht_cpp.Compact.Uint
use hyperdht_cpp.Messages.Field.{preencode_value, encode_value, wire_value, IsValue, Piece-value}
use hyperdht_cpp.DhtMessages.Partial.{
  Partial, result, assign, assign_checked, ◌>>=◌, Fills, Fills-bind, Fills-assign,
  Fills-assign_checked, Fills-result,
}

pub record MutableGetResponse : Type 0 where
  pub seq : ℕ
  pub value : List ℕ
  pub signature : List ℕ

pub record MutablePutRequest : Type 0 where
  pub public_key : List ℕ
  pub seq : ℕ
  pub value : List ℕ
  pub signature : List ℕ

abbrev pub blank_get : MutableGetResponse
blank_get = record { seq = 0; value = []; signature = replicate 64 0 }

abbrev pub blank_put : MutablePutRequest
blank_put = record { public_key = replicate 32 0; seq = 0; value = []; signature = replicate 64 0 }

unfoldable pub preencode_put : MutablePutRequest → State → State
preencode_put m s0 =
    let s1 = fixed32.preencode s0 m.public_key in
    let s2 = Uint.preencode s1 m.seq in
    let s3 = preencode_value s2 m.value in fixed64.preencode s3 m.signature

unfoldable pub encode_put : MutablePutRequest → State → State
encode_put m s0 =
    let s1 = fixed32.encode s0 m.public_key in
    let s2 = Uint.encode s1 m.seq in
    let s3 = encode_value s2 m.value in fixed64.encode s3 m.signature

unfoldable pub encode_mutable_put : MutablePutRequest → List ℕ
encode_mutable_put m = run (preencode_put m) (encode_put m)

-- `if (!val.is_null()) m.value.assign(...)`: null leaves the value empty.
abbrev pub put_put_value : MutablePutRequest → Option (List ℕ) → MutablePutRequest
put_put_value m none = m
put_put_value m (some v) = record m { value = v }

abbrev pub key_step : MutablePutRequest → State → Partial MutablePutRequest
key_step = assign fixed32.decode (λ m v. record m { public_key = v })

abbrev pub seq_step : MutablePutRequest → State → Partial MutablePutRequest
seq_step = assign Uint.decode (λ m v. record m { seq = v })

abbrev pub value_step : MutablePutRequest → State → Partial MutablePutRequest
value_step = assign_checked Buffer.decode put_put_value

abbrev pub signature_step : MutablePutRequest → State → Partial MutablePutRequest
signature_step = assign fixed64.decode (λ m v. record m { signature = v })

unfoldable pub decode_mutable_put : List ℕ → MutablePutRequest
decode_mutable_put bytes =
    result
      (((key_step blank_put (for_decode bytes) >>= seq_step) >>= value_step) >>= signature_step)

unfoldable pub preencode_get : MutableGetResponse → State → State
preencode_get m s0 =
    let s1 = Uint.preencode s0 m.seq in
    let s2 = preencode_value s1 m.value in fixed64.preencode s2 m.signature

unfoldable pub encode_get : MutableGetResponse → State → State
encode_get m s0 =
    let s1 = Uint.encode s0 m.seq in
    let s2 = encode_value s1 m.value in fixed64.encode s2 m.signature

unfoldable pub encode_mutable_get_resp : MutableGetResponse → List ℕ
encode_mutable_get_resp m = run (preencode_get m) (encode_get m)

abbrev pub put_get_value : MutableGetResponse → Option (List ℕ) → MutableGetResponse
put_get_value m none = m
put_get_value m (some v) = record m { value = v }

abbrev pub get_seq_step : MutableGetResponse → State → Partial MutableGetResponse
get_seq_step = assign Uint.decode (λ m v. record m { seq = v })

abbrev pub get_value_step : MutableGetResponse → State → Partial MutableGetResponse
get_value_step = assign_checked Buffer.decode put_get_value

abbrev pub get_signature_step : MutableGetResponse → State → Partial MutableGetResponse
get_signature_step = assign fixed64.decode (λ m v. record m { signature = v })

unfoldable pub decode_mutable_get_resp : List ℕ → MutableGetResponse
decode_mutable_get_resp bytes =
    result ((get_seq_step blank_get (for_decode bytes) >>= get_value_step) >>= get_signature_step)

unfoldable pub encode_mutable_signable : ℕ → List ℕ → List ℕ
encode_mutable_signable seq value =
    run (λ s. preencode_value (Uint.preencode s seq) value)
      (λ s. encode_value (Uint.encode s seq) value)

-- What null and the empty buffer read as.
abbrev pub nullable : List ℕ → Option (List ℕ)
nullable [] = none
nullable (b ∷ bytes) = some (b ∷ bytes)

pub value_reads : (v : List ℕ) → IsValue v → ReadsAs Buffer.decode (nullable v) (wire_value v)
value_reads [] h s rest u = buffer-IsLawful.decode_lem s none rest tt u
value_reads (b ∷ bytes) h s rest u =
    buffer-IsLawful.decode_lem s (some (b ∷ bytes)) rest (omega arith) u
