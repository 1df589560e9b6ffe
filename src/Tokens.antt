-- ===== src/Tokens.antt =====
-- tokens.hpp and tokens.cpp: the tokens that a node gives to a host, under two secrets. The keyed hash
-- of libsodium, `crypto_generichash`, is a parameter: from the input and the key, an empty one for
-- no key.
use hyperdht_cpp.Prelude.{
  ℕ, ◌≡◌, refl, Bool, true, ◌||◌, List, [], if◌then◌else◌, Bool-cases, inl, inr,
}
use hyperdht_cpp.Routing.Id.{id_eq}
use hyperdht_cpp.Routing.Id.Metric.{id_eq_refl}

pub record TokenStore : Type 0 where
  pub current : List ℕ
  pub previous : List ℕ

module _ (generic_hash : List ℕ → List ℕ → List ℕ) where
  abbrev pub generate_token : List ℕ → List ℕ → List ℕ
  generate_token host secret = generic_hash host secret

  -- `std::swap`, then the hash of what is the current secret now.
  unfoldable pub rotate : TokenStore → TokenStore
  rotate s = record { current = generic_hash s.previous []; previous = s.current }

  unfoldable pub create : TokenStore → List ℕ → List ℕ
  create s host = generate_token host s.current

  -- `sodium_memcmp(...) == 0` is the equality of the bytes.
  unfoldable pub validate : TokenStore → List ℕ → List ℕ → Bool
  validate s host token =
      if id_eq token (generate_token host s.current)
      then true
      else id_eq token (generate_token host s.previous)

  -- A token is valid for its host when it is made and after the next rotation; and after two rotations
  -- it is checked against hashes of the two older secrets only.
  pub validate-create :
      (s : TokenStore) (host : List ℕ)
      → (validate s host (create s host) ≡ true)
        × (validate (rotate s) host (create s host) ≡ true)
        × (validate (rotate (rotate s)) host (create s host) ≡ (
            id_eq (create s host) (generate_token host (generic_hash s.current []))
            || id_eq (create s host) (generate_token host (generic_hash s.previous []))))
  unfolding validate create rotate
  validate-create s host =
      let here : id_eq (generic_hash host s.current) (generic_hash host s.current) ≡ true =
        id_eq_refl (generic_hash host s.current) in
      (
        rw here refl,
        elim (Bool-cases (
            id_eq (generic_hash host s.current) (generic_hash host (generic_hash s.previous [])))) [
              | inl e ↦ rw e refl
              | inr e ↦ rw (e, here) refl
            ],
        elim (Bool-cases
            (id_eq (generic_hash host s.current) (generic_hash host (generic_hash s.current [])))) [
              | inl e ↦ rw e refl
              | inr e ↦ rw e refl
            ],
      )
