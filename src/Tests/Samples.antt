-- ===== src/Tests/Samples.antt =====
-- A sampler with one sample, and lists of samples.
use hyperdht_cpp.Prelude.{ℕ, ◌+◌, ◌≡◌, refl, ◌&&◌, ◌==◌, [], ◌∷◌, arith, if◌then◌else◌}
use hyperdht_cpp.Compact.Address.{Address}
use hyperdht_cpp.Routing.Id.{id_eq}
use hyperdht_cpp.Nat.{Sample, reset, add, add_sample}
use hyperdht_cpp.Nat.Hits.{tally, total, add_sample_lem, add_sample_third}
use hyperdht_cpp.Nat.Invariant.{IsSampler, add-IsSampler}

abbrev sample : ℕ → Sample
sample port = record { host = 1 ∷ (2 ∷ (3 ∷ (4 ∷ []))); port = port; hits = 1 }

abbrev node : ℕ → Address
node port = record { host = 1 ∷ (2 ∷ (3 ∷ (4 ∷ []))); port = port }

reset-IsSampler : IsSampler reset
reset-IsSampler = record {
  counted = refl;
  bounded = omega arith;
  distinct = tt;
  full = refl;
  hosts = refl;
  offered = omega arith;
}

add-IsSampler_example : IsSampler (add reset (node 1) (node 2)).0
add-IsSampler_example = add-IsSampler reset (node 1) (node 2) reset-IsSampler

add_sample_lem_example :
    (tally (node 1).host 2 (add_sample (sample 1 ∷ []) (node 1).host 2)
      ≡ tally (node 1).host 2 (sample 1 ∷ [])
        + (if id_eq (node 1).host (node 1).host && (2 == 2) then 1 else 0))
    × (total (add_sample (sample 1 ∷ []) (node 1).host 2) ≡ total (sample 1 ∷ []) + 1)
add_sample_lem_example = add_sample_lem (sample 1 ∷ []) (node 1).host 2 (node 1).host 2

add_sample_third_example :
    add_sample (sample 1 ∷ (sample 2 ∷ (sample 3 ∷ []))) (sample 3).host 3
    ≡ (sample 1 ∷ (record (sample 3) { hits = 2 } ∷ (sample 2 ∷ [])))
unfolding id_eq
add_sample_third_example =
    add_sample_third (sample 1) (sample 2) (sample 3) [] refl refl refl refl refl
