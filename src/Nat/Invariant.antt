-- ===== src/Nat/Invariant.antt =====
-- The state of `NatSampler` in nat_sampler.cpp, and `NatSampler::add`.
use hyperdht_cpp.Prelude.{
  ℕ, ◌+◌, ◌<◌, ◌≤◌, ◌≡◌, refl, ap, ◌∙◌, Bool, true, false, ◌&&◌, ◌||◌, not, List, [], ◌∷◌, ◌++◌,
  ltb, leb, ◌==◌, length, length-append, arith, if_cases,
}
use hyperdht_cpp.Compact.Address.{Address}
use hyperdht_cpp.Nat.{
  Firewall, unknown, consistent, random, Sample, Sampler, is_visited, select, address_of,
  addresses_for, classify, update_firewall, update_addresses, record_sample, reclassify, top_sample,
  add, hits_at,
}
use hyperdht_cpp.Nat.Hits.{total, add_sample_lem}

-- No source is sampled twice.
abbrev pub IsDistinct : List Address → Type 0
IsDistinct [] = Unit
IsDistinct (v ∷ vs) = (is_visited vs v ≡ false) × IsDistinct vs

pub record IsSampler (n : Sampler) : Type 0 where
  pub counted : n.sampled ≡ length n.visited
  pub bounded : n.sampled ≤ 1024
  pub distinct : IsDistinct n.visited
  pub full : total n.samples_full ≡ n.sampled
  pub hosts : total n.samples_host ≡ n.sampled
  pub offered : length n.addresses ≤ 4

select_bound :
    (ss : List Sample) (chosen : List Address) → length chosen ≤ 4 → length (select chosen ss) ≤ 4
unfolding select
select_bound [] chosen h = h
select_bound (s ∷ ss) chosen h =
    if_cases _ _ (λ (r : List Address). length r ≤ 4) (leb 4 (length chosen)) (λ _. h)
      (λ room.
        if_cases _ _ (λ (r : List Address). length r ≤ 4) (leb 2 s.hits || ltb (length chosen) 2)
          (λ _.
            select_bound ss (chosen ++ (address_of s ∷ []))
              (ground (arith, length-append chosen (address_of s ∷ []), room)))
          (λ _. select_bound ss chosen h))

addresses_bound :
    (f : Firewall) (hosts full : List Sample) → length (addresses_for f hosts full) ≤ 4
addresses_bound unknown hosts full = omega arith
addresses_bound random [] full = omega arith
addresses_bound random (s ∷ hosts) full = omega arith
addresses_bound consistent hosts full = select_bound full [] (omega arith)

firewall-IsSampler :
    (n : Sampler) (f : Firewall) → IsSampler n → IsSampler (record n { firewall = f })
firewall-IsSampler n f v = record {
  counted = v.counted;
  bounded = v.bounded;
  distinct = v.distinct;
  full = v.full;
  hosts = v.hosts;
  offered = v.offered;
}

update_firewall-IsSampler : (n : Sampler) → IsSampler n → IsSampler (update_firewall n)
unfolding update_firewall
update_firewall-IsSampler n v =
    if_cases _ _ IsSampler (ltb n.sampled 3 || (length n.samples_full == 0)) (λ _. v)
      (λ _. firewall-IsSampler n (classify n (hits_at n.samples_full 0)) v)

update_addresses-IsSampler : (n : Sampler) → IsSampler n → IsSampler (update_addresses n)
unfolding update_addresses
update_addresses-IsSampler n v = record {
  counted = v.counted;
  bounded = v.bounded;
  distinct = v.distinct;
  full = v.full;
  hosts = v.hosts;
  offered = addresses_bound n.firewall n.samples_host n.samples_full;
}

record_sample-IsSampler :
    (n : Sampler) (addr source : Address)
    → IsSampler n
    → is_visited n.visited source ≡ false
    → length n.visited < 1024
    → IsSampler (record_sample n addr source)
record_sample-IsSampler n addr source v new room = record {
  counted = omega (arith, v.counted);
  bounded = omega (arith, v.counted, room);
  distinct = (new, v.distinct);
  full = (add_sample_lem n.samples_full addr.host addr.port [] 0).1 ∙ ap (λ (k : ℕ). k + 1) v.full;
  hosts = (add_sample_lem n.samples_host addr.host 0 [] 0).1 ∙ ap (λ (k : ℕ). k + 1) v.hosts;
  offered = v.offered;
}

reclassify-IsSampler : (n : Sampler) → IsSampler n → IsSampler (reclassify n)
reclassify-IsSampler n v =
    if_cases _ _ IsSampler (leb 3 n.sampled && not n.frozen)
      (λ _. update_addresses-IsSampler (update_firewall n) (update_firewall-IsSampler n v)) (λ _. v)

top_sample-IsSampler : (n : Sampler) (ss : List Sample) → IsSampler n → IsSampler (top_sample n ss)
top_sample-IsSampler n [] v = v
top_sample-IsSampler n (s ∷ ss) v = record {
  counted = v.counted;
  bounded = v.bounded;
  distinct = v.distinct;
  full = v.full;
  hosts = v.hosts;
  offered = v.offered;
}

left_false : (a b : Bool) → (a || b) ≡ false → (a ≡ false) × (b ≡ false)
left_false true b h = absurd (cc h)
left_false false b h = (refl, h)

-- Whatever is sampled, the count is the number of the nodes that were asked, none of them twice and
-- 1024 at most, each list has one hit for each, and four addresses are offered at most.
pub add-IsSampler :
    (n : Sampler) (addr source : Address) → IsSampler n → IsSampler (add n addr source).0
unfolding add
add-IsSampler n addr source v =
    if_cases _ _ (λ (r : Sampler × Bool). IsSampler r.0)
      (is_visited n.visited source || leb 1024 (length n.visited)) (λ _. v)
      (λ fresh.
        let parts = left_false _ _ fresh in
        let sampled = reclassify (record_sample n addr source) in
        top_sample-IsSampler sampled sampled.samples_full (
          reclassify-IsSampler (record_sample n addr source)
            (record_sample-IsSampler n addr source v parts.0 (ground (arith, parts.1)))))
