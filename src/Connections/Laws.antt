-- ===== src/Connections/Laws.antt =====
-- About `ConnectionPool::attach_stream` and `should_keep_new` of connection_pool.cpp.
use hyperdht_cpp.Prelude.{
  ℕ, ◌≡◌, refl, ap, sym, ◌∙◌, Bool, true, false, ◌&&◌, not, Option, none, some, List, [], ◌∷◌,
  if◌then◌else◌, Bool-cases, inl, inr, if_cases, if-true, if-false,
}
use hyperdht_cpp.Routing.Id.{id_eq, id_lt}
use hyperdht_cpp.Routing.Id.Metric.{id_eq_sound, id_lt_trans, id_lt_irrefl, id_lt_total}
use hyperdht_cpp.Connections.{
  ConnectionRef, Pool, AttachResult, attached, duplicate_kept_new, duplicate_kept_old, Attached,
  find, erase, write, should_keep_new, same_mode, first_found, get, remove, attach_new,
  attach_beside, attach_stream,
}

abbrev pub is_kept_old : AttachResult → Bool
is_kept_old attached = false
is_kept_old duplicate_kept_new = false
is_kept_old duplicate_kept_old = true

other_key : (a k j : List ℕ) → id_eq a k ≡ false → id_eq a j ≡ true → id_eq k j ≡ false
other_key a k j q r = elim (Bool-cases (id_eq k j)) [
  | inl s ↦ absurd (cc (sym q ∙ ap (id_eq a) (id_eq_sound k j s) ∙ r))
  | inr s ↦ s
]

find-erase :
    (cs : List ConnectionRef) (k j : List ℕ)
    → find (erase cs k) j ≡ (if id_eq k j then none else find cs j)
find-erase [] k j = elim (Bool-cases (id_eq k j)) [ inl r ↦ rw r refl | inr r ↦ rw r refl ]
find-erase (c ∷ cs) k j = elim (Bool-cases (id_eq c.remote_public_key k)) [
  | inl q ↦
      let same : id_eq c.remote_public_key j ≡ id_eq k j =
        ap (λ (i : List ℕ). id_eq i j) (id_eq_sound c.remote_public_key k q) in
      rw (q, same, find-erase cs k j)
        (elim (Bool-cases (id_eq k j)) [ inl r ↦ rw r refl | inr r ↦ rw r refl ])
  | inr q ↦ rw q (elim (Bool-cases (id_eq c.remote_public_key j)) [
    | inl r ↦ rw (r, other_key c.remote_public_key k j q r) refl
    | inr r ↦ rw r (find-erase cs k j)
  ])
]

find-write :
    (cs : List ConnectionRef) (c : ConnectionRef) (j : List ℕ)
    → find (write cs c) j ≡ (if id_eq c.remote_public_key j then some c else find cs j)
find-write cs c j = elim (Bool-cases (id_eq c.remote_public_key j)) [
  | inl q ↦ rw q refl
  | inr q ↦ rw (q, find-erase cs c.remote_public_key j) (rw q refl)
]

get-remove : (p : Pool) (k j : List ℕ) → get (remove p k) j ≡ (if id_eq k j then none else get p j)
unfolding get remove
get-remove p k j =
    rw (find-erase p.connections k j, find-erase p.connecting k j)
      (elim (Bool-cases (id_eq k j)) [ inl q ↦ rw q refl | inr q ↦ rw q refl ])

missing : (a b : Option ConnectionRef) → first_found a b ≡ none → a ≡ none
missing none b h = refl
missing (some c) b h = absurd (cc h)

get-attach_new :
    (p : Pool) (c : ConnectionRef) (opened : Bool) (j : List ℕ)
    → get p c.remote_public_key ≡ none
    → get (attach_new p c opened) j ≡ (if id_eq c.remote_public_key j then some c else get p j)
unfolding get
get-attach_new p c true j h =
    rw (find-write p.connections c j)
      (elim (Bool-cases (id_eq c.remote_public_key j)) [ inl q ↦ rw q refl | inr q ↦ rw q refl ])
get-attach_new p c false j h =
    rw (find-write p.connecting c j) (elim (Bool-cases (id_eq c.remote_public_key j)) [
      | inl q ↦
          let free : find p.connections j ≡ none =
            ap (find p.connections) (sym (id_eq_sound c.remote_public_key j q)) ∙ missing _ _ h in
          rw (q, free) refl
      | inr q ↦ rw q refl
    ])

find_key :
    (cs : List ConnectionRef) (k : List ℕ) (c : ConnectionRef)
    → find cs k ≡ some c
    → id_eq c.remote_public_key k ≡ true
find_key [] k c h = absurd (cc h)
find_key (d ∷ cs) k c h = elim (Bool-cases (id_eq d.remote_public_key k)) [
  | inl q ↦
      let first : ◌≡◌ {A = Option ConnectionRef} (some d) (some c) = (rw q at h) in
      ap
        (λ (o : Option ConnectionRef). id_eq (elim o [ none ↦ k | some e ↦ e.remote_public_key ]) k)
        (sym first)
      ∙ q
  | inr q ↦ find_key cs k c (rw q at h)
]

first_found_key :
    (k : List ℕ) (p : Pool) (c : ConnectionRef) (a b : Option ConnectionRef)
    → find p.connections k ≡ a
    → find p.connecting k ≡ b
    → first_found a b ≡ some c
    → id_eq c.remote_public_key k ≡ true
first_found_key k p c none b ea eb h = find_key p.connecting k c (eb ∙ h)
first_found_key k p c (some d) b ea eb h = find_key p.connections k c (ea ∙ h)

get_key :
    (p : Pool) (k : List ℕ) (c : ConnectionRef)
    → get p k ≡ some c
    → id_eq c.remote_public_key k ≡ true
unfolding get
get_key p k c h = first_found_key k p c _ _ refl refl h

-- What `attach_stream` promises of its result.
abbrev IsAttached : Pool → ConnectionRef → Attached → Type 0
IsAttached p c r =
    (j : List ℕ)
    → get r.pool j
      ≡ (if id_eq c.remote_public_key j && not (is_kept_old r.outcome) then some c else get p j)

replaced :
    (p : Pool) (c old : ConnectionRef) (opened : Bool) (j : List ℕ)
    → id_eq old.remote_public_key c.remote_public_key ≡ true
    → get (attach_new (remove p old.remote_public_key) c opened) j
      ≡ (if id_eq c.remote_public_key j then some c else get p j)
replaced p c old opened j q =
    let same : id_eq old.remote_public_key j ≡ id_eq c.remote_public_key j =
      ap (λ (i : List ℕ). id_eq i j) (id_eq_sound old.remote_public_key c.remote_public_key q) in
    let gone : get (remove p old.remote_public_key) c.remote_public_key ≡ none =
      get-remove p old.remote_public_key c.remote_public_key
      ∙ if-true none (get p c.remote_public_key) _ q in
    get-attach_new (remove p old.remote_public_key) c opened j gone
    ∙ elim (Bool-cases (id_eq c.remote_public_key j)) [
      | inl r ↦ rw r refl
      | inr r ↦
          let apart : id_eq old.remote_public_key j ≡ false = same ∙ r in
          rw r (get-remove p old.remote_public_key j ∙ if-false none (get p j) _ apart)
    ]

keeps_new :
    (b : Bool) (x y : Option ConnectionRef) → (if b && true then x else y) ≡ (if b then x else y)
keeps_new true x y = refl
keeps_new false x y = refl

keeps_old : (b : Bool) (x y : Option ConnectionRef) → (if b && false then x else y) ≡ y
keeps_old true x y = refl
keeps_old false x y = refl

attach_beside-IsAttached :
    (o : Option ConnectionRef) (p : Pool) (c : ConnectionRef) (opened : Bool)
    → get p c.remote_public_key ≡ o
    → IsAttached p c (attach_beside o p c opened)
attach_beside-IsAttached none p c opened h = λ j.
    get-attach_new p c opened j h ∙ sym (keeps_new (id_eq c.remote_public_key j) (some c) (get p j))
attach_beside-IsAttached (some old) p c opened h =
    if_cases _ _ (IsAttached p c) (should_keep_new old c)
      (λ _ j.
        replaced p c old opened j (get_key p c.remote_public_key old h)
        ∙ sym (keeps_new (id_eq c.remote_public_key j) (some c) (get p j)))
      (λ _ j. sym (keeps_old (id_eq c.remote_public_key j) (some c) (get p j)))

-- After a connection is attached its remote key finds it, unless the old one was kept, then all is
-- as before; every other key finds what it found before.
pub attach_stream-get :
    (p : Pool) (c : ConnectionRef) (opened : Bool) (j : List ℕ)
    → get (attach_stream p c opened).pool j ≡ (
        if id_eq c.remote_public_key j && not (is_kept_old (attach_stream p c opened).outcome)
        then some c
        else get p j)
unfolding attach_stream
attach_stream-get p c opened = attach_beside-IsAttached (get p c.remote_public_key) p c opened refl

not_below : (a b : List ℕ) → id_lt a b ≡ true → id_lt b a ≡ false
not_below a b h = elim (Bool-cases (id_lt b a)) [
  | inl q ↦ absurd (cc (sym (id_lt_irrefl a) ∙ id_lt_trans a b a h q))
  | inr q ↦ q
]

one_below : (a b : List ℕ) → id_eq a b ≡ false → id_lt b a ≡ not (id_lt a b)
one_below a b h = elim (Bool-cases (id_lt a b)) [
  | inl q ↦ rw q (not_below a b q)
  | inr q ↦ rw q (id_lt_total a b q h)
]

-- If both ends of two connections in opposite directions break the tie, and their keys differ, then
-- exactly one of them keeps the new connection.
pub should_keep_new-ends :
    (old c far_old far : ConnectionRef)
    → same_mode c.is_initiator old.is_initiator ≡ false
    → same_mode far.is_initiator far_old.is_initiator ≡ false
    → far.local_public_key ≡ c.remote_public_key
    → far.remote_public_key ≡ c.local_public_key
    → id_eq c.local_public_key c.remote_public_key ≡ false
    → should_keep_new old c ≡ not (should_keep_new far_old far)
unfolding should_keep_new
should_keep_new-ends old c far_old far m n l r d =
    rw (m, n, l, r) (one_below c.local_public_key c.remote_public_key d)
