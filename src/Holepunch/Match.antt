-- ===== src/Holepunch/Match.antt =====
-- `match_address` of holepunch.cpp.
pub mod Laws
use hyperdht_cpp.Prelude.{ℕ, not, Option, none, some, List, [], ◌∷◌, if◌then◌else◌, ltb, ◌==◌}
use hyperdht_cpp.Compact.Address.{Address}

-- The best address so far: how many bytes of its host are shared, and the address.
abbrev pub improve : ℕ → Address → ℕ × Option Address → ℕ × Option Address
improve segment a best = if ltb best.0 segment then (segment, some a) else best

-- The first three bytes that two hosts share.
abbrev pub shared : List ℕ → List ℕ → ℕ
shared (a ∷ (b ∷ (c ∷ as'))) (x ∷ (y ∷ (z ∷ xs))) =
    if not (a == x) then 0 else if not (b == y) then 1 else if not (c == z) then 2 else 3
shared as' xs = 0

-- The inner loop of `match_address`, which stops at three shared bytes.
abbrev pub match_remotes : List ℕ → List Address → ℕ × Option Address → (ℕ × Option Address)
match_remotes host [] best = best
match_remotes host (r ∷ rs) best =
    if shared host r.host == 3
    then (3, some r)
    else match_remotes host rs (improve (shared host r.host) r best)

abbrev pub match_locals : List Address → List Address → ℕ × Option Address → ℕ × Option Address
match_locals [] remotes best = best
match_locals (l ∷ ls) remotes best =
    let found = match_remotes l.host remotes best in
    if found.0 == 3 then found else match_locals ls remotes found

unfoldable pub match_address : List Address → List Address → Option Address
match_address my_addresses remote_addresses =
    (match_locals my_addresses remote_addresses (0, none)).1
