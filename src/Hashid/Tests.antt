-- ===== src/Hashid/Tests.antt =====
-- Runs of the table of skynet/service-src/hashid.h.
use skynet_server.Common.{ℕ, refl, ◌≡◌, arith, some, ◌+◌, ◌≢◌, none, ◌^◌, ◌≤◌, ◌-◌}
use skynet_server.Hashid.{Hashid, lookup, insert, remove, init, insert_at, hash_cap}
use skynet_server.Hashid.Chains.{IsValid}
use skynet_server.Hashid.Init.{init_lem}
use skynet_server.Hashid.Update.{insert_at-IsValid, insert_lem}
use skynet_server.Hashid.Remove.{remove_lem}

abbrev empty : Hashid
empty = init 2

-- The number 17 in place 1.
abbrev one : Hashid
one = insert_at empty 17 1

empty-IsValid : IsValid empty
empty-IsValid = (init_lem 2).4

range : 17 + empty.cap ≤ 2 ^ 31
unfolding init
range = omega arith

-- The greatest number, when its place is taken: the index of the second round is not an `int`.
abbrev low : Hashid
low = insert_at (init 3) 4 1

insert_overflow : insert low (2 ^ 31 - 1) ≡ none
unfolding insert init
insert_overflow = refl

insert_lem_example :
    (c : ℕ) × (hi' : Hashid) × (insert empty 17 ≡ some (c, hi'))
    × IsValid hi'
    × (hi'.count ≡ 1)
    × (lookup hi' 17 ≡ some c)
    × ((y : ℕ) → y ≢ 17 → lookup hi' y ≡ lookup empty y)
unfolding init
insert_lem_example = insert_lem empty 17 empty-IsValid range (omega arith) (λ k lt e. cc)

one-IsValid : IsValid one
unfolding init
one-IsValid = insert_at-IsValid empty empty-IsValid 17 1 (omega arith) refl (λ k lt e. cc)

remove_lem_example :
    let (r, hi') = remove one 17 in
    (r ≡ some 1)
    × IsValid hi'
    × (hi'.count + 1 ≡ one.count)
    × (lookup hi' 17 ≡ none)
    × ((y : ℕ) → y ≢ 17 → lookup hi' y ≡ lookup one y)
unfolding lookup init hash_cap
remove_lem_example = remove_lem one 17 1 one-IsValid refl
