-- ===== src/Handle/Tests.antt =====
-- Runs of the tables of skynet/skynet-src/skynet_handle.c.
use skynet_server.Handle.Names.{HandleName, strcmp}
use skynet_server.Common.{
  ℕ, [], arith, if◌then◌else◌, none, ◌<◌, ◌∷◌, refl, some, ◌==◌, ◌≡◌, ◌≢◌, suc, true, ◌%◌, List,
  zero, ap, get_or,
}
use skynet_server.Handle.{
  Storage, findname, grab, namehandle, handle_mask, register, retire, slot_at, rehash,
}
use skynet_server.Handle.Slots.{IsValid}
use skynet_server.Handle.Retire.{HasNames, live_names, retire_lem}
use skynet_server.Handle.Compact.{keep}
use skynet_server.Handle.Lookup.{Outcome, Sorted, key_at, search_all, search_all-Outcome}
use skynet_server.Handle.Register.{Registers}
use skynet_server.Handle.Fresh.{register-Registers}
use skynet_server.Handle.Naming.{namehandle_new}

abbrev junk : HandleName
junk = record { bytes = []; handle = 77 }

abbrev a_name : HandleName
a_name = record { bytes = 97 ∷ []; handle = 5 }

abbrev b_name : HandleName
b_name = record { bytes = 98 ∷ []; handle = 6 }

abbrev c_name : HandleName
c_name = record { bytes = 99 ∷ []; handle = 5 }

-- The contexts 10 and 11 have the handles 5 and 6.
abbrev handles : ℕ → ℕ
handles c = if c == 10 then 5 else if c == 11 then 6 else 0

abbrev table : Storage
table = record {
  harbor = 0;
  handle_index = 7;
  slot_size = 4;
  slot = none ∷ some 10 ∷ some 11 ∷ none ∷ [];
  name_cap = 4;
  name_count = 3;
  name = a_name ∷ b_name ∷ c_name ∷ junk ∷ [];
}

table-IsValid : IsValid handles table
table-IsValid = record {
  bits = 2;
  network = 0;
  small = omega arith;
  size = refl;
  cells = refl;
  placed = place;
  network_byte = omega arith;
  harbor = refl;
  index_pos = omega arith;
  index_le = omega arith;
}
  where
    place : (i c : ℕ) → slot_at table i ≡ some c → handles c % 4 ≡ i
    place zero c e = cc
    place (suc zero) c e = ground arith
    place (suc (suc zero)) c e = ground arith
    place (suc (suc (suc zero))) c e = cc
    place (suc (suc (suc (suc i)))) c e = cc

table-HasNames : HasNames table
table-HasNames = record { room = refl; within = omega arith; cap_pos = omega arith }

table-Sorted : Sorted junk table.name table.name_count
unfolding strcmp
table-Sorted zero zero lt most = absurd (omega arith)
table-Sorted zero (suc zero) lt most = refl
table-Sorted zero (suc (suc zero)) lt most = refl
table-Sorted zero (suc (suc (suc j))) lt most = absurd (omega arith)
table-Sorted (suc zero) zero lt most = absurd (omega arith)
table-Sorted (suc zero) (suc zero) lt most = absurd (omega arith)
table-Sorted (suc zero) (suc (suc zero)) lt most = refl
table-Sorted (suc zero) (suc (suc (suc j))) lt most = absurd (omega arith)
table-Sorted (suc (suc i)) j lt most = absurd (omega arith)

not_here : (i : ℕ) → slot_at table i ≢ some 12
not_here zero e = cc
not_here (suc zero) e = cc
not_here (suc (suc zero)) e = cc
not_here (suc (suc (suc zero))) e = cc
not_here (suc (suc (suc (suc i)))) e = cc

new_key : (i : ℕ) → i < 3 → key_at junk table.name i ≢ 100 ∷ []
new_key zero lt e = omega (arith, ap (λ xs. get_or xs 0 0) e)
new_key (suc zero) lt e = omega (arith, ap (λ xs. get_or xs 0 0) e)
new_key (suc (suc zero)) lt e = omega (arith, ap (λ xs. get_or xs 0 0) e)
new_key (suc (suc (suc i))) lt e = omega arith

register-Registers_example :
    (h : ℕ) × (s' : Storage) × (register 2 handles 12 table ≡ some (h, s'))
    × Registers handles 12 table h s'
register-Registers_example =
    register-Registers handles 12 table table-IsValid not_here (omega arith)

retire_lem_example :
    let (r, s') = retire junk handles 5 table in
    (r ≡ some 10)
    × (grab handles s' 5 ≡ none)
    × ((g : ℕ) → g ≢ 5 → grab handles s' g ≡ grab handles table g)
    × (live_names s' ≡ keep 5 (live_names table))
    × IsValid handles s'
    × HasNames s'
unfolding grab
retire_lem_example = retire_lem junk handles table 5 10 table-IsValid table-HasNames refl

search_all-Outcome_example :
    Outcome junk table.name 3 (98 ∷ []) (search_all junk table table-Sorted (98 ∷ []))
search_all-Outcome_example = search_all-Outcome junk table table-Sorted (98 ∷ [])

namehandle_new_example :
    (s' : Storage) × (namehandle junk 9 (100 ∷ []) table ≡ some (true, s'))
    × Sorted junk s'.name s'.name_count
    × HasNames s'
    × (findname junk s' (100 ∷ []) ≡ 9)
    × ((other : List ℕ) → other ≢ 100 ∷ [] → findname junk s' other ≡ findname junk table other)
namehandle_new_example =
    namehandle_new junk (100 ∷ []) 9 table table-HasNames table-Sorted (omega arith) new_key

-- Three services in the slots 1, 2 and 3, and the last handle to start from.
abbrev worn_handles : ℕ → ℕ
worn_handles c = if c == 10 then 5 else if c == 11 then 6 else 7

abbrev worn : Storage
worn = record table { slot = none ∷ some 10 ∷ some 11 ∷ some 12 ∷ []; handle_index = handle_mask }

-- Slot 0 is free, and it is found neither by the scan nor in moving the contexts.
worn_fails : register 2 worn_handles 13 worn ≡ none
unfolding register rehash
worn_fails = refl
