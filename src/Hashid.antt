-- ===== src/Hashid.antt =====
-- skynet/service-src/hashid.h: the table from the numbers of connections to the places 0 to cap - 1.
-- `id` gives the number at a place, and `none` is the -1 of a free place. The list of a hash value
-- is the chain of places behind its cell of `hash`. `none` is also what -1 stands for in a result,
-- and for `hashid_insert` a failed assert or a sum that is not an `int`. The numbers are not negative.
pub mod Chains
pub mod Places
pub mod Update
pub mod Remove
pub mod Init
mod Tests
use Prim.Native.Nat.{bit_and, suc}
use skynet_server.Common.{
  Bool, ℕ, List, Option, ◌+◌, ◌-◌, ◌==◌, if◌then◌else◌, none, some, ◌*◌, ◌∷◌, [], ltb, zero, ◌%◌,
  ◌^◌,
}
use skynet_server.Common.Options.{◌>>=◌, is_none, is_some_eq}

-- `struct hashid`
pub record Hashid : Type 0 where
  pub hashmod : ℕ
  pub cap : ℕ
  pub count : ℕ
  pub id : ℕ → Option ℕ
  pub hash : ℕ → List ℕ

-- The loop of `hashid_init` that doubles `hashcap`, on fuel.
unfoldable pub hash_cap : ℕ → ℕ → ℕ → ℕ
hash_cap zero max cap = cap
hash_cap (suc fuel) max cap =
    let rest = hash_cap fuel max (cap * 2) in if ltb cap max then rest else cap

unfoldable pub init : ℕ → Hashid
unfolding hash_cap
init max = record {
  hashmod = hash_cap max max 16 - 1;
  cap = max;
  count = 0;
  id = λ c. none;
  hash = λ h. [];
}

abbrev pub hash_of : Hashid → ℕ → ℕ
hash_of hi id = bit_and id hi.hashmod

-- The walk along a chain.
unfoldable pub find : (ℕ → Option ℕ) → ℕ → List ℕ → Option ℕ
find ids id [] = none
find ids id (c ∷ cs) = let rest = find ids id cs in if is_some_eq id (ids c) then some c else rest

unfoldable pub lookup : Hashid → ℕ → Option ℕ
unfolding find
lookup hi id = find hi.id id (hi.hash (hash_of hi id))

-- The chain without the first place of the number.
unfoldable pub unlink : (ℕ → Option ℕ) → ℕ → List ℕ → List ℕ
unlink ids id [] = []
unlink ids id (c ∷ cs) =
    let rest = c ∷ unlink ids id cs in if is_some_eq id (ids c) then cs else rest

abbrev pub set_hash : ℕ → List ℕ → (ℕ → List ℕ) → ℕ → List ℕ
set_hash h cs hash k = if h == k then cs else hash k

abbrev pub set_id : ℕ → Option ℕ → (ℕ → Option ℕ) → ℕ → Option ℕ
set_id c v ids k = if c == k then v else ids k

abbrev pub remove_at : Hashid → ℕ → Option ℕ → Option ℕ × Hashid
remove_at hi id none = (none, hi)
remove_at hi id (some c) = (
  some c,
  record hi {
    count = hi.count - 1;
    id = set_id c none hi.id;
    hash = set_hash (hash_of hi id) (unlink hi.id id (hi.hash (hash_of hi id))) hi.hash;
  },
)

-- `hashid_remove`
unfoldable pub remove : Hashid → ℕ → Option ℕ × Hashid
unfolding find unlink
remove hi id = remove_at hi id (find hi.id id (hi.hash (hash_of hi id)))

-- What follows a sum of `int`s, if the sum is one too.
abbrev pub if_int : ℕ → Option ℕ → Option ℕ
if_int sum place = if ltb sum (2 ^ 31) then place else none

-- The loop of `hashid_insert`, with the rounds that are left: the first free place from `id` on. The
-- sum of `i` and `id` may overflow, and then the index means no place of the array.
unfoldable pub free_place : ℕ → ℕ → ℕ → Hashid → Option ℕ
free_place zero i id hi = none
free_place (suc n) i id hi =
    let rest = free_place n (i + 1) id hi in
    if_int (i + id) (if is_none (hi.id ((i + id) % hi.cap)) then some ((i + id) % hi.cap) else rest)

abbrev pub insert_at : Hashid → ℕ → ℕ → Hashid
insert_at hi id c = record hi {
  count = hi.count + 1;
  id = set_id c (some id) hi.id;
  hash = set_hash (hash_of hi id) (c ∷ hi.hash (hash_of hi id)) hi.hash;
}

unfoldable pub insert : Hashid → ℕ → Option (ℕ × Hashid)
unfolding free_place
insert hi id = free_place hi.cap 0 id hi >>= λ c. some (c, insert_at hi id c)

-- `hashid_full`
abbrev pub full : Hashid → Bool
full hi = hi.count == hi.cap
