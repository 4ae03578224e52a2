-- ===== src/Seri/Encode.antt =====
-- What skynet/lualib-src/lua-seri.c packs: which values, and the bytes that stand for each.
use skynet_server.Common.{
  List, [], ◌∷◌, false, ℕ, if◌then◌else◌, ◌≤◌, length, ltb, ◌++◌, ◌==◌, ◌+◌, ◌^◌, ◌≡◌, ◌*◌, ◌-◌,
  ◌<◌,
}
use skynet_server.Common.Int.{ℤ, pos, negsuc}
use skynet_server.Seri.{
  Value, Items, Pairs, nil, boolean, integer, real, pointer, str, table, paired, other, empty, cons,
  end, pair, max_depth,
}
use skynet_server.Seri.Bytes.{le_bytes, IsInteger}
use skynet_server.Seri.Pack.{in_array, count}
use skynet_server.Seri.Unpack.{is_nil}

-- An integer in the fewest bytes of 0, 1, 2, 4 and 8, unsigned in 1 or 2 and signed in 4 or 8.
unfoldable pub enc_integer : ℤ → List ℕ
enc_integer (pos n) =
    if n == 0
    then 2 ∷ []
    else if ltb n (2 ^ 8)
    then 10 ∷ n ∷ []
    else if ltb n (2 ^ 16)
    then 18 ∷ le_bytes 2 n
    else if ltb n (2 ^ 31)
    then 34 ∷ le_bytes 4 n
    else 50 ∷ le_bytes 8 n
enc_integer (negsuc n) =
    if ltb n (2 ^ 31) then 34 ∷ le_bytes 4 (2 ^ 32 - 1 - n) else 50 ∷ le_bytes 8 (2 ^ 64 - 1 - n)

unfoldable pub enc_string : List ℕ → List ℕ
enc_string s =
    if ltb (length s) 32
    then (4 + length s * 8) ∷ s
    else if ltb (length s) (2 ^ 16)
    then 21 ∷ (le_bytes 2 (length s) ++ s)
    else 37 ∷ (le_bytes 4 (length s) ++ s)

unfoldable pub enc_size : ℕ → List ℕ
enc_size n = if ltb n 31 then (6 + n * 8) ∷ [] else 254 ∷ enc_integer (pos n)

unfoldable mutual
  pub enc : Value → List ℕ
  enc nil = 0 ∷ []
  enc (boolean b) = (if b then 9 else 1) ∷ []
  enc (integer v) = enc_integer v
  enc (real bytes) = 66 ∷ bytes
  enc (pointer bytes) = 3 ∷ bytes
  enc (str s) = enc_string s
  enc (table xs ps) = enc_size (count xs) ++ (enc_items xs ++ enc_pairs ps (count xs))
  enc (paired ps) = 6 ∷ enc_pairs ps 0
  enc other = []

  pub enc_items : Items → List ℕ
  enc_items empty = []
  enc_items (cons v xs) = enc v ++ enc_items xs

  pub enc_pairs : Pairs → ℕ → List ℕ
  enc_pairs end n = 0 ∷ []
  enc_pairs (pair k v ps) n = (if in_array k n then [] else enc k ++ enc v) ++ enc_pairs ps n

-- A value that can be packed at a depth: no deeper than `max_depth`, of the types that are
-- supported, with integers of 64 bits and sizes of an `int`, and no key nil.
unfoldable mutual
  pub CanPack : ℕ → Value → Type 0
  CanPack d nil = d ≤ max_depth
  CanPack d (boolean b) = d ≤ max_depth
  CanPack d (integer v) = (d ≤ max_depth) × IsInteger v
  CanPack d (real bytes) = (d ≤ max_depth) × (length bytes ≡ 8)
  CanPack d (pointer bytes) = (d ≤ max_depth) × (length bytes ≡ 8)
  CanPack d (str s) = (d ≤ max_depth) × (length s < 2 ^ 31)
  CanPack d (table xs ps) =
      (d ≤ max_depth) × (count xs < 2 ^ 31) × CanPackItems (d + 1) xs × CanPackPairs (d + 1) ps
  CanPack d (paired ps) = (d ≤ max_depth) × CanPackPairs (d + 1) ps
  CanPack d other = ⊥

  pub CanPackItems : ℕ → Items → Type 0
  CanPackItems d empty = Unit {0}
  CanPackItems d (cons v xs) = CanPack d v × CanPackItems d xs

  pub CanPackPairs : ℕ → Pairs → Type 0
  CanPackPairs d end = Unit {0}
  CanPackPairs d (pair k v ps) = CanPack d k × (is_nil k ≡ false) × CanPack d v × CanPackPairs d ps

-- What is unpacked: a table with its array, and its other pairs in the order of the iteration.
unfoldable mutual
  pub unpacked : Value → Value
  unpacked (table xs ps) = table (unpacked_items xs) (unpacked_pairs ps (count xs))
  unpacked (paired ps) = table empty (unpacked_pairs ps 0)
  unpacked nil = nil
  unpacked (boolean b) = boolean b
  unpacked (integer v) = integer v
  unpacked (real bytes) = real bytes
  unpacked (pointer bytes) = pointer bytes
  unpacked (str s) = str s
  unpacked other = other

  pub unpacked_items : Items → Items
  unpacked_items empty = empty
  unpacked_items (cons v xs) = cons (unpacked v) (unpacked_items xs)

  pub unpacked_pairs : Pairs → ℕ → Pairs
  unpacked_pairs end n = end
  unpacked_pairs (pair k v ps) n =
      if in_array k n
      then unpacked_pairs ps n
      else pair (unpacked k) (unpacked v) (unpacked_pairs ps n)
