-- ===== src/Seri/Encoded.antt =====
-- skynet/lualib-src/lua-seri.c: the encoding of a value is not empty.
use skynet_server.Common.{
  List, [], ◌∷◌, ℕ, length, ◌<◌, ◌≡◌, ◌++◌, ap, length-append, arith, if◌then◌else◌, refl,
}
use skynet_server.Seri.{
  Value, Pairs, nil, boolean, integer, real, pointer, str, table, paired, other, end, pair,
}
use skynet_server.Seri.Encode.{enc, enc_items, enc_pairs, enc_size, CanPack, unpacked, CanPackPairs}
use skynet_server.Seri.Pack.{in_array, count}
use skynet_server.Seri.Unpack.{invalid, is_nil}
use skynet_server.Seri.Front.{value_integer, value_size, value_string}

-- A value is written as one byte or more.
pub encoded : (x : Value) (d : ℕ) → CanPack d x → (h : ℕ) × (bytes : List ℕ) × (enc x ≡ h ∷ bytes)
unfolding enc CanPack
encoded nil d c = (0, [], refl)
encoded (boolean b) d c = ((if b then 9 else 1), [], refl)
encoded (integer i) d (c, range) =
    let (h, bytes, e, _) = value_integer [] (λ n rb. invalid) i range in (h, bytes, e)
encoded (real bytes) d c = (66, bytes, refl)
encoded (pointer bytes) d c = (3, bytes, refl)
encoded (str s) d (c, range) =
    let (h, bytes, e, _) = value_string [] (λ n rb. invalid) s range in (h, bytes, e)
encoded (table xs ps) d (c, range, _, _) =
    let (h, bytes, e, _) = value_size [] (λ n rb. invalid) (count xs) invalid range refl in
    (
      h,
      bytes ++ (enc_items xs ++ enc_pairs ps (count xs)),
      ap (λ b. b ++ (enc_items xs ++ enc_pairs ps (count xs))) e,
    )
encoded (paired ps) d c = (6, enc_pairs ps 0, refl)
encoded other d c = absurd c

pub length-enc : (x : Value) (d : ℕ) → CanPack d x → 0 < length (enc x)
length-enc x d c = let (h, bytes, e) = encoded x d c in rw e (omega arith)

pub length-enc_size : (n : ℕ) → 0 < length (enc_size n)
unfolding enc_size
length-enc_size n = ground arith

pub length-enc_pairs : (ps : Pairs) (n d : ℕ) → CanPackPairs d ps → 0 < length (enc_pairs ps n)
unfolding enc_pairs CanPackPairs
length-enc_pairs end n d c = omega arith
length-enc_pairs (pair k v ps) n d (_, _, _, c) =
    let ih = length-enc_pairs ps n d c in
    let t = length-append (if in_array k n then [] else enc k ++ enc v) (enc_pairs ps n) in
    omega arith

pub is_nil-unpacked : (k : Value) → is_nil (unpacked k) ≡ is_nil k
unfolding unpacked
is_nil-unpacked nil = refl
is_nil-unpacked (boolean b) = refl
is_nil-unpacked (integer i) = refl
is_nil-unpacked (real bytes) = refl
is_nil-unpacked (pointer bytes) = refl
is_nil-unpacked (str s) = refl
is_nil-unpacked (table xs ps) = refl
is_nil-unpacked (paired ps) = refl
is_nil-unpacked other = refl
