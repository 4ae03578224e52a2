-- ===== src/Seri/Tests.antt =====
-- Runs of packing and unpacking of skynet/lualib-src/lua-seri.c.
use skynet_server.Common.{[], ◌∷◌, true, some, ◌≡◌, refl, arith, List, ℕ}
use skynet_server.Common.Int.{pos, negsuc}
use skynet_server.Seri.{Value, boolean, integer, str, table, empty, cons, end, pair}
use skynet_server.Seri.Pack.{luaseri_pack}
use skynet_server.Seri.Unpack.{invalid, too_big, luaseri_unpack, unpack_all}
use skynet_server.Seri.Encode.{CanPack, enc, enc_integer, enc_size, enc_string}
use skynet_server.Seri.Bytes.{le_bytes}
use skynet_server.Seri.Written.{luaseri_pack_lem, CanPackAll}

-- A negative number, and a table of two values with a key outside of its array.
abbrev arguments : List Value
arguments =
    integer (negsuc 4)
    ∷ table (cons (str (104 ∷ 105 ∷ [])) (cons (integer (pos 300)) empty))
        (pair (integer (pos 2)) (integer (pos 300)) (pair (str (107 ∷ [])) (boolean true) end))
    ∷ []

arguments-CanPackAll : CanPackAll arguments
unfolding CanPack
arguments-CanPackAll = (
  (omega arith, omega arith),
  (
    (
      omega arith,
      omega arith,
      ((omega arith, omega arith), ((omega arith, omega arith), tt)),
      (
        (omega arith, omega arith),
        refl,
        (omega arith, omega arith),
        ((omega arith, omega arith), refl, omega arith, tt),
      ),
    ),
    tt,
  ),
)

luaseri_pack_lem_example :
    luaseri_pack (7 ∷ []) arguments
    ≡ some (34 ∷ 251 ∷ 255 ∷ 255 ∷ 255 ∷ 22 ∷ 20 ∷ 104 ∷ 105 ∷ 18 ∷ 44 ∷ 1 ∷ 12 ∷ 107 ∷ 9 ∷ 0 ∷ [])
unfolding enc enc_integer le_bytes enc_size enc_string
luaseri_pack_lem_example = luaseri_pack_lem (7 ∷ []) arguments arguments-CanPackAll

-- A table that claims an array of 2^31 - 1 values, of which there is none.
abbrev truncated : List ℕ
truncated = 254 ∷ 34 ∷ 255 ∷ 255 ∷ 255 ∷ 127 ∷ []

-- A text that claims 2^32 - 1 bytes.
huge : luaseri_unpack (37 ∷ 255 ∷ 255 ∷ 255 ∷ 255 ∷ []) ≡ too_big
unfolding unpack_all
huge = refl

truncated_invalid : luaseri_unpack truncated ≡ invalid
unfolding unpack_all
truncated_invalid = refl
