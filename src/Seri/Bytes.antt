-- ===== src/Seri/Bytes.antt =====
-- Little-endian numbers of some bytes, as `memcpy` writes and reads them.
use skynet_server.Common.{
  List, ℕ, [], if◌then◌else◌, length, ◌<◌, ◌∷◌, ltb, suc, ◌+◌, ◌^◌, ◌≡◌, ap, arith, ◌%◌, ◌*◌, ◌-◌,
  pow-suc, ◌/◌, zero, refl,
}
use skynet_server.Common.Int.{ℤ, pos, negsuc}

unfoldable pub le_bytes : ℕ → ℕ → List ℕ
le_bytes zero n = []
le_bytes (suc k) n = n % 256 ∷ le_bytes k (n / 256)

abbrev pub of_bytes : List ℕ → ℕ
of_bytes [] = 0
of_bytes (b ∷ bs) = b + 256 * of_bytes bs

pub length-le_bytes : (k n : ℕ) → length (le_bytes k n) ≡ k
unfolding le_bytes
length-le_bytes zero n = refl
length-le_bytes (suc k) n = ap suc (length-le_bytes k (n / 256))

pub of_bytes-le_bytes : (k n : ℕ) → n < 256 ^ k → of_bytes (le_bytes k n) ≡ n
unfolding le_bytes
of_bytes-le_bytes zero n lt = omega arith
of_bytes-le_bytes (suc k) n lt =
    let p = pow-suc 256 k in
    let below : n / 256 < 256 ^ k = omega arith in
    let ih = of_bytes-le_bytes k (n / 256) below in omega arith

-- A `lua_Integer` as its 64 bits, and the integers that 32 and 64 bits stand for.
abbrev pub bits_of : ℤ → ℕ
bits_of (pos n) = n
bits_of (negsuc n) = 2 ^ 64 - 1 - n

abbrev pub int32 : ℕ → ℤ
int32 n = if ltb n (2 ^ 31) then pos n else negsuc (2 ^ 32 - 1 - n)

abbrev pub int64 : ℕ → ℤ
int64 n = if ltb n (2 ^ 63) then pos n else negsuc (2 ^ 64 - 1 - n)

-- The range of `lua_Integer`.
abbrev pub IsInteger : ℤ → Type 0
IsInteger (pos n) = n < 2 ^ 63
IsInteger (negsuc n) = n < 2 ^ 63
