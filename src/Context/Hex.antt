-- ===== src/Context/Hex.antt =====
-- skynet/skynet-src/skynet_server.c: a handle that is printed is read again.
use Prim.Native.Nat.{bit_and, suc}
use skynet_server.Common.{
  List, ◌∷◌, ℕ, true, false, if◌then◌else◌, ◌+◌, ◌-◌, ◌*◌, ◌/◌, ◌%◌, ◌^◌, ◌==◌, ◌<◌, ◌≡◌, ◌&&◌,
  ◌||◌, ltb, leb, refl, arith, ap, ◌∙◌, drop, zero,
}
use skynet_server.Common.Bits.{and-mask}
use skynet_server.Gate.Control.{
  strtoul, number, digit, is_space, skip_spaces, hex_signed, hex_prefix, hex_value, low_bits,
}
use skynet_server.Context.{id_to_hex, hex_digits, hex}

digit-hex : (d : ℕ) → d < 16 → digit (hex d) ≡ d
digit-hex d lt = ground arith

number-hex : (n d : ℕ) (bs : List ℕ) → d < 16 → number 16 n (hex d ∷ bs) ≡ number 16 (n * 16 + d) bs
number-hex n d bs lt =
    let e = digit-hex d lt in let f : ltb d 16 ≡ true = ground arith in rw (e, f) refl

-- What stands at the front of the digits: no space, no sign, and no `x` in the second place.
module _ (a b c : ℕ) (bs : List ℕ) (la : a < 16) (lb : b < 16) where
  skip_spaces-hex : skip_spaces (hex a ∷ bs) ≡ hex a ∷ bs
  skip_spaces-hex = let e : is_space (hex a) ≡ false = ground arith in rw e refl

  hex_signed-hex : hex_signed (hex a ∷ bs) ≡ hex_prefix false (hex a ∷ bs)
  hex_signed-hex =
      let e : (hex a == 45) ≡ false = ground arith in
      let f : (hex a == 43) ≡ false = ground arith in rw (e, f) refl

  hex_prefix-hex :
      hex_prefix false (hex a ∷ hex b ∷ c ∷ bs) ≡ hex_value false (hex a ∷ hex b ∷ c ∷ bs)
  hex_prefix-hex =
      let e : ((hex a == 48) && ((hex b == 120) || (hex b == 88)) && ltb (digit c) 16) ≡ false =
        ground arith in
      rw e refl

-- The digit in the place `k`.
abbrev place : ℕ → ℕ → ℕ
place id k = bit_and (id / 16 ^ k) 0xf

place-lt : (id k : ℕ) → place id k < 16
place-lt id k = let e = and-mask 4 (id / 16 ^ k) in omega arith

-- What `k` digits make of the number before them.
abbrev behind : ℕ → ℕ → ℕ → ℕ
behind zero n id = n
behind (suc k) n id = behind k (n * 16 + id / 16 ^ k % 16) id

number-hex_digits : (k n id : ℕ) → number 16 n (hex_digits k id) ≡ behind k n id
unfolding hex_digits
number-hex_digits zero n id = refl
number-hex_digits (suc k) n id =
    number-hex n (place id k) (hex_digits k id) (place-lt id k)
    ∙ ap (λ d. number 16 (n * 16 + d) (hex_digits k id)) (and-mask 4 (id / 16 ^ k))
    ∙ number-hex_digits k (n * 16 + id / 16 ^ k % 16) id

eight_digits : (id : ℕ) → id < 2 ^ 32 → number 16 0 (hex_digits 8 id) ≡ id
eight_digits id lt =
    let whole : ((((((((0 * 16 + id / 16 ^ 7 % 16) * 16 + id / 16 ^ 6 % 16) * 16 + id / 16 ^ 5 % 16)
                            * 16
                          + id / 16 ^ 4 % 16)
                        * 16
                      + id / 16 ^ 3 % 16)
                    * 16
                  + id / 16 ^ 2 % 16)
                * 16
              + id / 16 ^ 1 % 16)
            * 16
          + id / 16 ^ 0 % 16)
        ≡ id =
      omega arith in
    number-hex_digits 8 0 id ∙ whole

-- `strtoul` reads the number of a service back from what `id_to_hex` prints, as the commands do with
-- the bytes behind the `:`.
pub strtoul-id_to_hex : (id : ℕ) → id < 2 ^ 32 → strtoul (drop 1 (id_to_hex id)) ≡ id
unfolding strtoul id_to_hex hex_digits
strtoul-id_to_hex id lt =
    ap hex_signed (
      skip_spaces-hex (place id 7) (place id 6) 0 (drop 2 (id_to_hex id)) (place-lt id 7)
        (place-lt id 6))
    ∙ hex_signed-hex (place id 7) (place id 6) 0 (drop 2 (id_to_hex id)) (place-lt id 7)
        (place-lt id 6)
    ∙ hex_prefix-hex (place id 7) (place id 6) (hex (place id 5)) (drop 4 (id_to_hex id))
        (place-lt id 7) (place-lt id 6)
    ∙ ap (λ n. if leb (2 ^ 64) n then 2 ^ 32 - 1 else low_bits false n) (eight_digits id lt)
    ∙ (let small : leb (2 ^ 64) id ≡ false = ground arith in rw small (omega arith))
