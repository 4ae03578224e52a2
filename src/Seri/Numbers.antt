-- ===== src/Seri/Numbers.antt =====
-- skynet/lualib-src/lua-seri.c: the encodings of integers, read back.
use skynet_server.Common.{
  List, [], ◌∷◌, true, false, ℕ, length, ◌<◌, ◌≡◌, ◌++◌, ◌==◌, ◌^◌, ap, dec_lt, length-append,
  ℕ_discrete, arith, ltb, sym, ap₂, ◌+◌, ◌-◌, ◌∙◌, take, ◌*◌, refl, drop,
}
use skynet_server.Common.Int.{ℤ, pos, negsuc}
use skynet_server.Seri.Bytes.{le_bytes, IsInteger, int32, int64, length-le_bytes, of_bytes-le_bytes}
use skynet_server.Seri.Encode.{enc_integer}
use skynet_server.Seri.Unpack.{ok, ◌>>=◌, rb_read, get_integer, type_of, cookie_of, Read, int_of}
use skynet_server.Common.Slices.{take-append_within, take_whole, drop-append_past}

pub rb_read-front :
    (sz : ℕ) (bytes rest : List ℕ)
    → sz ≡ length bytes
    → rb_read sz (bytes ++ rest) ≡ ok (bytes, rest)
unfolding rb_read
rb_read-front sz bytes rest e =
    let total = length-append bytes rest in
    let enough : ltb (length (bytes ++ rest)) sz ≡ false = ground arith in
    rw enough (
      ap₂ (λ a b. ok (a, b))
        (ap (λ k. take k (bytes ++ rest)) e
          ∙ take-append_within (length bytes) bytes rest (omega arith)
          ∙ take_whole bytes)
        (ap (λ k. drop k (bytes ++ rest)) (let f : sz ≡ length bytes + 0 = omega arith in f)
          ∙ drop-append_past 0 bytes rest))

-- What a number's header and bytes are read as.
module _ (rest : List ℕ) where
  read_le :
      (k n : ℕ) (f : ℕ → ℤ)
      → n < 256 ^ k
      → (rb_read k (le_bytes k n ++ rest) >>= int_of f) ≡ ok (f n, rest)
  read_le k n f lt =
      ap (λ (o : Read (List ℕ)). o >>= int_of f)
        (rb_read-front k (le_bytes k n) rest (sym (length-le_bytes k n)))
      ∙ ap (λ m. ok (f m, rest)) (of_bytes-le_bytes k n lt)

  -- The encoding of an integer, as its first byte and the others.
  abbrev pub Reads : ℤ → ℕ → List ℕ → Type 0
  Reads i h bytes =
      (enc_integer i ≡ h ∷ bytes)
      × (type_of h ≡ 2)
      × ((cookie_of h == 8) ≡ false)
      × (get_integer (cookie_of h) (bytes ++ rest) ≡ ok (i, rest))

  pos-Reads : (n : ℕ) → n < 2 ^ 63 → (h : ℕ) × (bytes : List ℕ) × Reads (pos n) h bytes
  unfolding enc_integer get_integer
  pos-Reads n range = elim (ℕ_discrete n 0) [
    | yes z ↦
        let a : (n == 0) ≡ true = ground arith in
        (2, [], (rw a refl, refl, refl, ap (λ k. ok (pos k, rest)) (sym z)))
    | no nz ↦ elim (dec_lt n (2 ^ 8)) [
      | yes byte ↦
          let a : (n == 0) ≡ false = ground arith in
          let b : ltb n (2 ^ 8) ≡ true = ground arith in
          (
            10,
            n ∷ [],
            (
              rw (a, b) refl,
              refl,
              refl,
              ap (λ (o : Read (List ℕ)). o >>= int_of pos) (rb_read-front 1 (n ∷ []) rest refl)
                  ∙ ap (λ m. ok (pos m, rest)) (let e : n + 256 * 0 ≡ n = omega arith in e),
            ),
          )
      | no wide ↦ elim (dec_lt n (2 ^ 16)) [
        | yes word ↦
            let a : (n == 0) ≡ false = ground arith in
            let b : ltb n (2 ^ 8) ≡ false = ground arith in
            let c : ltb n (2 ^ 16) ≡ true = ground arith in
            (18, le_bytes 2 n, (rw (a, b, c) refl, refl, refl, read_le 2 n pos (omega arith)))
        | no long ↦ elim (dec_lt n (2 ^ 31)) [
          | yes dword ↦
              let a : (n == 0) ≡ false = ground arith in
              let b : ltb n (2 ^ 8) ≡ false = ground arith in
              let c : ltb n (2 ^ 16) ≡ false = ground arith in
              let d : ltb n (2 ^ 31) ≡ true = ground arith in
              (
                34,
                le_bytes 4 n,
                (rw (a, b, c, d) refl, refl, refl, read_le 4 n int32 (omega arith) ∙ rw d refl),
              )
          | no qword ↦
              let a : (n == 0) ≡ false = ground arith in
              let b : ltb n (2 ^ 8) ≡ false = ground arith in
              let c : ltb n (2 ^ 16) ≡ false = ground arith in
              let d : ltb n (2 ^ 31) ≡ false = ground arith in
              let e : ltb n (2 ^ 63) ≡ true = ground arith in
              (
                50,
                le_bytes 8 n,
                (rw (a, b, c, d) refl, refl, refl, read_le 8 n int64 (omega arith) ∙ rw e refl),
              )
        ]
      ]
    ]
  ]

  negsuc-Reads : (n : ℕ) → n < 2 ^ 63 → (h : ℕ) × (bytes : List ℕ) × Reads (negsuc n) h bytes
  unfolding enc_integer get_integer
  negsuc-Reads n range = elim (dec_lt n (2 ^ 31)) [
    | yes dword ↦
        let a : ltb n (2 ^ 31) ≡ true = ground arith in
        let b : ltb (2 ^ 32 - 1 - n) (2 ^ 31) ≡ false = ground arith in
        (
          34,
          le_bytes 4 (2 ^ 32 - 1 - n),
          (
            rw a refl,
            refl,
            refl,
            read_le 4 (2 ^ 32 - 1 - n) int32 (omega arith)
                ∙ rw b (
                    ap (λ m. ok (negsuc m, rest))
                      (let e : 2 ^ 32 - 1 - (2 ^ 32 - 1 - n) ≡ n = omega arith in e)),
          ),
        )
    | no qword ↦
        let a : ltb n (2 ^ 31) ≡ false = ground arith in
        let b : ltb (2 ^ 64 - 1 - n) (2 ^ 63) ≡ false = ground arith in
        (
          50,
          le_bytes 8 (2 ^ 64 - 1 - n),
          (
            rw a refl,
            refl,
            refl,
            read_le 8 (2 ^ 64 - 1 - n) int64 (omega arith)
                ∙ rw b (
                    ap (λ m. ok (negsuc m, rest))
                      (let e : 2 ^ 64 - 1 - (2 ^ 64 - 1 - n) ≡ n = omega arith in e)),
          ),
        )
  ]

  pub integer-Reads : (i : ℤ) → IsInteger i → (h : ℕ) × (bytes : List ℕ) × Reads i h bytes
  integer-Reads (pos n) range = pos-Reads n range
  integer-Reads (negsuc n) range = negsuc-Reads n range
