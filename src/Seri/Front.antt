-- ===== src/Seri/Front.antt =====
-- skynet/lualib-src/lua-seri.c: the encodings of integers, sizes and strings, read back.
use skynet_server.Common.{
  List, [], ◌∷◌, true, false, ℕ, length, ◌<◌, ◌≡◌, ◌++◌, ◌==◌, ◌^◌, ap, dec_lt, append_assoc, arith,
  ltb, sym, ◌+◌, ◌∙◌, ◌*◌, refl, ◌%◌,
}
use skynet_server.Common.Int.{ℤ, pos}
use skynet_server.Seri.{Value, Items, Pairs, integer, str}
use skynet_server.Seri.Bytes.{le_bytes, of_bytes, IsInteger, length-le_bytes, of_bytes-le_bytes}
use skynet_server.Seri.Encode.{enc_integer, enc_string, enc_size}
use skynet_server.Seri.Unpack.{
  ok, ◌>>=◌, rb_read, get_integer, get_bytes, push_value, unpack_table, type_of, cookie_of,
  make_table, Body, Read, rounds, as_value, get_buffer, get_text, sized_table, long_table,
}
use skynet_server.Common.Bits.{and-mask}
use skynet_server.Seri.Numbers.{rb_read-front, integer-Reads}

module _ (rest : List ℕ) where
  pub get_bytes-front :
      (make : List ℕ → Value) (sz : ℕ) (bytes : List ℕ)
      → sz ≡ length bytes
      → get_bytes make sz (bytes ++ rest) ≡ ok (make bytes, rest)
  unfolding get_bytes
  get_bytes-front make sz bytes e =
      ap (λ (o : Read (List ℕ)). o >>= as_value make) (rb_read-front sz bytes rest e)

  -- A value with its first byte.
  pub value_integer :
      (body : Body) (i : ℤ)
      → IsInteger i
      → (h : ℕ) × (bytes : List ℕ) × (enc_integer i ≡ h ∷ bytes)
        × (push_value body (type_of h) (cookie_of h) (bytes ++ rest) ≡ ok (integer i, rest))
  unfolding push_value
  value_integer body i range =
      let (h, bytes, (e, t, c, g)) = integer-Reads rest i range in
      (h, bytes, e, rw (t, c) (ap (λ (o : Read ℤ). o >>= as_value integer) g))

  pub value_size :
      (body : Body) (n : ℕ) (r : Read (Items × Pairs))
      → n < 2 ^ 31
      → body n rest ≡ r
      → (h : ℕ) × (bytes : List ℕ) × (enc_size n ≡ h ∷ bytes)
        × (push_value body (type_of h) (cookie_of h) (bytes ++ rest) ≡ make_table r)
  unfolding push_value unpack_table enc_size
  value_size body n r range e = elim (dec_lt n 31) [
    | yes small ↦
        let a : ltb n 31 ≡ true = ground arith in
        let b : (n == 31) ≡ false = ground arith in
        let t : type_of (6 + n * 8) ≡ 6 = and-mask 3 (6 + n * 8) ∙ omega arith in
        let c : cookie_of (6 + n * 8) ≡ n = omega arith in
        (6 + n * 8, [], rw a refl, rw (t, c, b) (ap make_table e))
    | no big ↦
        let a : ltb n 31 ≡ false = ground arith in
        let (h, bytes, (f, t, c, g)) = integer-Reads rest (pos n) (omega arith) in
        let low : n % 2 ^ 32 ≡ n = omega arith in
        let k : ltb n (2 ^ 31) ≡ true = ground arith in
        let o : of_bytes (h ∷ []) ≡ h = omega arith in
        let q : rounds (pos n) ≡ n = rw (low, k) refl in
        (
          254,
          enc_integer (pos n),
          rw a refl,
          ap (λ b. rb_read 1 (b ++ rest) >>= long_table body) f
              ∙ ap (λ (o : Read (List ℕ)). o >>= long_table body)
                  (rb_read-front 1 (h ∷ []) (bytes ++ rest) refl)
              ∙ long_table-front h bytes q o t c g,
        )
  ]
    where
      long_table-front :
          (h : ℕ) (bytes : List ℕ)
          → rounds (pos n) ≡ n
          → of_bytes (h ∷ []) ≡ h
          → type_of h ≡ 2
          → (cookie_of h == 8) ≡ false
          → get_integer (cookie_of h) (bytes ++ rest) ≡ ok (pos n, rest)
          → long_table body (h ∷ [], bytes ++ rest) ≡ make_table r
      long_table-front h bytes q o t c g =
          rw (o, t, c)
            (ap (λ (o : Read ℤ). o >>= sized_table body) g
              ∙ ap (λ k. make_table (body k rest)) q
              ∙ ap make_table e)

  get_buffer-front :
      (len : ℕ) (s : List ℕ)
      → len ≡ length s
      → length s < 2 ^ 31
      → get_buffer len (s ++ rest) ≡ ok (str s, rest)
  unfolding get_buffer
  get_buffer-front len s e range =
      let small : ltb len (2 ^ 31) ≡ true = ground arith in rw small (get_bytes-front str len s e)

  pub value_string :
      (body : Body) (s : List ℕ)
      → length s < 2 ^ 31
      → (h : ℕ) × (bytes : List ℕ) × (enc_string s ≡ h ∷ bytes)
        × (push_value body (type_of h) (cookie_of h) (bytes ++ rest) ≡ ok (str s, rest))
  unfolding push_value enc_string
  value_string body s range = elim (dec_lt (length s) 32) [
    | yes short ↦
        let a : ltb (length s) 32 ≡ true = ground arith in
        let t : type_of (4 + length s * 8) ≡ 4 = and-mask 3 (4 + length s * 8) ∙ omega arith in
        let c : cookie_of (4 + length s * 8) ≡ length s = omega arith in
        (4 + length s * 8, s, rw a refl, rw (t, c) (get_buffer-front (length s) s refl range))
    | no long ↦ elim (dec_lt (length s) (2 ^ 16)) [
      | yes word ↦
          let a : ltb (length s) 32 ≡ false = ground arith in
          let b : ltb (length s) (2 ^ 16) ≡ true = ground arith in
          (21, le_bytes 2 (length s) ++ s, rw (a, b) refl, after_length 2 (omega arith))
      | no dword ↦
          let a : ltb (length s) 32 ≡ false = ground arith in
          let b : ltb (length s) (2 ^ 16) ≡ false = ground arith in
          (37, le_bytes 4 (length s) ++ s, rw (a, b) refl, after_length 4 (omega arith))
    ]
  ]
    where
      after_length :
          (k : ℕ)
          → length s < 256 ^ k
          → (rb_read k ((le_bytes k (length s) ++ s) ++ rest) >>= λ (b, r).
              get_buffer (of_bytes b) r)
            ≡ ok (str s, rest)
      after_length k lt =
          ap (λ bs. rb_read k bs >>= get_text) (append_assoc (le_bytes k (length s)) s rest)
          ∙ ap (λ (o : Read (List ℕ)). o >>= get_text)
              (rb_read-front k (le_bytes k (length s)) (s ++ rest)
                (sym (length-le_bytes k (length s))))
          ∙ get_buffer-front (of_bytes (le_bytes k (length s))) s
              (of_bytes-le_bytes k (length s) lt) range
