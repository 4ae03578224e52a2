-- ===== src/Seri/Scalars.antt =====
-- skynet/lualib-src/lua-seri.c: the bytes that are written of a value without parts.
use skynet_server.Common.{
  List, [], ◌∷◌, true, false, ℕ, ℕ_discrete, ◌++◌, ◌<◌, ◌≡◌, ◌+◌, ◌∙◌, ap, ◌*◌, append_assoc, ◌%◌,
  arith, length, subst, ◌^◌, dec_lt, sym, ◌-◌, ◌==◌, ◌≤◌, leb, ltb, refl,
}
use skynet_server.Common.Int.{ℤ, pos, negsuc}
use skynet_server.Seri.Blocks.{WriteBlock, wb_push, contents, IsFull, wb_push-contents}
use skynet_server.Seri.Bytes.{le_bytes, IsInteger, int32}
use skynet_server.Seri.Encode.{enc_integer, enc_string, enc_size}
use skynet_server.Seri.Pack.{wb_integer, wb_string, wb_array_size, combine_type, push_two, same_int}
use skynet_server.Common.Bits.{or-below}

-- The bytes have been pushed.
abbrev pub Adds : List ℕ → WriteBlock → WriteBlock → Type 0
Adds bytes wb wb' = IsFull wb' × (contents wb' ≡ contents wb ++ bytes)

-- Two writes, one after the other.
pub Adds-append :
    (a b : List ℕ) (w w' w'' : WriteBlock) → Adds a w w' → Adds b w' w'' → Adds (a ++ b) w w''
Adds-append a b w w' w'' (v, e) (v', e') =
    (v', e' ∙ ap (λ t. t ++ b) e ∙ append_assoc (contents w) a b)

pub push_two-Adds :
    (n : ℕ) (bytes : List ℕ) (wb : WriteBlock)
    → IsFull wb
    → Adds (n ∷ bytes) wb (wb_push bytes (wb_push (n ∷ []) wb))
push_two-Adds n bytes wb v =
    let one = wb_push-contents (n ∷ []) wb v in
    Adds-append (n ∷ []) bytes wb (wb_push (n ∷ []) wb) (wb_push bytes (wb_push (n ∷ []) wb)) one
      (wb_push-contents bytes (wb_push (n ∷ []) wb) one.0)

-- A type and a cookie in one byte.
pub combine : (t v : ℕ) → t < 8 → v < 32 → combine_type t v ≡ t + v * 8
combine t v a b = ap (λ n. n % 256) (or-below 3 v t a) ∙ omega arith

-- The tests of `wb_integer`.
narrow : (n : ℕ) → n < 2 ^ 31 → same_int (pos n) (int32 (n % 2 ^ 32)) ≡ true
narrow n lt = ground arith

wide : (n : ℕ) → 2 ^ 31 ≤ n → same_int (pos n) (int32 (n % 2 ^ 32)) ≡ false
wide n le = ground arith

narrow_negative :
    (n : ℕ) → n < 2 ^ 31 → same_int (negsuc n) (int32 ((2 ^ 64 - 1 - n) % 2 ^ 32)) ≡ true
narrow_negative n lt = ground arith

wide_negative :
    (n : ℕ)
    → 2 ^ 31 ≤ n
    → n < 2 ^ 63
    → same_int (negsuc n) (int32 ((2 ^ 64 - 1 - n) % 2 ^ 32)) ≡ false
wide_negative n le lt = ground arith

-- What a branch of `wb_integer` writes, against the encoding.
branch :
    (h : ℕ) (bytes : List ℕ) (i : ℤ) (wb : WriteBlock)
    → IsFull wb
    → wb_integer i wb ≡ push_two h bytes wb
    → enc_integer i ≡ h ∷ bytes
    → Adds (enc_integer i) wb (wb_integer i wb)
branch h bytes i wb v e f =
    subst (λ w. Adds (enc_integer i) wb w) (sym e)
      (subst (λ b. Adds b wb (push_two h bytes wb)) (sym f) (push_two-Adds h bytes wb v))

wb_integer-pos :
    (n : ℕ) (wb : WriteBlock)
    → IsFull wb
    → n < 2 ^ 63
    → Adds (enc_integer (pos n)) wb (wb_integer (pos n) wb)
unfolding wb_integer enc_integer
wb_integer-pos n wb v range = elim (ℕ_discrete n 0) [
  | yes z ↦ let t : (n == 0) ≡ true = ground arith in rw t (wb_push-contents (2 ∷ []) wb v)
  | no nz ↦ elim (dec_lt n (2 ^ 31)) [
    | no big ↦
        let a : (n == 0) ≡ false = ground arith in
        let b : ltb n (2 ^ 8) ≡ false = ground arith in
        let c : ltb n (2 ^ 16) ≡ false = ground arith in
        let d : ltb n (2 ^ 31) ≡ false = ground arith in
        branch 50 (le_bytes 8 n) (pos n) wb v (rw (a, wide n (omega arith)) refl)
          (rw (a, b, c, d) refl)
    | yes small ↦ elim (dec_lt n (2 ^ 16)) [
      | no word ↦
          let a : (n == 0) ≡ false = ground arith in
          let b : ltb n (2 ^ 8) ≡ false = ground arith in
          let c : ltb n (2 ^ 16) ≡ false = ground arith in
          let d : ltb n (2 ^ 31) ≡ true = ground arith in
          branch 34 (le_bytes 4 n) (pos n) wb v
            (rw (a, narrow n small, b, c)
              (ap (λ k. push_two 34 (le_bytes 4 k) wb) (let e : n % 2 ^ 32 ≡ n = omega arith in e)))
            (rw (a, b, c, d) refl)
      | yes short ↦ elim (dec_lt n (2 ^ 8)) [
        | no byte ↦
            let a : (n == 0) ≡ false = ground arith in
            let b : ltb n (2 ^ 8) ≡ false = ground arith in
            let c : ltb n (2 ^ 16) ≡ true = ground arith in
            branch 18 (le_bytes 2 n) (pos n) wb v (rw (a, narrow n small, b, c) refl)
              (rw (a, b, c) refl)
        | yes byte ↦
            let a : (n == 0) ≡ false = ground arith in
            let b : ltb n (2 ^ 8) ≡ true = ground arith in
            branch 10 (n ∷ []) (pos n) wb v (rw (a, narrow n small, b) refl) (rw (a, b) refl)
      ]
    ]
  ]
]

wb_integer-negsuc :
    (n : ℕ) (wb : WriteBlock)
    → IsFull wb
    → n < 2 ^ 63
    → Adds (enc_integer (negsuc n)) wb (wb_integer (negsuc n) wb)
unfolding wb_integer enc_integer
wb_integer-negsuc n wb v range = elim (dec_lt n (2 ^ 31)) [
  | yes small ↦
      let a : ltb n (2 ^ 31) ≡ true = ground arith in
      branch 34 (le_bytes 4 (2 ^ 32 - 1 - n)) (negsuc n) wb v
        (rw (narrow_negative n small) (
          ap (λ k. push_two 34 (le_bytes 4 k) wb)
            (let e : (2 ^ 64 - 1 - n) % 2 ^ 32 ≡ 2 ^ 32 - 1 - n = omega arith in e)))
        (rw a refl)
  | no big ↦
      let a : ltb n (2 ^ 31) ≡ false = ground arith in
      branch 50 (le_bytes 8 (2 ^ 64 - 1 - n)) (negsuc n) wb v
        (rw (wide_negative n (omega arith) range) refl) (rw a refl)
]

pub wb_integer-Adds :
    (i : ℤ) (wb : WriteBlock) → IsFull wb → IsInteger i → Adds (enc_integer i) wb (wb_integer i wb)
wb_integer-Adds (pos n) wb v range = wb_integer-pos n wb v range
wb_integer-Adds (negsuc n) wb v range = wb_integer-negsuc n wb v range

pub wb_array_size-Adds :
    (n : ℕ) (wb : WriteBlock) → IsFull wb → n < 2 ^ 31 → Adds (enc_size n) wb (wb_array_size n wb)
unfolding wb_array_size enc_size
wb_array_size-Adds n wb v range = elim (dec_lt n 31) [
  | yes small ↦
      let a : leb 31 n ≡ false = ground arith in
      let b : ltb n 31 ≡ true = ground arith in
      rw (a, b, combine 6 n (omega arith) (omega arith)) (wb_push-contents ((6 + n * 8) ∷ []) wb v)
  | no big ↦
      let a : leb 31 n ≡ true = ground arith in
      let b : ltb n 31 ≡ false = ground arith in
      let one = wb_push-contents (254 ∷ []) wb v in
      rw (a, b)
        (Adds-append (254 ∷ []) (enc_integer (pos n)) wb (wb_push (254 ∷ []) wb)
          (wb_integer (pos n) (wb_push (254 ∷ []) wb)) one
          (wb_integer-Adds (pos n) (wb_push (254 ∷ []) wb) one.0 (omega arith)))
]

wb_string-short :
    (s : List ℕ) (wb : WriteBlock)
    → IsFull wb
    → length s < 32
    → Adds ((4 + length s * 8) ∷ s) wb (wb_string s wb)
unfolding wb_string
wb_string-short [] wb v short = wb_push-contents (4 ∷ []) wb v
wb_string-short (c ∷ cs) wb v short =
    let n = length (c ∷ cs) in
    let a : ltb (length (c ∷ cs)) 32 ≡ true = ground arith in
    let b : ltb 0 (length (c ∷ cs)) ≡ true = ground arith in
    rw (a, b, combine 4 (length (c ∷ cs)) (omega arith) short)
      (push_two-Adds (4 + length (c ∷ cs) * 8) (c ∷ cs) wb v)

pub wb_string-Adds :
    (s : List ℕ) (wb : WriteBlock)
    → IsFull wb
    → length s < 2 ^ 31
    → Adds (enc_string s) wb (wb_string s wb)
unfolding wb_string enc_string
wb_string-Adds s wb v range = elim (dec_lt (length s) 32) [
  | yes short ↦
      let a : ltb (length s) 32 ≡ true = ground arith in
      let e : enc_string s ≡ (4 + length s * 8) ∷ s = rw a refl in
      subst (λ b. Adds b wb (wb_string s wb)) (sym e) (wb_string-short s wb v short)
  | no long ↦ elim (dec_lt (length s) (2 ^ 16)) [
    | yes word ↦
        let a : ltb (length s) 32 ≡ false = ground arith in
        let b : ltb (length s) (2 ^ 16) ≡ true = ground arith in rw (a, b) (after_length 21 2)
    | no dword ↦
        let a : ltb (length s) 32 ≡ false = ground arith in
        let b : ltb (length s) (2 ^ 16) ≡ false = ground arith in rw (a, b) (after_length 37 4)
  ]
]
  where
    after_length :
        (h k : ℕ)
        → Adds
            (h ∷ (le_bytes k (length s) ++ s))
            wb
            (wb_push s (push_two h (le_bytes k (length s)) wb))
    after_length h k =
        let two = push_two-Adds h (le_bytes k (length s)) wb v in
        Adds-append (h ∷ le_bytes k (length s)) s wb (push_two h (le_bytes k (length s)) wb)
          (wb_push s (push_two h (le_bytes k (length s)) wb)) two
          (wb_push-contents s (push_two h (le_bytes k (length s)) wb) two.0)
