-- ===== src/Seri/Reads.antt =====
-- skynet/lualib-src/lua-seri.c: each value that is packed is read back.
use skynet_server.Common.{
  List, [], ◌∷◌, true, false, ℕ, zero, suc, length, ◌<◌, ◌≡◌, ◌++◌, ap, length-append, append_assoc,
  arith, sym, ◌+◌, if◌then◌else◌, ◌∙◌, ◌*◌, refl,
}
use skynet_server.Seri.{
  Value, Items, Pairs, nil, boolean, integer, real, pointer, str, table, paired, other, empty, cons,
  end, pair,
}
use skynet_server.Seri.Encode.{
  enc, enc_items, enc_pairs, enc_integer, enc_string, enc_size, CanPack, unpacked, unpacked_items,
  unpacked_pairs, CanPackPairs, CanPackItems,
}
use skynet_server.Seri.Pack.{in_array, count}
use skynet_server.Seri.Unpack.{
  Result, ok, ◌>>=◌, push_value, unpack_one, make_table, Read, unpack_array, unpack_pairs, type_of,
  cookie_of, is_nil, pair_of,
}
use skynet_server.Seri.Front.{value_integer, value_size, value_string, get_bytes-front}
use skynet_server.Seri.Encoded.{length-enc, length-enc_size, length-enc_pairs, is_nil-unpacked}

-- `unpack_one` from the first byte.
unpack_one-front :
    (f h : ℕ) (code bytes rest : List ℕ) (r : Read Value)
    → code ≡ h ∷ bytes
    → push_value (unpack_array f) (type_of h) (cookie_of h) (bytes ++ rest) ≡ r
    → unpack_one (suc f) (code ++ rest) ≡ r
unfolding unpack_one
unpack_one-front f h code bytes rest r e g = rw e g

-- One read and then another.
pub reads_then {ℓ κ} :
    {A : Type ℓ} {B : Type κ} (m : Result A) (f : A → Result B) (a : A) (r : Result B)
    → m ≡ ok a
    → f a ≡ r
    → (m >>= f) ≡ r
reads_then m f a r e g = rw e g

pair_of-ok :
    (one : List ℕ → Read Value) (more : List ℕ → Read Pairs) (k v : Value) (ps : Pairs)
    (r r' r'' : List ℕ)
    → is_nil k ≡ false
    → one r ≡ ok (v, r')
    → more r' ≡ ok (ps, r'')
    → pair_of one more (k, r) ≡ ok (pair k v ps, r'')
pair_of-ok one more k v ps r r' r'' e g h =
    ap
      (λ b. elim b as (λ _. Read Pairs) [
        | true ↦ ok (end, r)
        | false ↦ one r >>= λ (v, r'). more r' >>= λ (ps, r''). ok (pair k v ps, r'')
      ])
      e
    ∙ reads_then (one r) (λ (v, r'). more r' >>= λ (ps, r''). ok (pair k v ps, r'')) (v, r')
        (ok (pair k v ps, r'')) g
        (reads_then (more r') (λ (ps, r''). ok (pair k v ps, r'')) (ps, r'') (ok (pair k v ps, r''))
          h refl)

mutual
  unfolding unpack_one enc CanPack unpacked push_value

  pub one-reads :
      (x : Value) (d f : ℕ) (rest : List ℕ)
      → CanPack d x
      → 3 * length (enc x) < f + 3
      → unpack_one f (enc x ++ rest) ≡ ok (unpacked x, rest)
  one-reads x d zero rest c le = let p = length-enc x d c in absurd (omega arith)
  one-reads nil d (suc f) rest c le = refl
  one-reads (boolean true) d (suc f) rest c le = refl
  one-reads (boolean false) d (suc f) rest c le = refl
  one-reads (integer i) d (suc f) rest (c, range) le =
      let (h, bytes, e, g) = value_integer rest (unpack_array f) i range in
      unpack_one-front f h (enc_integer i) bytes rest (ok (integer i, rest)) e g
  one-reads (real bytes) d (suc f) rest (c, e) le = get_bytes-front rest real 8 bytes (sym e)
  one-reads (pointer bytes) d (suc f) rest (c, e) le = get_bytes-front rest pointer 8 bytes (sym e)
  one-reads (str s) d (suc f) rest (c, range) le =
      let (h, bytes, e, g) = value_string rest (unpack_array f) s range in
      unpack_one-front f h (enc_string s) bytes rest (ok (str s, rest)) e g
  one-reads (table xs ps) d (suc f) rest (c, range, cs, cp) le =
      let code = enc_items xs ++ enc_pairs ps (count xs) in
      let t = length-append (enc_size (count xs)) code in
      let t' = length-append (enc_items xs) (enc_pairs ps (count xs)) in
      let low = length-enc_size (count xs) in
      let (h, bytes, e, g) =
        value_size (enc_items xs ++ (enc_pairs ps (count xs) ++ rest)) (unpack_array f) (count xs)
          (ok ((unpacked_items xs, unpacked_pairs ps (count xs)), rest)) range
          (array-reads xs ps (count xs) (d + 1) f rest cs cp (omega arith)) in
      ap (unpack_one (suc f)) (
        append_assoc (enc_size (count xs)) code rest
        ∙ ap (λ b. enc_size (count xs) ++ b)
            (append_assoc (enc_items xs) (enc_pairs ps (count xs)) rest))
      ∙ unpack_one-front f h (enc_size (count xs)) bytes
          (enc_items xs ++ (enc_pairs ps (count xs) ++ rest)) (ok (unpacked (table xs ps), rest)) e
          g
  one-reads (paired ps) d (suc f) rest (c, cp) le =
      ap make_table (array-reads empty ps 0 (d + 1) f rest tt cp (omega arith))
  one-reads other d (suc f) rest c le = absurd c

  array-reads :
      (xs : Items) (ps : Pairs) (m d f : ℕ) (rest : List ℕ)
      → CanPackItems d xs
      → CanPackPairs d ps
      → 3 * (length (enc_items xs) + length (enc_pairs ps m)) < f + 1
      → unpack_array f (count xs) (enc_items xs ++ (enc_pairs ps m ++ rest))
        ≡ ok ((unpacked_items xs, unpacked_pairs ps m), rest)
  array-reads xs ps m d zero rest cs cp le =
      let p = length-enc_pairs ps m d cp in absurd (omega arith)
  array-reads empty ps m d (suc f) rest cs cp le =
      ap (λ (o : Read Pairs). o >>= λ (ps, r). ok ((empty, ps), r))
        (pairs-reads ps m d f rest cp (omega arith))
  array-reads (cons x xs) ps m d (suc f) rest (c, cs) cp le =
      let p = length-enc_pairs ps m d cp in
      let q = length-enc x d c in
      let t = length-append (enc x) (enc_items xs) in
      reads_then (unpack_one f ((enc x ++ enc_items xs) ++ (enc_pairs ps m ++ rest)))
        (λ (v, r). unpack_array f (count xs) r >>= λ ((xs, ps), r'). ok ((cons v xs, ps), r'))
        (unpacked x, enc_items xs ++ (enc_pairs ps m ++ rest))
        (ok ((unpacked_items (cons x xs), unpacked_pairs ps m), rest))
        (ap (unpack_one f) (append_assoc (enc x) (enc_items xs) (enc_pairs ps m ++ rest))
          ∙ one-reads x d f (enc_items xs ++ (enc_pairs ps m ++ rest)) c (omega arith))
        (reads_then (unpack_array f (count xs) (enc_items xs ++ (enc_pairs ps m ++ rest)))
          (λ ((xs, ps), r'). ok ((cons (unpacked x) xs, ps), r'))
          ((unpacked_items xs, unpacked_pairs ps m), rest)
          (ok ((unpacked_items (cons x xs), unpacked_pairs ps m), rest))
          (array-reads xs ps m d f rest cs cp (omega arith)) refl)

  pairs-reads :
      (ps : Pairs) (m d f : ℕ) (rest : List ℕ)
      → CanPackPairs d ps
      → 3 * length (enc_pairs ps m) < f + 2
      → unpack_pairs f (enc_pairs ps m ++ rest) ≡ ok (unpacked_pairs ps m, rest)
  pairs-reads ps m d zero rest cp le = let p = length-enc_pairs ps m d cp in absurd (omega arith)
  pairs-reads end m d (suc zero) rest cp le = absurd (omega arith)
  pairs-reads end m d (suc (suc f)) rest cp le = refl
  pairs-reads (pair k v ps) m d (suc f) rest (c, nz, c', cp) le =
      elim (in_array k m)
          as (λ b.
            3 * length ((if b then [] else enc k ++ enc v) ++ enc_pairs ps m) < suc f + 2
            → unpack_pairs (suc f) (((if b then [] else enc k ++ enc v) ++ enc_pairs ps m) ++ rest)
              ≡ ok (
                (if b
                    then unpacked_pairs ps m
                    else pair (unpacked k) (unpacked v) (unpacked_pairs ps m)),
                rest,
              )) [
                | true ↦ λ le. pairs-reads ps m d (suc f) rest cp le
                | false ↦ λ le.
                    let p = length-enc_pairs ps m d cp in
                    let q = length-enc k d c in
                    let q' = length-enc v d c' in
                    let t = length-append (enc k ++ enc v) (enc_pairs ps m) in
                    let t' = length-append (enc k) (enc v) in
                    let after = enc_pairs ps m ++ rest in
                    let key : unpack_one f (((enc k ++ enc v) ++ enc_pairs ps m) ++ rest)
                        ≡ ok (unpacked k, enc v ++ after) =
                      ap (unpack_one f) (
                        append_assoc (enc k ++ enc v) (enc_pairs ps m) rest
                        ∙ append_assoc (enc k) (enc v) after)
                      ∙ one-reads k d f (enc v ++ after) c (omega arith) in
                    let value : unpack_one f (enc v ++ after) ≡ ok (unpacked v, after) =
                      one-reads v d f after c' (omega arith) in
                    let others : unpack_pairs f after ≡ ok (unpacked_pairs ps m, rest) =
                      pairs-reads ps m d f rest cp (omega arith) in
                    let go : is_nil (unpacked k) ≡ false = is_nil-unpacked k ∙ nz in
                    let second : pair_of (unpack_one f) (unpack_pairs f)
                          (unpacked k, enc v ++ after)
                        ≡ ok (pair (unpacked k) (unpacked v) (unpacked_pairs ps m), rest) =
                      pair_of-ok (unpack_one f) (unpack_pairs f) (unpacked k) (unpacked v)
                        (unpacked_pairs ps m) (enc v ++ after) after rest go value others in
                    reads_then (unpack_one f (((enc k ++ enc v) ++ enc_pairs ps m) ++ rest))
                      (pair_of (unpack_one f) (unpack_pairs f)) (unpacked k, enc v ++ after)
                      (ok (pair (unpacked k) (unpacked v) (unpacked_pairs ps m), rest)) key second
              ]
        le
