-- ===== src/Seri/Written.antt =====
-- skynet/lualib-src/lua-seri.c: packing writes the bytes that stand for the values.
use skynet_server.Common.{
  List, [], ◌∷◌, true, false, ℕ, some, ◌++◌, ◌≡◌, ◌+◌, ◌∙◌, ap, arith, sym, ◌≤◌, ltb, refl, Option,
  if◌then◌else◌, append-nil,
}
use skynet_server.Common.Options.{◌>>=◌}
use skynet_server.Seri.{
  Value, Items, Pairs, nil, boolean, integer, real, pointer, str, table, paired, other, empty, cons,
  end, pair, max_depth,
}
use skynet_server.Seri.Blocks.{
  WriteBlock, wb_init, wb_push, seri, contents, IsFull, wb_push-contents, wb_init-IsFull,
}
use skynet_server.Seri.Chain.{seri-contents}
use skynet_server.Seri.Encode.{
  enc, enc_items, enc_pairs, enc_integer, enc_string, enc_size, CanPack, CanPackItems, CanPackPairs,
}
use skynet_server.Seri.Pack.{
  in_array, count, wb_nil, wb_boolean, wb_integer, wb_real, wb_pointer, wb_string, wb_array_size,
  pack_one, pack_items, pack_pairs, guard_depth, luaseri_pack, pack_from,
}
use skynet_server.Seri.Scalars.{
  Adds-append, push_two-Adds, wb_integer-Adds, wb_array_size-Adds, wb_string-Adds, Adds,
}

-- Packing succeeds and writes the bytes.
abbrev pub Packs : List ℕ → WriteBlock → Option WriteBlock → Type 0
Packs bytes wb o = (wb' : WriteBlock) × (o ≡ some wb') × Adds bytes wb wb'

guarded :
    (d : ℕ) (bytes : List ℕ) (wb : WriteBlock) (o : Option WriteBlock)
    → d ≤ max_depth
    → Packs bytes wb o
    → Packs bytes wb (guard_depth d o)
guarded d bytes wb o le p = let e : ltb max_depth d ≡ false = ground arith in rw e p

then-Packs :
    (a b : List ℕ) (wb : WriteBlock) (o : Option WriteBlock) (f : WriteBlock → Option WriteBlock)
    → Packs a wb o
    → ((w : WriteBlock) → IsFull w → Packs b w (f w))
    → Packs (a ++ b) wb (o >>= f)
then-Packs a b wb o f (w, e, v) next =
    let (w', e', v') = next w v.0 in (w', ap (λ p. p >>= f) e ∙ e', Adds-append a b wb w w' v v')

mutual
  unfolding pack_one enc CanPack wb_nil wb_boolean wb_real wb_pointer

  one-Packs :
      (x : Value) (d : ℕ) (wb : WriteBlock)
      → IsFull wb
      → CanPack d x
      → Packs (enc x) wb (pack_one x d wb)
  one-Packs nil d wb v c =
      guarded d (0 ∷ []) wb (some (wb_nil wb)) c (wb_nil wb, refl, wb_push-contents (0 ∷ []) wb v)
  one-Packs (boolean true) d wb v c =
      guarded d (9 ∷ []) wb (some (wb_boolean true wb)) c
        (wb_boolean true wb, refl, wb_push-contents (9 ∷ []) wb v)
  one-Packs (boolean false) d wb v c =
      guarded d (1 ∷ []) wb (some (wb_boolean false wb)) c
        (wb_boolean false wb, refl, wb_push-contents (1 ∷ []) wb v)
  one-Packs (integer i) d wb v (c, range) =
      guarded d (enc_integer i) wb (some (wb_integer i wb)) c
        (wb_integer i wb, refl, wb_integer-Adds i wb v range)
  one-Packs (real bytes) d wb v (c, e) =
      guarded d (66 ∷ bytes) wb (some (wb_real bytes wb)) c
        (wb_real bytes wb, refl, push_two-Adds 66 bytes wb v)
  one-Packs (pointer bytes) d wb v (c, e) =
      guarded d (3 ∷ bytes) wb (some (wb_pointer bytes wb)) c
        (wb_pointer bytes wb, refl, push_two-Adds 3 bytes wb v)
  one-Packs (str s) d wb v (c, range) =
      guarded d (enc_string s) wb (some (wb_string s wb)) c
        (wb_string s wb, refl, wb_string-Adds s wb v range)
  one-Packs (table xs ps) d wb v (c, range, items, pairs) =
      guarded d (enc (table xs ps)) wb
        (pack_items xs (d + 1) (wb_array_size (count xs) wb) >>= pack_pairs ps (count xs) (d + 1)) c
        (let size = wb_array_size-Adds (count xs) wb v range in
          let (w, e, u) =
            then-Packs (enc_items xs) (enc_pairs ps (count xs)) (wb_array_size (count xs) wb)
              (pack_items xs (d + 1) (wb_array_size (count xs) wb))
              (pack_pairs ps (count xs) (d + 1))
              (items-Packs xs (d + 1) (wb_array_size (count xs) wb) size.0 items)
              (λ w u. pairs-Packs ps (count xs) (d + 1) w u pairs) in
          (
            w,
            e,
            Adds-append (enc_size (count xs)) (enc_items xs ++ enc_pairs ps (count xs)) wb
                (wb_array_size (count xs) wb) w size u,
          ))
  one-Packs (paired ps) d wb v (c, pairs) =
      guarded d (enc (paired ps)) wb (pack_pairs ps 0 (d + 1) (wb_push (6 ∷ []) wb)) c (
        let head = wb_push-contents (6 ∷ []) wb v in
        let (w, e, u) = pairs-Packs ps 0 (d + 1) (wb_push (6 ∷ []) wb) head.0 pairs in
        (w, e, Adds-append (6 ∷ []) (enc_pairs ps 0) wb (wb_push (6 ∷ []) wb) w head u))
  one-Packs other d wb v c = absurd c

  items-Packs :
      (xs : Items) (d : ℕ) (wb : WriteBlock)
      → IsFull wb
      → CanPackItems d xs
      → Packs (enc_items xs) wb (pack_items xs d wb)
  items-Packs empty d wb v c = (wb, refl, (v, sym (append-nil (contents wb))))
  items-Packs (cons x xs) d wb v (c, cs) =
      then-Packs (enc x) (enc_items xs) wb (pack_one x d wb) (pack_items xs d)
        (one-Packs x d wb v c) (λ w u. items-Packs xs d w u cs)

  pairs-Packs :
      (ps : Pairs) (n d : ℕ) (wb : WriteBlock)
      → IsFull wb
      → CanPackPairs d ps
      → Packs (enc_pairs ps n) wb (pack_pairs ps n d wb)
  pairs-Packs end n d wb v c = (wb_nil wb, refl, wb_push-contents (0 ∷ []) wb v)
  pairs-Packs (pair k x ps) n d wb v (c, key, c', cs) =
      then-Packs (if in_array k n then [] else enc k ++ enc x) (enc_pairs ps n) wb
        (if in_array k n then some wb else (pack_one k d wb >>= pack_one x d)) (pack_pairs ps n d)
        (elim (in_array k n)
          as (λ b.
            Packs (if b then [] else enc k ++ enc x) wb
              (if b then some wb else (pack_one k d wb >>= pack_one x d))) [
                | true ↦ (wb, refl, (v, sym (append-nil (contents wb))))
                | false ↦
                    then-Packs (enc k) (enc x) wb (pack_one k d wb) (pack_one x d)
                      (one-Packs k d wb v c) (λ w u. one-Packs x d w u c')
              ])
        (λ w u. pairs-Packs ps n d w u cs)

pub pack_one-Packs :
    (x : Value) (d : ℕ) (wb : WriteBlock)
    → IsFull wb
    → CanPack d x
    → Packs (enc x) wb (pack_one x d wb)
pack_one-Packs x d wb v c = one-Packs x d wb v c

abbrev pub enc_all : List Value → List ℕ
enc_all [] = []
enc_all (x ∷ xs) = enc x ++ enc_all xs

abbrev pub CanPackAll : List Value → Type 0
CanPackAll [] = Unit {0}
CanPackAll (x ∷ xs) = CanPack 0 x × CanPackAll xs

pack_from-Packs :
    (xs : List Value) (wb : WriteBlock)
    → IsFull wb
    → CanPackAll xs
    → Packs (enc_all xs) wb (pack_from xs wb)
unfolding pack_from
pack_from-Packs [] wb v c = (wb, refl, (v, sym (append-nil (contents wb))))
pack_from-Packs (x ∷ xs) wb v (c, cs) =
    then-Packs (enc x) (enc_all xs) wb (pack_one x 0 wb) (pack_from xs) (pack_one-Packs x 0 wb v c)
      (λ w u. pack_from-Packs xs w u cs)

-- `luaseri_pack` of values that can be packed returns exactly the bytes that stand for them, one
-- value after the other, however they fall into the blocks.
pub luaseri_pack_lem :
    (junk : List ℕ) (xs : List Value) → CanPackAll xs → luaseri_pack junk xs ≡ some (enc_all xs)
unfolding luaseri_pack wb_init
luaseri_pack_lem junk xs c =
    let (w, e, (v, f)) = pack_from-Packs xs wb_init wb_init-IsFull c in
    ap (λ o. o >>= λ wb. seri wb.len (wb.blocks ++ (wb.current ++ junk) ∷ [])) e
    ∙ seri-contents w junk v
    ∙ ap some f
