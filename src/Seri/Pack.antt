-- ===== src/Seri/Pack.antt =====
-- skynet/lualib-src/lua-seri.c: packing. `none` is an error that `luaL_error` raises.
use Prim.Native.Nat.{bit_or}
use skynet_server.Common.{
  List, [], ◌∷◌, true, false, ℕ, suc, none, some, Bool, Option, if◌then◌else◌, length, ◌%◌, ◌*◌,
  leb, ltb, ◌++◌, ◌+◌, ◌==◌, ◌^◌, not, ◌&&◌, ◌-◌,
}
use skynet_server.Common.Int.{ℤ, pos, negsuc}
use skynet_server.Seri.{
  Value, Items, Pairs, nil, boolean, integer, real, pointer, str, table, paired, other, empty, cons,
  end, pair, max_cookie, max_depth,
}
use skynet_server.Seri.Blocks.{WriteBlock, wb_init, wb_push, seri}
use skynet_server.Seri.Bytes.{le_bytes, bits_of, int32}
use skynet_server.Common.Options.{◌>>=◌}

-- `COMBINE_TYPE(t,v)`, as a byte.
abbrev pub combine_type : ℕ → ℕ → ℕ
combine_type t v = bit_or t (v * 2 ^ 3) % 256

unfoldable pub wb_nil : WriteBlock → WriteBlock
wb_nil wb = wb_push (0 ∷ []) wb

unfoldable pub wb_boolean : Bool → WriteBlock → WriteBlock
wb_boolean b wb = wb_push (combine_type 1 (if b then 1 else 0) ∷ []) wb

abbrev pub same_int : ℤ → ℤ → Bool
same_int (pos a) (pos b) = a == b
same_int (negsuc a) (negsuc b) = a == b
same_int _ _ = false

abbrev pub is_negative : ℤ → Bool
is_negative (pos a) = false
is_negative (negsuc a) = true

-- Two calls of `wb_push`.
abbrev pub push_two : ℕ → List ℕ → WriteBlock → WriteBlock
push_two n bytes wb = wb_push bytes (wb_push (n ∷ []) wb)

unfoldable pub wb_integer : ℤ → WriteBlock → WriteBlock
wb_integer v wb =
    let low = bits_of v % 2 ^ 32 in
    if same_int v (pos 0)
    then wb_push (combine_type 2 0 ∷ []) wb
    else if not (same_int v (int32 low))
    then push_two (combine_type 2 6) (le_bytes 8 (bits_of v)) wb
    else if is_negative v
    then push_two (combine_type 2 4) (le_bytes 4 low) wb
    else if ltb (bits_of v) 0x100
    then push_two (combine_type 2 1) (bits_of v ∷ []) wb
    else if ltb (bits_of v) 0x10000
    then push_two (combine_type 2 2) (le_bytes 2 (bits_of v)) wb
    else push_two (combine_type 2 4) (le_bytes 4 low) wb

-- `wb_real` and `wb_pointer`, of the 8 bytes of the value.
unfoldable pub wb_real : List ℕ → WriteBlock → WriteBlock
wb_real bytes wb = push_two (combine_type 2 8) bytes wb

unfoldable pub wb_pointer : List ℕ → WriteBlock → WriteBlock
wb_pointer bytes wb = push_two 3 bytes wb

unfoldable pub wb_string : List ℕ → WriteBlock → WriteBlock
wb_string s wb =
    let len = length s in
    let short = wb_push (combine_type 4 len ∷ []) wb in
    if ltb len max_cookie
    then (if ltb 0 len then wb_push s short else short)
    else if ltb len 0x10000
    then wb_push s (push_two (combine_type 5 2) (le_bytes 2 len) wb)
    else wb_push s (push_two (combine_type 5 4) (le_bytes 4 len) wb)

abbrev pub count : Items → ℕ
count empty = 0
count (cons v xs) = suc (count xs)

-- The header of `wb_table_array`.
unfoldable pub wb_array_size : ℕ → WriteBlock → WriteBlock
unfolding wb_integer
wb_array_size n wb =
    if leb (max_cookie - 1) n
    then wb_integer (pos n) (wb_push (combine_type 6 (max_cookie - 1) ∷ []) wb)
    else wb_push (combine_type 6 n ∷ []) wb

-- The keys that `wb_table_hash` passes over: those of the array.
abbrev pub in_array : Value → ℕ → Bool
in_array (integer (pos x)) n = ltb 0 x && leb x n
in_array _ n = false

-- `if (depth > MAX_DEPTH)`
abbrev pub guard_depth : ℕ → Option WriteBlock → Option WriteBlock
guard_depth depth packed = if ltb max_depth depth then none else packed

-- `pack_one`, the loop of `wb_table_array`, and those of `wb_table_hash` and `wb_table_metapairs`
-- with the `wb_nil` behind them.
unfoldable mutual
  unfolding wb_nil wb_boolean wb_integer wb_real wb_pointer wb_string wb_array_size

  pub pack_one : Value → ℕ → WriteBlock → Option WriteBlock
  pack_one nil depth wb = guard_depth depth (some (wb_nil wb))
  pack_one (boolean b) depth wb = guard_depth depth (some (wb_boolean b wb))
  pack_one (integer v) depth wb = guard_depth depth (some (wb_integer v wb))
  pack_one (real bytes) depth wb = guard_depth depth (some (wb_real bytes wb))
  pack_one (pointer bytes) depth wb = guard_depth depth (some (wb_pointer bytes wb))
  pack_one (str s) depth wb = guard_depth depth (some (wb_string s wb))
  pack_one (table xs ps) depth wb = guard_depth depth (
      pack_items xs (depth + 1) (wb_array_size (count xs) wb)
      >>= pack_pairs ps (count xs) (depth + 1))
  pack_one (paired ps) depth wb =
      guard_depth depth (pack_pairs ps 0 (depth + 1) (wb_push (combine_type 6 0 ∷ []) wb))
  pack_one other depth wb = none

  pub pack_items : Items → ℕ → WriteBlock → Option WriteBlock
  pack_items empty depth wb = some wb
  pack_items (cons v xs) depth wb = pack_one v depth wb >>= pack_items xs depth

  pub pack_pairs : Pairs → ℕ → ℕ → WriteBlock → Option WriteBlock
  pack_pairs end n depth wb = some (wb_nil wb)
  pack_pairs (pair k v ps) n depth wb =
      (if in_array k n then some wb else (pack_one k depth wb >>= pack_one v depth))
      >>= pack_pairs ps n depth

-- `pack_from`
unfoldable pub pack_from : List Value → WriteBlock → Option WriteBlock
unfolding pack_one
pack_from [] wb = some wb
pack_from (v ∷ vs) wb = pack_one v 0 wb >>= pack_from vs

-- `luaseri_pack`, where `junk` is in the unused bytes of the last block.
unfoldable pub luaseri_pack : List ℕ → List Value → Option (List ℕ)
unfolding pack_from seri wb_init
luaseri_pack junk vs =
    pack_from vs wb_init >>= λ wb. seri wb.len (wb.blocks ++ (wb.current ++ junk) ∷ [])
