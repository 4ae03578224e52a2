-- ===== src/Seri/Unpack.antt =====
-- skynet/lualib-src/lua-seri.c: unpacking. A `struct read_block` is the bytes that are left.
use Prim.Native.Nat.{bit_and}
use skynet_server.Common.{
  List, [], ◌∷◌, true, false, ℕ, zero, suc, Bool, if◌then◌else◌, ◌/◌, ltb, ◌==◌, ◌^◌, length, not,
  ◌*◌, ◌+◌, ◌%◌, ◌&&◌, take, ◌-◌, drop,
}
use skynet_server.Common.Int.{ℤ, pos, negsuc}
use skynet_server.Seri.{
  Value, Items, Pairs, nil, boolean, integer, real, pointer, str, table, empty, cons, end, pair,
  max_cookie,
}
use skynet_server.Seri.Bytes.{of_bytes, int32, int64}

-- `invalid` is the error of `invalid_stream`, `too_big` the error of Lua for a string that no memory
-- can hold, and `stuck` that the fuel ran out.
pub data Result {ℓ} (A : Type ℓ) : Type ℓ where
  ok : A → Result A
  invalid : Result A
  too_big : Result A
  stuck : Result A

infixl 5 ◌>>=◌
abbrev pub ◌>>=◌ {ℓ κ} : {A : Type ℓ} {B : Type κ} → Result A → (A → Result B) → Result B
ok a >>= f = f a
invalid >>= f = invalid
too_big >>= f = too_big
stuck >>= f = stuck

-- What is read, and the bytes behind it.
abbrev pub Read : Type 0 → Type 0
Read A = Result (A × List ℕ)

unfoldable pub rb_read : ℕ → List ℕ → Read (List ℕ)
rb_read sz rb = if ltb (length rb) sz then invalid else ok (take sz rb, drop sz rb)

-- The integer that some bytes stand for.
abbrev pub int_of : (ℕ → ℤ) → List ℕ × List ℕ → Read ℤ
int_of f (b, r) = ok (f (of_bytes b), r)

-- What is read, as a value.
abbrev pub as_value {ℓ} : {A : Type ℓ} → (A → Value) → A × List ℕ → Read Value
as_value make (a, r) = ok (make a, r)

unfoldable pub get_integer : ℕ → List ℕ → Read ℤ
unfolding rb_read
get_integer cookie rb =
    if cookie == 0
    then ok (pos 0, rb)
    else if cookie == 1
    then (rb_read 1 rb >>= int_of pos)
    else if cookie == 2
    then (rb_read 2 rb >>= int_of pos)
    else if cookie == 4
    then (rb_read 4 rb >>= int_of int32)
    else if cookie == 6
    then (rb_read 8 rb >>= int_of int64)
    else invalid

-- `get_real` and `get_pointer`, and what is read in `get_buffer`.
unfoldable pub get_bytes : (List ℕ → Value) → ℕ → List ℕ → Read Value
unfolding rb_read
get_bytes make sz rb = rb_read sz rb >>= as_value make

-- `get_buffer`. A length from 2^31 on is negative as an `int`: `rb_read` then succeeds, and
-- `lua_pushlstring` gets a size of more than half of all 64-bit numbers, for which it raises an error.
unfoldable pub get_buffer : ℕ → List ℕ → Read Value
unfolding get_bytes
get_buffer len rb = if ltb len (2 ^ 31) then get_bytes str len rb else too_big

-- A text of the length that was read.
abbrev pub get_text : List ℕ × List ℕ → Read Value
get_text (b, r) = get_buffer (of_bytes b) r

-- The rounds of `for (i=1;i<=array_size;i++)`, for the `int` of a `lua_Integer`.
abbrev pub rounds : ℤ → ℕ
rounds (pos n) = if ltb (n % 2 ^ 32) (2 ^ 31) then n % 2 ^ 32 else 0
rounds (negsuc n) = if ltb (n % 2 ^ 32) (2 ^ 31) then 0 else 2 ^ 32 - 1 - n % 2 ^ 32

abbrev pub Body : Type 0
Body = ℕ → List ℕ → Read (Items × Pairs)

abbrev pub make_table : Read (Items × Pairs) → Read Value
make_table r = r >>= λ ((xs, ps), rest). ok (table xs ps, rest)

-- The type and the cookie of a byte.
abbrev pub type_of : ℕ → ℕ
type_of t = bit_and t 7

abbrev pub cookie_of : ℕ → ℕ
cookie_of t = t / 2 ^ 3

-- The rounds of the loops after the length of a long array.
abbrev pub sized_table : Body → ℤ × List ℕ → Read Value
sized_table body (n, r) = make_table (body (rounds n) r)

abbrev pub long_table : Body → List ℕ × List ℕ → Read Value
long_table body (b, r) =
    if type_of (of_bytes b) == 2 && not (cookie_of (of_bytes b) == 8)
    then get_integer (cookie_of (of_bytes b)) r >>= sized_table body
    else invalid

-- `unpack_table`, with the loops in `body`. `lua_createtable` finds the memory for the length that is
-- claimed, and `luaL_checkstack` the room.
unfoldable pub unpack_table : Body → ℕ → List ℕ → Read Value
unfolding rb_read get_integer
unpack_table body array_size rb =
    if array_size == max_cookie - 1
    then (rb_read 1 rb >>= long_table body)
    else make_table (body array_size rb)

unfoldable pub push_value : Body → ℕ → ℕ → List ℕ → Read Value
unfolding rb_read get_integer get_bytes get_buffer unpack_table
push_value body type cookie rb =
    if type == 0
    then ok (nil, rb)
    else if type == 1
    then ok (boolean (not (cookie == 0)), rb)
    else if type == 2
    then (if cookie == 8 then get_bytes real 8 rb else (get_integer cookie rb >>= as_value integer))
    else if type == 3
    then get_bytes pointer 8 rb
    else if type == 4
    then get_buffer cookie rb
    else if type == 5
    then (if cookie == 2
        then (rb_read 2 rb >>= get_text)
        else if cookie == 4
        then (rb_read 4 rb >>= get_text)
        else invalid)
    else if type == 6
    then unpack_table body cookie rb
    else invalid

abbrev pub is_nil : Value → Bool
is_nil nil = true
is_nil _ = false

-- A round of the loop over the pairs, from its key.
abbrev pub pair_of : (List ℕ → Read Value) → (List ℕ → Read Pairs) → Value × List ℕ → Read Pairs
pair_of one more (k, r) = elim (is_nil k) [
  | true ↦ ok (end, r)
  | false ↦ one r >>= λ (v, r'). more r' >>= λ (ps, r''). ok (pair k v ps, r'')
]

-- `unpack_one`, and the two loops of `unpack_table`, on fuel.
unfoldable mutual
  unfolding push_value

  pub unpack_one : ℕ → List ℕ → Read Value
  unpack_one zero rb = stuck
  unpack_one (suc f) [] = invalid
  unpack_one (suc f) (t ∷ rb) = push_value (unpack_array f) (type_of t) (cookie_of t) rb

  pub unpack_array : ℕ → ℕ → List ℕ → Read (Items × Pairs)
  unpack_array zero n rb = stuck
  unpack_array (suc f) zero rb = unpack_pairs f rb >>= λ (ps, r). ok ((empty, ps), r)
  unpack_array (suc f) (suc n) rb = unpack_one f rb >>= λ (v, r).
      unpack_array f n r >>= λ ((xs, ps), r'). ok ((cons v xs, ps), r')

  pub unpack_pairs : ℕ → List ℕ → Read Pairs
  unpack_pairs zero rb = stuck
  unpack_pairs (suc f) rb = unpack_one f rb >>= pair_of (unpack_one f) (unpack_pairs f)

-- The loop of `luaseri_unpack`: values until the bytes end.
unfoldable pub unpack_all : ℕ → List ℕ → Result (List Value)
unfolding unpack_one
unpack_all zero rb = stuck
unpack_all (suc f) [] = ok []
unpack_all (suc f) (t ∷ rb) =
    unpack_one (suc f) (t ∷ rb) >>= λ (v, r). unpack_all f r >>= λ vs. ok (v ∷ vs)

-- `luaseri_unpack` of the bytes of a string or of a buffer. The fuel bounds how deep the calls and the
-- rounds of the loops are nested.
abbrev pub luaseri_unpack : List ℕ → Result (List Value)
luaseri_unpack buffer = unpack_all (3 * length buffer + 2) buffer
