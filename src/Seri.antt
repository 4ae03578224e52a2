-- ===== src/Seri.antt =====
-- skynet/lualib-src/lua-seri.c: values of Lua packed into bytes and unpacked again. The machine is
-- little-endian, with pointers of 8 bytes.
pub mod Blocks
pub mod Chain
pub mod Bytes
pub mod Pack
pub mod Unpack
pub mod Encode
pub mod Scalars
pub mod Written
pub mod Numbers
pub mod Front
pub mod Encoded
pub mod Reads
pub mod RoundTrip
pub mod Total
mod Tests
use skynet_server.Common.{Bool, ℕ, ◌+◌, List, ◌*◌}
use skynet_server.Common.Int.{ℤ}

-- What `lua_type` and the stack show of a value. `real` and `pointer` are the 8 bytes of a
-- `double` and of a pointer. A `table` has the values 1 to `lua_rawlen`, and the pairs of a whole
-- iteration with `lua_next`; `paired` is a table with a metamethod `__pairs`, and the pairs that
-- its iteration gives. `other` is a value of any other type, such as a function.
mutual
  pub data Value : Type 0 where
    nil : Value
    boolean : Bool → Value
    integer : ℤ → Value
    real : List ℕ → Value
    pointer : List ℕ → Value
    str : List ℕ → Value
    table : Items → Pairs → Value
    paired : Pairs → Value
    other : Value

  pub data Items : Type 0 where
    empty : Items
    cons : Value → Items → Items

  pub data Pairs : Type 0 where
    end : Pairs
    pair : Value → Value → Pairs → Pairs

abbrev pub max_cookie : ℕ
max_cookie = 32

abbrev pub max_depth : ℕ
max_depth = 32
