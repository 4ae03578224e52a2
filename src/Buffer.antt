-- ===== src/Buffer.antt =====
-- skynet/service-src/databuffer.h: the buffer of received data that the gate cuts into packets. A
-- chunk is the bytes of one `struct message` in use, whose `size` is how many it has; the chain from
-- `head` to `tail` is the list of them. Of the pool only the counts are kept: its blocks, and the
-- messages on its free list. `none` is a failed assert or a read through NULL.
pub mod Read
pub mod Frame
pub mod Packets
mod Tests
use Prim.Native.Nat.{bit_or}
use skynet_server.Common.Options.{◌>>◌}
use skynet_server.Common.{
  List, if◌then◌else◌, ℕ, Bool, Option, [], get_or, ltb, ◌+◌, ◌==◌, length, none, some, ◌*◌, ◌-◌,
  ◌^◌, false, ◌++◌, ◌∷◌, take, drop, leb,
}
use skynet_server.Common.Int.{pos, ℤ, ltb_ℤ, negsuc}
use skynet_server.Common.Options.{◌>>=◌, assert}

abbrev pub message_pool : ℕ
message_pool = 1023

-- `struct databuffer`
pub record DataBuffer : Type 0 where
  pub header : ℤ
  pub offset : ℕ
  pub size : ℕ
  pub chunks : List (List ℕ)

-- `struct messagepool`
pub record Pool : Type 0 where
  pub blocks : ℕ
  pub free : ℕ

-- What a round copies stands before what the later rounds copy.
abbrev pub copy_first :
    List ℕ → Option (List ℕ × ℕ × List (List ℕ) × ℕ) → Option (List ℕ × ℕ × List (List ℕ) × ℕ)
copy_first first none = none
copy_first first (some (bytes, offset, chunks, free)) = some (first ++ bytes, offset, chunks, free)

-- The loop of `databuffer_read`, each of whose rounds but the last returns a message to the pool:
-- the bytes copied, the new offset, the chunks and the free messages.
unfoldable pub read_loop : List (List ℕ) → ℕ → ℕ → ℕ → Option (List ℕ × ℕ × List (List ℕ) × ℕ)
read_loop [] offset sz free = none
read_loop (m ∷ ms) offset sz free =
    let bsz = length m - offset in
    let rest = copy_first (take bsz (drop offset m)) (read_loop ms 0 (sz - bsz) (free + 1)) in
    if ltb (length m) offset
    then none
    else if ltb sz bsz
    then some (take sz (drop offset m), offset + sz, m ∷ ms, free)
    else if bsz == sz
    then some (take sz (drop offset m), 0, ms, free + 1)
    else rest

unfoldable pub read : ℕ → DataBuffer → Pool → Option (List ℕ × DataBuffer × Pool)
unfolding read_loop
read sz db mp = do
  assert (leb sz db.size)
  (bytes, offset, chunks, free) ← read_loop db.chunks db.offset sz mp.free
  some (
    bytes,
    record db { size = db.size - sz; offset = offset; chunks = chunks },
    record mp { free = free },
  )

-- A message is taken from the free list, or from a new block.
abbrev pub take_message : Pool → Pool
take_message mp =
    if mp.free == 0
    then record { blocks = mp.blocks + 1; free = message_pool - 1 }
    else record mp { free = mp.free - 1 }

-- `databuffer_push`
unfoldable pub push : List ℕ → DataBuffer → Pool → DataBuffer × Pool
push bytes db mp =
    (record db { size = db.size + length bytes; chunks = db.chunks ++ bytes ∷ [] }, take_message mp)

-- An `int` from its 32 bits.
abbrev pub to_int : ℕ → ℤ
to_int n = if ltb n (2 ^ 31) then pos n else negsuc (2 ^ 32 - 1 - n)

-- The length that the bytes of a header stand for.
unfoldable pub header_of : ℕ → List ℕ → ℤ
header_of header_size bytes =
    let b = λ (i : ℕ). get_or bytes i 0 in
    if header_size == 2
    then pos (bit_or (b 0 * 2 ^ 8) (b 1))
    else to_int (bit_or (bit_or (bit_or (b 0 * 2 ^ 24) (b 1 * 2 ^ 16)) (b 2 * 2 ^ 8)) (b 3))

-- `databuffer_readheader` once the header is known.
abbrev pub await_body : DataBuffer → Pool → ℤ × DataBuffer × Pool
await_body db mp = (if ltb_ℤ (pos db.size) db.header then negsuc 0 else db.header, db, mp)

-- The header is what was read.
unfoldable pub take_header : ℕ → List ℕ × DataBuffer × Pool → Option (ℤ × DataBuffer × Pool)
unfolding header_of
take_header header_size (bytes, db, mp) =
    some (await_body (record db { header = header_of header_size bytes }) mp)

-- `db->header == 0`
abbrev pub no_header : ℤ → Bool
no_header (pos n) = n == 0
no_header (negsuc n) = false

unfoldable pub readheader : ℕ → DataBuffer → Pool → Option (ℤ × DataBuffer × Pool)
unfolding read
readheader header_size db mp =
    let fresh = read header_size db mp >>= take_header header_size in
    if no_header db.header
    then if ltb db.size header_size then some (negsuc 0, db, mp) else fresh
    else some (await_body db mp)

-- `databuffer_reset`
abbrev pub reset : DataBuffer → DataBuffer
reset db = record db { header = pos 0 }

-- `databuffer_clear`
unfoldable pub clear : DataBuffer → Pool → DataBuffer × Pool
clear db mp = (
  record { header = pos 0; offset = 0; size = 0; chunks = [] },
  record mp { free = mp.free + length db.chunks },
)
