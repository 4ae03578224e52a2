-- ===== src/Context.antt =====
-- skynet/skynet-src/skynet_server.c and skynet/skynet-src/skynet_harbor.c: the contexts of services,
-- the numbers of their requests, and the sending of messages. `none` is a failed assert.
pub mod Session
pub mod Hex
pub mod Sizes
pub mod Disposal
pub mod Owner
pub mod Refs
pub mod Threads
pub mod Counted
pub mod Lifetime
mod Tests
use Prim.Native.Nat.{bit_and, bit_or}
use skynet_server.Common.{
  List, [], ◌∷◌, ◌++◌, ℕ, zero, suc, Bool, true, false, Option, none, some, if◌then◌else◌, ◌+◌, ◌-◌,
  ◌*◌, ◌/◌, ◌%◌, ◌^◌, ◌==◌, ◌||◌, ◌&&◌, not, ltb, leb, drop, get_or,
}
use skynet_server.Common.Int.{ℤ, pos, negsuc}
use skynet_server.Common.Options.{◌>>=◌, assert}
use skynet_server.Gate.Control.{strtoul}
use skynet_server.Gate.Control as Control

-- What sending reads and writes of `struct skynet_context`.
pub record Context : Type 0 where
  pub handle : ℕ
  pub session_id : ℕ

-- `skynet_context_newsession`. The number is an `int`, of which these are the 32 bits.
unfoldable pub newsession : Context → ℕ × Context
newsession ctx =
    let session = (ctx.session_id + 1) % 2 ^ 32 in
    if (session == 0) || leb (2 ^ 31) session
    then (1, record ctx { session_id = 1 })
    else (session, record ctx { session_id = session })

-- The digits of `hex`.
abbrev pub hex : ℕ → ℕ
hex d = if ltb d 10 then 48 + d else 55 + d

-- The loop of `id_to_hex`, with the digits that are left.
unfoldable pub hex_digits : ℕ → ℕ → List ℕ
hex_digits zero id = []
hex_digits (suc n) id = hex (bit_and (id / 16 ^ n) 0xf) ∷ hex_digits n id

unfoldable pub id_to_hex : ℕ → List ℕ
unfolding hex_digits
id_to_hex id = 58 ∷ hex_digits 8 id

-- The tags of a type, `MESSAGE_TYPE_SHIFT` and `MESSAGE_TYPE_MASK` of 64 bits.
abbrev pub tag_dontcopy : ℕ
tag_dontcopy = 0x10000

abbrev pub tag_allocsession : ℕ
tag_allocsession = 0x20000

abbrev pub message_type_shift : ℕ
message_type_shift = 56

abbrev pub message_type_mask : ℕ
message_type_mask = 2 ^ 56 - 1

-- `HARBOR`, which is all ones before `skynet_harbor_init`.
unfoldable pub message_isremote : ℕ → ℕ → Option Bool
message_isremote harbor handle =
    let h = handle / 2 ^ 24 * 2 ^ 24 in
    assert (not (harbor == 2 ^ 32 - 1)) >>= λ _. some (not (h == harbor) && not (h == 0))

-- `skynet_harbor_init`
abbrev pub harbor_init : ℕ → ℕ
harbor_init harbor = harbor * 2 ^ 24 % 2 ^ 32

-- What happens to the data of a message, where data is a pointer and 0 is NULL: it is freed, put on the
-- queue of a service (the destination, the source, the session, and the size with the type), or
-- handed to the harbor (the destination or the name, the source, the session, the size and the type).
pub data Event : Type 0 where
  freed : ℕ → Event
  pushed : ℕ → ℕ → ℤ → ℕ → ℕ → Event
  harbored : ℕ → List ℕ → ℕ → ℤ → ℕ → ℕ → ℕ → Event

-- A session is allocated for the tag, and must not have been given.
abbrev pub allocate : Bool → ℤ → Context → Option (ℤ × Context)
allocate false session ctx = some (session, ctx)
allocate true (pos zero) ctx = let (s, ctx') = newsession ctx in some (pos s, ctx')
allocate true (pos (suc n)) ctx = none
allocate true (negsuc n) ctx = none

abbrev pub has_tag : ℕ → ℕ → Bool
has_tag type tag = not (bit_and type tag == 0)

-- `_filter_args`, where `copy` is the memory that a copy of the data is allocated at: the session,
-- the data and the size.
unfoldable pub filter_args : ℕ → ℕ → ℤ → ℕ → ℕ → Context → Option (ℤ × ℕ × ℕ × Context)
unfolding newsession
filter_args copy type session message sz ctx =
    allocate (has_tag type tag_allocsession) session ctx >>= λ (session', ctx'). some (
      session',
      (if not (has_tag type tag_dontcopy) && not (message == 0) then copy else message),
      bit_or sz (bit_and type 0xff * 2 ^ message_type_shift),
      ctx',
    )

-- `skynet_harbor_send`, where `remote` tells whether there is a harbor.
abbrev pub harbor_send : Bool → ℕ → List ℕ → ℕ → ℤ → ℕ → ℕ → ℕ → Option Event
harbor_send remote handle name source session message sz type =
    assert ((not (type == 4) && not (type == 5)) && remote) >>= λ _.
    some (harbored handle name source session message sz type)

-- The freeing of data that the caller gave away.
abbrev pub give_back : ℕ → ℕ → List Event
give_back type message = if has_tag type tag_dontcopy then freed message ∷ [] else []

-- What sending reads beside the context: the harbor, whether it runs, and the handles of services.
pub record Node : Type 0 where
  pub harbor : ℕ
  pub remote : Bool
  pub lives : ℕ → Bool

abbrev pub Sent : Type 0
Sent = Option (ℤ × Context × List Event)

-- The message to the service or the harbor, once the arguments are filtered.
abbrev pub hand_over : Node → ℕ → ℕ → ℤ × ℕ × ℕ × Context → Bool → Sent
hand_over node source destination (session, message, sz, ctx) true =
    harbor_send node.remote destination [] source session message (bit_and sz message_type_mask)
      (sz / 2 ^ message_type_shift)
    >>= λ e. some (session, ctx, e ∷ [])
hand_over node source destination (session, message, sz, ctx) false =
    if node.lives destination
    then some (session, ctx, pushed destination source session message sz ∷ [])
    else some (negsuc 0, ctx, freed message ∷ [])

abbrev pub deliver : Node → ℕ → ℕ → ℤ × ℕ × ℕ × Context → Sent
deliver node source destination (session, message, sz, ctx) =
    let local =
      message_isremote node.harbor destination
      >>= hand_over node (if source == 0 then ctx.handle else source) destination
          (session, message, sz, ctx) in
    if destination == 0
    then (if message == 0
        then some (session, ctx, [])
        else some (negsuc 0, ctx, freed message ∷ []))
    else local

-- `skynet_send`, where `copy` is the memory that a copy of the data is allocated at.
unfoldable pub send : Node → ℕ → ℕ → ℕ → ℕ → ℤ → ℕ → ℕ → Context → Sent
unfolding filter_args message_isremote
send node copy source destination type session message sz ctx =
    let rest = filter_args copy type session message sz ctx >>= deliver node source destination in
    if not (bit_and sz message_type_mask == sz)
    then some (negsuc 1, ctx, give_back type message)
    else rest

-- `copy_name`, with the place that are left of `GLOBALNAME_LENGTH`.
abbrev pub copy_name : ℕ → List ℕ → List ℕ
copy_name zero addr = []
copy_name (suc n) [] = 0 ∷ copy_name n []
copy_name (suc n) (b ∷ bs) = b ∷ copy_name n bs

abbrev pub globalname_length : ℕ
globalname_length = 16

-- The message to a name that only the harbor knows.
abbrev pub to_name : Node → ℕ → List ℕ → ℤ × ℕ × ℕ × Context → Sent
to_name node source addr (session, message, sz, ctx) =
    harbor_send node.remote 0 (copy_name globalname_length addr) source session message
      (bit_and sz message_type_mask) (sz / 2 ^ message_type_shift)
    >>= λ e. some (session, ctx, e ∷ [])

-- `skynet_sendname`, where `findname` is `skynet_handle_findname`.
unfoldable pub sendname : (List ℕ → ℕ) → Node → ℕ → ℕ → List ℕ → ℕ → ℤ → ℕ → ℕ → Context → Sent
unfolding send
sendname findname node copy source addr type session message sz ctx =
    let from = if source == 0 then ctx.handle else source in
    let name = drop 1 addr in
    let found = findname name in
    let global = filter_args copy type session message sz ctx >>= to_name node from addr in
    if get_or addr 0 0 == 58
    then send node copy from (strtoul name) type session message sz ctx
    else if get_or addr 0 0 == 46
    then (if found == 0
        then some (negsuc 0, ctx, give_back type message)
        else send node copy from found type session message sz ctx)
    else if not (bit_and sz message_type_mask == sz)
    then some (negsuc 1, ctx, give_back type message)
    else global
