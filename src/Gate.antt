-- ===== src/Gate.antt =====
-- skynet/service-src/service_gate.c: the service that cuts what its connections receive into packets
-- and sends these on. The calls into the rest of skynet are collected in order. `none` is a failed
-- assert, a read through NULL or the end of the fuel.
pub mod Split
pub mod Header
pub mod Stream
pub mod Chunks
pub mod Total
pub mod Stuck
pub mod Control
pub mod Socket
pub mod Sound
pub mod Places
pub mod Commands
pub mod Run
mod Tests
use Prim.Native.Nat.{bit_or}
use skynet_server.Common.{
  List, [], ◌∷◌, ◌++◌, ℕ, zero, suc, Bool, true, false, Option, none, some, if◌then◌else◌, ◌+◌, ◌-◌,
  ◌/◌, ◌%◌, ◌==◌, ltb, leb, not, length, take,
}
use skynet_server.Common.Int.{ℤ, pos, negsuc, ltb_ℤ}
use skynet_server.Common.Options.{◌>>=◌, assert, is_none}
use skynet_server.Buffer.{DataBuffer, Pool, readheader, reset}
use skynet_server.Buffer as Buffer
use skynet_server.Hashid.{Hashid}

-- `struct connection`, whose `id` is -1 for a free place.
pub record Connection : Type 0 where
  pub id : ℤ
  pub agent : ℕ
  pub client : ℕ
  pub remote_name : List ℕ
  pub buffer : DataBuffer

-- `struct gate`. Its `conn` is an array of `max_connection` places.
pub record Gate : Type 0 where
  pub listen_id : ℤ
  pub watchdog : ℕ
  pub broker : ℕ
  pub client_tag : ℕ
  pub header_size : ℕ
  pub max_connection : ℕ
  pub hash : Hashid
  pub conn : ℕ → Connection
  pub mp : Pool

-- The calls of `skynet_socket_close`, `skynet_socket_start`, `skynet_socket_send` (the connection and
-- the bytes), `skynet_send` (source, destination, type, session and bytes) and `skynet_error`.
pub data Call : Type 0 where
  socket_close : ℤ → Call
  socket_start : ℤ → Call
  socket_send : ℕ → List ℕ → Call
  send : ℕ → ℕ → ℕ → ℤ → List ℕ → Call
  error : Call

abbrev pub ptype_text : ℕ
ptype_text = 0

abbrev pub ptype_client : ℕ
ptype_client = 3

abbrev pub ptype_socket : ℕ
ptype_socket = 6

abbrev pub ptype_tag_dontcopy : ℕ
ptype_tag_dontcopy = 0x10000

-- A number as `%d` prints it.
unfoldable pub digits : ℕ → ℕ → List ℕ
digits zero n = []
digits (suc fuel) n =
    let rest = digits fuel (n / 10) ++ (48 + n % 10) ∷ [] in
    if ltb n 10 then (48 + n) ∷ [] else rest

unfoldable pub decimal : ℤ → List ℕ
unfolding digits
decimal (pos n) = digits 10 n
decimal (negsuc n) = 45 ∷ digits 10 (n + 1)

-- " data "
abbrev pub data_mark : List ℕ
data_mark = 32 ∷ 100 ∷ 97 ∷ 116 ∷ 97 ∷ 32 ∷ []

-- What a handler does to a connection and the pool, with the calls that it makes.
abbrev pub Handled : Type 0
Handled = Option (List Call × Connection × Pool)

-- A packet is read and handed on as the bytes `make` of its bytes.
abbrev pub pass : (List ℕ → Call) → Connection → List ℕ × DataBuffer × Pool → Handled
pass make c (bytes, db, mp) = some (make bytes ∷ [], record c { buffer = db }, mp)

-- `_forward`
unfoldable pub forward : Gate → Connection → Pool → ℕ → Handled
unfolding decimal Buffer.read
forward g c mp size =
    let packet = Buffer.read size c.buffer mp in
    if not (ltb_ℤ (pos 0) c.id)
    then some ([], c, mp)
    else if not (g.broker == 0)
    then (packet >>= pass (send 0 g.broker (bit_or g.client_tag ptype_tag_dontcopy) c.id) c)
    else if not (c.agent == 0)
    then (packet >>= pass (send c.client c.agent (bit_or g.client_tag ptype_tag_dontcopy) c.id) c)
    else if not (g.watchdog == 0)
    then (packet
        >>= pass
            (λ bytes.
              send 0 g.watchdog (bit_or ptype_text ptype_tag_dontcopy) c.id
                (decimal c.id ++ (data_mark ++ bytes)))
            c)
    else some ([], c, mp)

abbrev pub max_packet : ℕ
max_packet = 0x1000000

-- The calls of one round of a loop before those of the others.
abbrev pub before : List Call → Handled → Handled
before calls rest = rest >>= λ (more, c, mp). some (calls ++ more, c, mp)

-- The bytes of a connection are thrown away.
abbrev pub refuse : ℕ → Connection → Pool → Handled
refuse id c mp =
    let (db, mp') = Buffer.clear c.buffer mp in
    some (socket_close (pos id) ∷ error ∷ [], record c { buffer = db }, mp')

-- The round of the loop of `dispatch_message` for a size that `databuffer_readheader` gives, with the
-- other rounds in `loop`.
unfoldable pub dispatch_size :
    (Connection → Pool → Handled) → Gate → ℕ → Connection → ℤ × DataBuffer × Pool → Handled
unfolding forward Buffer.clear
dispatch_size loop g id c (negsuc m, db, mp) = some ([], record c { buffer = db }, mp)
dispatch_size loop g id c (pos n, db, mp) =
    let c' = record c { buffer = db } in
    if n == 0
    then loop c' mp
    else if leb max_packet n
    then refuse id c' mp
    else (forward g c' mp n >>= λ (calls, c'', mp').
        before calls (loop (record c'' { buffer = reset c''.buffer }) mp'))

unfoldable pub dispatch_loop : ℕ → Gate → ℕ → Connection → Pool → Handled
unfolding dispatch_size readheader
dispatch_loop zero g id c mp = none
dispatch_loop (suc fuel) g id c mp =
    readheader g.header_size c.buffer mp >>= dispatch_size (dispatch_loop fuel g id) g id c

unfoldable pub dispatch_message : Gate → ℕ → Connection → List ℕ → Handled
unfolding dispatch_loop Buffer.push
dispatch_message g id c bytes =
    let (db, mp) = Buffer.push bytes c.buffer g.mp in
    dispatch_loop (db.size + 8) g id (record c { buffer = db }) mp
