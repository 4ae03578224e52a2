-- ===== src/Gate/Socket.antt =====
-- skynet/service-src/service_gate.c: what the gate does with the messages of the sockets and of the
-- services, and how it begins and ends.
use Prim.Native.Nat.{bit_or}
use skynet_server.Common.{
  List, [], ◌∷◌, ◌++◌, ℕ, zero, suc, Bool, true, false, Option, none, some, if◌then◌else◌, ◌+◌, ◌-◌,
  ◌*◌, ◌^◌, ◌==◌, ◌&&◌, not, ltb, leb, length, take, get_or,
}
use skynet_server.Common.Int.{ℤ, pos, negsuc, ltb_ℤ, pos_part}
use skynet_server.Common.Options.{◌>>=◌, assert}
use skynet_server.Buffer.{DataBuffer, Pool}
use skynet_server.Buffer as Buffer
use skynet_server.Hashid.{Hashid, lookup, full}
use skynet_server.Hashid as Hashid
use skynet_server.Gate.{
  Gate, Connection, Call, socket_close, socket_start, socket_send, send, error, dispatch_message,
  decimal, ptype_text, ptype_client,
}
use skynet_server.Gate.Control.{set_conn, c_string, ctrl}

-- The types `SKYNET_SOCKET_TYPE_`.
pub data Kind : Type 0 where
  arrived : Kind
  connected : Kind
  closed : Kind
  accepted : Kind
  failed : Kind
  warned : Kind
  udp : Kind

-- `struct skynet_socket_message`, with the `ud` bytes at `buffer` and the bytes behind the structure.
-- Its numbers are `int`s that are not negative.
pub record SocketMessage : Type 0 where
  pub kind : Kind
  pub id : ℕ
  pub ud : ℕ
  pub buffer : List ℕ
  pub name : List ℕ

-- `_report`
unfoldable pub report : Gate → List ℕ → List Call
report g text = if g.watchdog == 0 then [] else send 0 g.watchdog ptype_text (pos 0) text ∷ []

-- "%d close"
abbrev pub close_text : ℕ → List ℕ
close_text id = decimal (pos id) ++ 32 ∷ 99 ∷ 108 ∷ 111 ∷ 115 ∷ 101 ∷ []

-- "%d open %d %s:0"
abbrev pub open_text : ℕ → List ℕ → List ℕ
open_text id name =
    decimal (pos id)
    ++ (32 ∷ 111 ∷ 112 ∷ 101 ∷ 110 ∷ 32 ∷ [])
    ++ decimal (pos id)
    ++ 32 ∷ (c_string name ++ 58 ∷ 48 ∷ [])

abbrev pub no_data : DataBuffer
no_data = record { header = pos 0; offset = 0; size = 0; chunks = [] }

-- A free place.
abbrev pub no_connection : Connection
no_connection = record { id = negsuc 0; agent = 0; client = 0; remote_name = []; buffer = no_data }

abbrev pub on_data : Gate → SocketMessage → Option ℕ → Option (List Call × Gate)
on_data g m none = some (error ∷ socket_close (pos m.id) ∷ [], g)
on_data g m (some i) = dispatch_message g m.id (g.conn i) m.buffer >>= λ (calls, c, mp).
    some (calls, record g { conn = set_conn i c g.conn; mp = mp })

abbrev pub is_id : ℤ → ℕ → Bool
is_id (pos n) id = n == id
is_id (negsuc n) id = false

abbrev pub on_connect : Gate → SocketMessage → Option ℕ → Option (List Call × Gate)
on_connect g m none = some (error ∷ socket_close (pos m.id) ∷ [], g)
on_connect g m (some i) = some ([], g)

abbrev pub on_close : Gate → SocketMessage → Option ℕ × Hashid → Option (List Call × Gate)
on_close g m (none, hi) = some ([], record g { hash = hi })
on_close g m (some i, hi) =
    let (db, mp) = Buffer.clear (g.conn i).buffer g.mp in
    some (
      report g (close_text m.id),
      record g { hash = hi; conn = set_conn i no_connection g.conn; mp = mp },
    )

abbrev pub name_size : ℕ
name_size = 32

abbrev pub on_accept : Gate → SocketMessage → ℕ × Hashid → Option (List Call × Gate)
on_accept g m (i, hi) =
    let name = take (name_size - 1) m.name in
    some (
      report g (open_text m.ud name) ++ error ∷ [],
      record g {
        hash = hi;
        conn = set_conn i (record (g.conn i) { id = pos m.ud; remote_name = name }) g.conn;
      },
    )

-- The cases of the type of a message.
unfoldable pub on_kind : Gate → SocketMessage → Kind → Option (List Call × Gate)
unfolding dispatch_message Hashid.lookup Hashid.remove Hashid.insert report
on_kind g m arrived = on_data g m (lookup g.hash m.id)
on_kind g m connected =
    if is_id g.listen_id m.id then some ([], g) else on_connect g m (lookup g.hash m.id)
on_kind g m closed = on_close g m (Hashid.remove g.hash m.id)
on_kind g m failed = on_close g m (Hashid.remove g.hash m.id)
on_kind g m accepted =
    let place = Hashid.insert g.hash m.ud >>= on_accept g m in
    let placed = if full g.hash then some (socket_close (pos m.ud) ∷ [], g) else place in
    assert (is_id g.listen_id m.id) >>= λ _. placed
on_kind g m warned = some (error ∷ [], g)
on_kind g m udp = some ([], g)

abbrev pub dispatch_socket_message : Gate → SocketMessage → Option (List Call × Gate)
dispatch_socket_message g m = on_kind g m m.kind

-- The messages that `_cb` tells apart by their types.
pub data Message : Type 0 where
  text : List ℕ → Message
  client : List ℕ → Message
  socket : SocketMessage → Message
  ignored : Message

-- The number of the connection, in the last four bytes.
abbrev pub client_id : List ℕ → ℕ
client_id bytes =
    let b = λ (i : ℕ). get_or bytes (length bytes - 4 + i) 0 in
    bit_or (bit_or (bit_or (b 0) (b 1 * 2 ^ 8)) (b 2 * 2 ^ 16)) (b 3 * 2 ^ 24)

abbrev pub to_client : Gate → List ℕ → Option ℕ → Option (Bool × List Call × Gate)
to_client g bytes none = some (false, error ∷ [], g)
to_client g bytes (some i) =
    some (true, socket_send (client_id bytes) (take (length bytes - 4) bytes) ∷ [], g)

-- A handler after which the message is freed.
abbrev pub freed : List Call × Gate → Option (Bool × List Call × Gate)
freed (calls, g) = some (false, calls, g)

-- `_cb`, which tells whether the message is kept.
unfoldable pub cb : (List ℕ → ℕ) → Gate → Message → Option (Bool × List Call × Gate)
unfolding ctrl on_kind
cb queryname g (text bytes) = ctrl queryname g bytes >>= freed
cb queryname g (client bytes) =
    let sent = to_client g bytes (lookup g.hash (client_id bytes)) in
    if leb (length bytes) 4 then some (false, error ∷ [], g) else sent
cb queryname g (socket m) = dispatch_socket_message g m >>= freed
cb queryname g ignored = some (false, [], g)

-- `gate_create`
abbrev pub gate_create : Gate
gate_create = record {
  listen_id = negsuc 0;
  watchdog = 0;
  broker = 0;
  client_tag = 0;
  header_size = 0;
  max_connection = 0;
  hash = record { hashmod = 0; cap = 0; count = 0; id = λ c. none; hash = λ h. [] };
  conn = λ i. no_connection;
  mp = record { blocks = 0; free = 0 };
}

-- The closes of `gate_release`: of the connections at the places from `i` on.
unfoldable pub close_all : ℕ → ℕ → Gate → List Call
close_all zero i g = []
close_all (suc n) i g =
    let rest = close_all n (i + 1) g in
    if ltb_ℤ (g.conn i).id (pos 0) then rest else socket_close (g.conn i).id ∷ rest

unfoldable pub gate_release : Gate → List Call
unfolding close_all
gate_release g =
    close_all g.max_connection 0 g
    ++ (if ltb_ℤ g.listen_id (pos 0) then [] else socket_close g.listen_id ∷ [])

-- `start_listen` once the port is read, where `listen` is what `skynet_socket_listen` returns.
abbrev pub start_listen : ℤ → ℤ → Gate → Bool × List Call × Gate
start_listen port listen g =
    if not (ltb_ℤ (pos 0) port)
    then (true, error ∷ [], g)
    else if ltb_ℤ listen (pos 0)
    then (true, [], record g { listen_id = listen })
    else (false, socket_start listen ∷ [], record g { listen_id = listen })

-- What `sscanf` reads of the parameters of the gate: how many there are, the style of the headers,
-- the watchdog, the tag and the greatest number of connections.
pub record Parm : Type 0 where
  pub fields : ℕ
  pub header : ℕ
  pub watchdog : List ℕ
  pub client_tag : ℕ
  pub max : ℤ

abbrev pub first_byte : List ℕ → ℕ
first_byte s = get_or s 0 0

-- The gate once its parameters are read.
abbrev pub gate_set : Parm → ℕ → ℕ → Gate → Gate
gate_set p watchdog max g = record g {
  watchdog = watchdog;
  hash = Hashid.init max;
  conn = λ i. no_connection;
  max_connection = max;
  client_tag = if p.client_tag == 0 then ptype_client else p.client_tag;
  header_size = if p.header == 83 then 2 else 4;
}

-- `gate_init`, which returns whether it failed.
unfoldable pub gate_init : (List ℕ → ℕ) → ℤ → ℤ → Parm → Gate → Bool × List Call × Gate
unfolding Hashid.init
gate_init queryname port listen p g =
    if ltb p.fields 4
    then (true, error ∷ [], g)
    else if not (ltb_ℤ (pos 0) p.max)
    then (true, error ∷ [], g)
    else if not (p.header == 83) && not (p.header == 76)
    then (true, error ∷ [], g)
    else if first_byte p.watchdog == 33
    then start_listen port listen (gate_set p 0 (pos_part p.max) g)
    else if queryname p.watchdog == 0
    then (true, error ∷ [], record g { watchdog = 0 })
    else start_listen port listen (gate_set p (queryname p.watchdog) (pos_part p.max) g)
