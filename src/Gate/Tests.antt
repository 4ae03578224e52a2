-- ===== src/Gate/Tests.antt =====
-- Runs of the gate of skynet/service-src/service_gate.c.
use skynet_server.Common.{
  [], ◌∷◌, ◌++◌, List, ℕ, false, some, none, ◌≡◌, refl, arith, inl, inr, map, ◌+◌, Bool, ◌≤◌, ◌^◌,
}
use skynet_server.Common.Int.{pos}
use skynet_server.Buffer.{DataBuffer, Pool, header_of}
use skynet_server.Buffer.Read.{IsValid}
use skynet_server.Gate.{Gate, Connection, Call, send, error, socket_start, dispatch_message}
use skynet_server.Hashid as Hashid
use skynet_server.Hashid.{insert_at, lookup}
use skynet_server.Gate.Control.{set_conn, behind, parm}
use skynet_server.Gate.Split.{split, split_on}
use skynet_server.Gate.Header.{Holds}
use skynet_server.Gate.Stream.{packet_call, IsRouted, ending, After}
use skynet_server.Gate.Chunks.{receive, receive_lem, dispatch_message_lem}
use skynet_server.Gate.Total.{dispatch_message-Finishes}
use skynet_server.Gate.Stuck.{high_header}
use skynet_server.Gate.Socket.{
  gate_create, open_text, gate_init, Parm, gate_set, no_connection, SocketMessage, accepted, cb,
  socket, Message,
}
use skynet_server.Gate.Sound.{IsSound}
use skynet_server.Gate.Run.{CanCome, begun, received, Reached-IsSound}

-- Every name is that of service 9.
abbrev always : List ℕ → ℕ
always name = 9

abbrev parm_of : Parm
parm_of = record { fields = 5; header = 76; watchdog = 119 ∷ []; client_tag = 0; max = pos 4 }

-- Headers of four bytes, up to four connections, and the listening socket 7.
abbrev fresh : Gate
fresh = record (gate_set parm_of 9 4 gate_create) { listen_id = pos 7 }

fresh_begun :
    gate_init always (pos 80) (pos 7) parm_of gate_create
    ≡ (false, socket_start (pos 7) ∷ [], fresh)
unfolding gate_init
fresh_begun = refl

abbrev connection : Connection
connection = record no_connection { id = pos 5 }

connection-Holds : Holds 4 connection.buffer []
connection-Holds = record {
  valid = record { within = refl; sized = refl };
  since = inl (refl, refl);
}

connection-IsRouted : IsRouted fresh connection
connection-IsRouted = (refl, inr (inr (omega arith)))

-- Two packets, of two bytes and of one, and the beginning of a third, cut within the headers.
abbrev parts : List (List ℕ)
parts = (0 ∷ 0 ∷ []) ∷ (0 ∷ 2 ∷ 8 ∷ []) ∷ (9 ∷ 0 ∷ 0 ∷ 0 ∷ 1 ∷ 6 ∷ 0 ∷ []) ∷ []

abbrev packets : List (List ℕ)
packets = (8 ∷ 9 ∷ []) ∷ (6 ∷ []) ∷ []

parts_split :
    split 4 (0 ∷ 0 ∷ 0 ∷ 2 ∷ 8 ∷ 9 ∷ 0 ∷ 0 ∷ 0 ∷ 1 ∷ 6 ∷ 0 ∷ []) ≡ (packets, some (0 ∷ []))
unfolding split_on header_of
parts_split = refl

nothing_split : split 4 [] ≡ ([], some [])
unfolding split_on
nothing_split = refl

receive_lem_example :
    (db' : DataBuffer) × (mp' : Pool) × (receive fresh 5 connection parts
      ≡ some (map (packet_call fresh connection) packets, record connection { buffer = db' }, mp'))
    × Holds 4 db' (0 ∷ [])
receive_lem_example =
    receive_lem parts fresh 5 connection [] packets (0 ∷ []) connection-IsRouted (omega arith)
      (omega arith) connection-Holds nothing_split parts_split

dispatch_message_lem_example :
    let (packets, end) = split 4 (0 ∷ 0 ∷ 0 ∷ 1 ∷ 6 ∷ 0 ∷ []) in
    (db' : DataBuffer) × (mp' : Pool) × (dispatch_message fresh 5 connection
        (0 ∷ 0 ∷ 0 ∷ 1 ∷ 6 ∷ 0 ∷ [])
      ≡ some (
        map (packet_call fresh connection) packets ++ ending 5 end,
        record connection { buffer = db' },
        mp',
      ))
    × After 4 db' end
    × skynet_server.Buffer.Read.Conserves connection.buffer fresh.mp db' mp'
dispatch_message_lem_example =
    dispatch_message_lem fresh 5 connection [] (0 ∷ 0 ∷ 0 ∷ 1 ∷ 6 ∷ 0 ∷ []) connection-IsRouted
      (omega arith) (omega arith) connection-Holds

-- A connection without a socket, whose packets go nowhere.
dispatch_message-Finishes_example :
    (calls : List Call) × (db : DataBuffer) × (mp : Pool) × (t : List ℕ) × (dispatch_message fresh 5
        no_connection
        (0 ∷ 0 ∷ 0 ∷ 1 ∷ 6 ∷ 0 ∷ [])
      ≡ some (calls, record no_connection { buffer = db }, mp))
    × Holds 4 db t
dispatch_message-Finishes_example =
    dispatch_message-Finishes fresh 5 no_connection [] (0 ∷ 0 ∷ 0 ∷ 1 ∷ 6 ∷ 0 ∷ []) (omega arith)
      (omega arith) connection-Holds

high_header_example :
    (db' : DataBuffer) × (mp' : Pool) × (dispatch_message fresh 5 connection
        (255 ∷ 0 ∷ 0 ∷ 1 ∷ 6 ∷ 0 ∷ [])
      ≡ some ([], record connection { buffer = db' }, mp'))
    × Holds 4 db' (255 ∷ 0 ∷ 0 ∷ 1 ∷ 6 ∷ 0 ∷ [])
high_header_example =
    high_header fresh 5 connection [] (255 ∷ 0 ∷ 0 ∷ 1 ∷ 6 ∷ 0 ∷ []) (6 ∷ 0 ∷ []) 255 0 0 1
      (omega arith) (omega arith) (omega arith) (omega arith) (omega arith) connection-IsRouted refl
      connection-Holds refl

-- A connection is accepted.
abbrev knock : SocketMessage
knock = record { kind = accepted; id = 7; ud = 5; buffer = []; name = 97 ∷ [] }

abbrev knocked : Gate
knocked = record fresh {
  hash = insert_at fresh.hash 5 1;
  conn = set_conn 1 (record no_connection { id = pos 5; remote_name = 97 ∷ [] }) fresh.conn;
}

fresh_knocked :
    cb always fresh (socket knock)
    ≡ some (false, send 0 9 0 (pos 0) (open_text 5 (97 ∷ [])) ∷ error ∷ [], knocked)
unfolding cb Hashid.init
fresh_knocked = refl

knock_new : lookup fresh.hash 5 ≡ none
unfolding lookup Hashid.init
knock_new = refl

knock_range : 5 + fresh.hash.cap ≤ 2 ^ 31
unfolding Hashid.init
knock_range = omega arith

-- A client whose handle is not given: the word behind the end of the string is read, which `_parm` has
-- left there. The `forward 5 :a ` in `tmp` becomes `5 :a `, a zero, and `d 5 :a `.
stale :
    behind (102 ∷ 111 ∷ 114 ∷ 119 ∷ 97 ∷ 114 ∷ 100 ∷ 32 ∷ 53 ∷ 32 ∷ 58 ∷ 97 ∷ 32 ∷ []) 7
    ≡ 100 ∷ 32 ∷ 53 ∷ 32 ∷ 58 ∷ 97 ∷ 32 ∷ []
unfolding behind parm
stale = refl

Reached-IsSound_example :
    IsSound knocked
    × ((m : Message)
        → CanCome knocked m
        → (kept : Bool) × (calls : List Call) × (g' : Gate) × (cb always knocked m
            ≡ some (kept, calls, g')))
Reached-IsSound_example = Reached-IsSound always knocked (
    received fresh knocked (socket knock) false
      (send 0 9 0 (pos 0) (open_text 5 (97 ∷ [])) ∷ error ∷ [])
      (begun (pos 80) (pos 7) parm_of gate_create fresh (socket_start (pos 7) ∷ []) fresh_begun)
      (refl, knock_new, knock_range) fresh_knocked)
