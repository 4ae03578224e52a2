-- ===== src/Buffer/Tests.antt =====
-- Runs of the buffer of skynet/service-src/databuffer.h.
use skynet_server.Common.{[], ◌∷◌, refl, ◌≡◌, arith, some, false, ◌++◌}
use skynet_server.Buffer.{DataBuffer, Pool, read, readheader, push, clear}
use skynet_server.Common.Int.{pos, negsuc}
use skynet_server.Buffer.Read.{IsValid, bytes_of, Conserves, push_lem, read_lem}
use skynet_server.Buffer.Packets.{packet-in_two, packet-roundtrip}

abbrev pool : Pool
pool = record { blocks = 1; free = 1020 }

-- A packet of 3 bytes and the start of another, in chunks that cut both the header and the packet.
abbrev received : DataBuffer
received = record {
  header = pos 0;
  offset = 1;
  size = 7;
  chunks = (9 ∷ 0 ∷ []) ∷ (3 ∷ 10 ∷ 11 ∷ []) ∷ (12 ∷ 0 ∷ 5 ∷ []) ∷ [];
}

received-IsValid : IsValid received
received-IsValid = record { within = omega arith; sized = refl }

-- A header and one of three bytes.
abbrev begun : DataBuffer
begun = record { header = pos 0; offset = 0; size = 3; chunks = (0 ∷ 3 ∷ 10 ∷ []) ∷ [] }

begun-IsValid : IsValid begun
begun-IsValid = record { within = omega arith; sized = refl }

read_lem_example :
    (db' : DataBuffer) × (mp' : Pool) × (read 4 received pool
      ≡ some (0 ∷ 3 ∷ 10 ∷ 11 ∷ [], db', mp'))
    × IsValid db'
    × (bytes_of db' ≡ 12 ∷ 0 ∷ 5 ∷ [])
    × (db'.header ≡ pos 0)
    × Conserves received pool db' mp'
read_lem_example = read_lem 4 received pool received-IsValid (omega arith) (omega arith)

push_lem_example :
    let (db', mp') = push (1 ∷ 2 ∷ []) received pool in
    IsValid db'
    × (bytes_of db' ≡ bytes_of received ++ 1 ∷ 2 ∷ [])
    × (db'.header ≡ received.header)
    × Conserves received pool db' mp'
push_lem_example = push_lem (1 ∷ 2 ∷ []) received pool received-IsValid

packet-roundtrip_example :
    (db₁ : DataBuffer) × (mp₁ : Pool) × (db₂ : DataBuffer) × (mp₂ : Pool) × (readheader 2 received
        pool
      ≡ some (pos 3, db₁, mp₁))
    × (read 3 db₁ mp₁ ≡ some (10 ∷ 11 ∷ 12 ∷ [], db₂, mp₂))
    × IsValid db₂
    × (bytes_of db₂ ≡ 0 ∷ 5 ∷ [])
    × Conserves received pool db₂ mp₂
packet-roundtrip_example =
    packet-roundtrip false 3 received pool (10 ∷ 11 ∷ 12 ∷ []) (0 ∷ 5 ∷ []) received-IsValid refl
      (omega arith) (omega arith) refl refl

packet-in_two_example :
    (db₁ : DataBuffer) × (mp₁ : Pool) × (readheader 2 begun pool ≡ some (negsuc 0, db₁, mp₁))
    × (let (db₂, mp₂) = push (11 ∷ 12 ∷ 0 ∷ []) db₁ mp₁ in
        (db₃ : DataBuffer) × (mp₃ : Pool) × (readheader 2 db₂ mp₂ ≡ some (pos 3, db₂, mp₂))
        × (read 3 db₂ mp₂ ≡ some (10 ∷ 11 ∷ 12 ∷ [], db₃, mp₃))
        × IsValid db₃
        × (bytes_of db₃ ≡ 0 ∷ []))
packet-in_two_example =
    packet-in_two false 3 begun pool (10 ∷ []) (11 ∷ 12 ∷ []) (0 ∷ []) begun-IsValid refl
      (omega arith) (omega arith) refl refl

-- The last message of a buffer goes back to the pool with `databuffer_clear`.
cleared : (clear received pool).1.free ≡ 1023
unfolding clear
cleared = refl
