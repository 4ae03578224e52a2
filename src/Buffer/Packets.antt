-- ===== src/Buffer/Packets.antt =====
-- The packets that the gate gets from `databuffer_readheader` and `databuffer_read`.
use skynet_server.Common.{
  ℕ, List, ◌++◌, Bool, ◌<◌, length, ◌≡◌, some, arith, ◌∙◌, ap, length-append, sym, append_assoc,
  take, drop,
}
use skynet_server.Buffer.{DataBuffer, Pool, read, readheader, push}
use skynet_server.Buffer.Read.{IsValid, bytes_of, Conserves, read_lem, push_lem, front_of, back_of}
use skynet_server.Buffer.Frame.{
  frame, header_size, Fits, header_taken, header_waits, header_done, readheader-known,
}
use skynet_server.Common.Int.{pos, negsuc}

-- Reading the packet of a known length that stands at the front.
body-read :
    (n : ℕ) (db : DataBuffer) (mp : Pool) (body rest : List ℕ)
    → IsValid db
    → 0 < n
    → length body ≡ n
    → bytes_of db ≡ body ++ rest
    → (db' : DataBuffer) × (mp' : Pool) × (read n db mp ≡ some (body, db', mp'))
      × IsValid db'
      × (bytes_of db' ≡ rest)
      × Conserves db mp db' mp'
body-read n db mp body rest v positive len e =
    let (db', mp', run, v', left, same, counts) =
      read_lem n db mp v positive
        (omega (arith, v.sized, len, ap length e, length-append body rest)) in
    (
      db',
      mp',
      run ∙ ap (λ t. some (t, db', mp')) (ap (take n) e ∙ front_of body rest n (sym len)),
      v',
      left ∙ ap (drop n) e ∙ back_of body rest n (sym len),
      counts,
    )

-- On a valid buffer that waits for a header and holds a packet of `n > 0` bytes behind its length,
-- in two or four bytes, `databuffer_readheader` returns `n`, and `databuffer_read` of `n` bytes
-- then returns the packet. What follows it is left in a valid buffer, and the pool loses nothing.
pub packet-roundtrip :
    (long : Bool) (n : ℕ) (db : DataBuffer) (mp : Pool) (body rest : List ℕ)
    → IsValid db
    → db.header ≡ pos 0
    → Fits long n
    → 0 < n
    → length body ≡ n
    → bytes_of db ≡ frame long n ++ (body ++ rest)
    → (db₁ : DataBuffer) × (mp₁ : Pool) × (db₂ : DataBuffer) × (mp₂ : Pool) × (readheader
          (header_size long)
          db
          mp
        ≡ some (pos n, db₁, mp₁))
      × (read n db₁ mp₁ ≡ some (body, db₂, mp₂))
      × IsValid db₂
      × (bytes_of db₂ ≡ rest)
      × Conserves db mp db₂ mp₂
packet-roundtrip long n db mp body rest v start fits positive len e =
    let (db₁, mp₁, run, v₁, known, left, counts) =
      header_taken long db mp v start n (body ++ rest) fits e in
    let (db₂, mp₂, run', v₂, left', counts') = body-read n db₁ mp₁ body rest v₁ positive len left in
    (
      db₁,
      mp₁,
      db₂,
      mp₂,
      run
          ∙ ap some (
              header_done n db₁ mp₁ known
                (omega (arith, v₁.sized, len, ap length left, length-append body rest))),
      run',
      v₂,
      left',
      omega arith,
    )

-- A packet that arrives in two parts: on the first part `databuffer_readheader` returns -1, and
-- keeps the length. When the second part is pushed, with whatever follows it, it returns the
-- length, `databuffer_read` returns the packet, and what follows it is left.
pub packet-in_two :
    (long : Bool) (n : ℕ) (db : DataBuffer) (mp : Pool) (part more rest : List ℕ)
    → IsValid db
    → db.header ≡ pos 0
    → Fits long n
    → length part < n
    → length (part ++ more) ≡ n
    → bytes_of db ≡ frame long n ++ part
    → (db₁ : DataBuffer) × (mp₁ : Pool) × (readheader (header_size long) db mp
        ≡ some (negsuc 0, db₁, mp₁))
      × (let (db₂, mp₂) = push (more ++ rest) db₁ mp₁ in
          (db₃ : DataBuffer) × (mp₃ : Pool) × (readheader (header_size long) db₂ mp₂
            ≡ some (pos n, db₂, mp₂))
          × (read n db₂ mp₂ ≡ some (part ++ more, db₃, mp₃))
          × IsValid db₃
          × (bytes_of db₃ ≡ rest))
packet-in_two long n db mp part more rest v start fits short len e =
    let (db₁, mp₁, run, v₁, known, left, counts) = header_taken long db mp v start n part fits e in
    let (v₂, all, same, counts₂) = push_lem (more ++ rest) db₁ mp₁ v₁ in
    let (db₂, mp₂) = push (more ++ rest) db₁ mp₁ in
    let whole : bytes_of db₂ ≡ (part ++ more) ++ rest =
      all ∙ ap (λ t. t ++ (more ++ rest)) left ∙ sym (append_assoc part more rest) in
    let (db₃, mp₃, run', v₃, left', counts₃) =
      body-read n db₂ mp₂ (part ++ more) rest v₂ (omega arith) len whole in
    (
      db₁,
      mp₁,
      run ∙ ap some (header_waits n db₁ mp₁ known (omega (arith, v₁.sized, ap length left))),
      (
        db₃,
        mp₃,
        readheader-known (header_size long) n db₂ mp₂ (omega arith) (same ∙ known)
            ∙ ap some (
                header_done n db₂ mp₂ (same ∙ known) (
                  omega
                    (arith, v₂.sized, len, ap length whole, length-append (part ++ more) rest))),
        run',
        v₃,
        left',
      ),
    )
