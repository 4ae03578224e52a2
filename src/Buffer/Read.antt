-- ===== src/Buffer/Read.antt =====
-- `databuffer_read` and `databuffer_push`: the buffer is a queue of bytes.
use skynet_server.Common.{
  ℕ, List, [], ◌∷◌, ◌++◌, refl, arith, drop, length, ◌<◌, ◌≡◌, ◌≤◌, ap, some, take, ◌-◌,
  length-drop, ◌+◌, ◌∙◌, dec_lt, ltb, false, sym, true, ℕ_discrete, ◌==◌, length-append, ap₂,
  append-nil, leb, append_assoc, ◌*◌, ==_of_ne,
}
use skynet_server.Buffer.{DataBuffer, Pool, read, read_loop, push, copy_first, message_pool}
use skynet_server.Common.Slices.{
  take-append_within, drop-append_within, take-append_past, drop-append_past, drop-drop, take_whole,
}

abbrev pub concat : List (List ℕ) → List ℕ
concat [] = []
concat (m ∷ ms) = m ++ concat ms

-- The bytes of the chunks that are still to be read.
abbrev pub stream : List (List ℕ) → ℕ → List ℕ
stream [] offset = []
stream (m ∷ ms) offset = drop offset m ++ concat ms

-- The offset stands within the first chunk.
abbrev pub Within : ℕ → List (List ℕ) → Type 0
Within offset [] = offset ≡ 0
Within offset (m ∷ ms) = offset ≤ length m

stream_start : (ms : List (List ℕ)) → stream ms 0 ≡ concat ms
stream_start [] = refl
stream_start (m ∷ ms) = refl

Within-start : (ms : List (List ℕ)) → Within 0 ms
Within-start [] = refl
Within-start (m ∷ ms) = omega arith

-- What a read of `sz` bytes is to do.
abbrev pub Reads : List (List ℕ) → ℕ → ℕ → ℕ → Type 0
Reads ms offset sz free =
    (offset' : ℕ) × (ms' : List (List ℕ)) × (free' : ℕ) × (read_loop ms offset sz free
      ≡ some (take sz (stream ms offset), offset', ms', free'))
    × Within offset' ms'
    × (stream ms' offset' ≡ drop sz (stream ms offset))
    × (free' + length ms' ≡ free + length ms)

-- The rounds of the loop.
module _ (m : List ℕ) (ms : List (List ℕ)) (offset sz free : ℕ) where
  round-part :
      offset ≤ length m
      → sz < length m - offset
      → read_loop (m ∷ ms) offset sz free
        ≡ some (take sz (drop offset m), offset + sz, m ∷ ms, free)
  unfolding read_loop
  round-part w lt =
      let inside : ltb (length m) offset ≡ false = ground arith in
      let part : ltb sz (length m - offset) ≡ true = ground arith in rw (inside, part) refl

  round-whole :
      offset ≤ length m
      → length m - offset ≡ sz
      → read_loop (m ∷ ms) offset sz free ≡ some (take sz (drop offset m), 0, ms, free + 1)
  unfolding read_loop
  round-whole w e =
      let inside : ltb (length m) offset ≡ false = ground arith in
      let part : ltb sz (length m - offset) ≡ false = ground arith in
      let whole : (length m - offset == sz) ≡ true = ground arith in rw (inside, part, whole) refl

  round-next :
      offset ≤ length m
      → length m - offset < sz
      → read_loop (m ∷ ms) offset sz free
        ≡ copy_first
            (take (length m - offset) (drop offset m))
            (read_loop ms 0 (sz - (length m - offset)) (free + 1))
  unfolding read_loop
  round-next w lt =
      let inside : ltb (length m) offset ≡ false = ground arith in
      let part : ltb sz (length m - offset) ≡ false = ground arith in
      let whole : (length m - offset == sz) ≡ false = ground arith in rw (inside, part, whole) refl

-- The bytes at the front of a list of two parts, up to the end of the first and beyond.
module _ (d c : List ℕ) (sz : ℕ) where
  pub front_of : sz ≡ length d → take sz (d ++ c) ≡ d
  front_of e =
      ap (λ k. take k (d ++ c)) e ∙ take-append_within (length d) d c (omega arith) ∙ take_whole d

  pub back_of : sz ≡ length d → drop sz (d ++ c) ≡ c
  back_of e =
      ap (λ k. drop k (d ++ c)) (let f : sz ≡ length d + 0 = omega arith in f)
      ∙ drop-append_past 0 d c

  front_past : length d ≤ sz → take sz (d ++ c) ≡ d ++ take (sz - length d) c
  front_past h =
      ap (λ k. take k (d ++ c)) (let f : sz ≡ length d + (sz - length d) = omega arith in f)
      ∙ take-append_past (sz - length d) d c

  back_past : length d ≤ sz → drop sz (d ++ c) ≡ drop (sz - length d) c
  back_past h =
      ap (λ k. drop k (d ++ c)) (let f : sz ≡ length d + (sz - length d) = omega arith in f)
      ∙ drop-append_past (sz - length d) d c

read_loop-Reads :
    (ms : List (List ℕ)) (offset sz free : ℕ)
    → 0 < sz
    → Within offset ms
    → sz ≤ length (stream ms offset)
    → Reads ms offset sz free
read_loop-Reads [] offset sz free positive w le = absurd (omega arith)
read_loop-Reads (m ∷ ms) offset sz free positive w le = elim (dec_lt sz (length m - offset)) [
  | yes part ↦ (
    offset + sz,
    m ∷ ms,
    free,
    round-part m ms offset sz free w part
        ∙ ap (λ t. some (t, offset + sz, m ∷ ms, free))
            (sym (take-append_within sz d (concat ms) (omega (arith, dsz)))),
    omega arith,
    ap (λ t. t ++ concat ms) (drop-drop offset sz m)
        ∙ sym (drop-append_within sz d (concat ms) (omega (arith, dsz))),
    refl,
  )
  | no over ↦ elim (ℕ_discrete (length m - offset) sz) [
    | yes whole ↦ (
      0,
      ms,
      free + 1,
      round-whole m ms offset sz free w whole
          ∙ ap (λ t. some (t, 0, ms, free + 1))
              (ap (λ k. take k d) (let e : sz ≡ length d = omega (arith, dsz) in e)
                ∙ take_whole d
                ∙ sym (front_of d (concat ms) sz (omega (arith, dsz)))),
      Within-start ms,
      stream_start ms ∙ sym (back_of d (concat ms) sz (omega (arith, dsz))),
      omega arith,
    )
    | no more ↦
        let (offset', ms', free', run, w', left, pool) =
          read_loop-Reads ms 0 (sz - (length m - offset)) (free + 1) (omega arith) (Within-start ms)
            (omega (arith, dsz, ap length (stream_start ms), length-append d (concat ms))) in
        (
          offset',
          ms',
          free',
          round-next m ms offset sz free w (omega arith)
              ∙ ap (copy_first (take (length m - offset) d)) run
              ∙ ap (λ t. some (t, offset', ms', free'))
                  (ap₂ (λ a b. a ++ take b (stream ms 0))
                      (ap (λ k. take k d) (sym dsz) ∙ take_whole d) (ap (λ k. sz - k) (sym dsz))
                    ∙ ap (λ s. d ++ take (sz - length d) s) (stream_start ms)
                    ∙ sym (front_past d (concat ms) sz (omega (arith, dsz)))),
          w',
          left
              ∙ ap₂ drop (ap (λ k. sz - k) (sym dsz)) (stream_start ms)
              ∙ sym (back_past d (concat ms) sz (omega (arith, dsz))),
          omega arith,
        )
  ]
]
  where
    d : List ℕ
    d = drop offset m

    dsz : length d ≡ length m - offset
    dsz = length-drop offset m

-- The bytes that a buffer holds.
abbrev pub bytes_of : DataBuffer → List ℕ
bytes_of db = stream db.chunks db.offset

pub record IsValid (db : DataBuffer) : Type 0 where
  pub within : Within db.offset db.chunks
  pub sized : db.size ≡ length (bytes_of db)

-- No message of the pool is lost: those of the buffer and the free ones fill the blocks as before.
abbrev pub Conserves : DataBuffer → Pool → DataBuffer → Pool → Type 0
Conserves db mp db' mp' =
    mp'.free + length db'.chunks + message_pool * mp.blocks
    ≡ mp.free + length db.chunks + message_pool * mp'.blocks

-- `databuffer_read` of at least one byte, and of no more than a valid buffer holds, copies the
-- first bytes in order, whichever chunks they are in, and leaves the others in a valid buffer.
-- The header stays, and every emptied message goes back to the pool.
pub read_lem :
    (sz : ℕ) (db : DataBuffer) (mp : Pool)
    → IsValid db
    → 0 < sz
    → sz ≤ db.size
    → (db' : DataBuffer) × (mp' : Pool) × (read sz db mp ≡ some (take sz (bytes_of db), db', mp'))
      × IsValid db'
      × (bytes_of db' ≡ drop sz (bytes_of db))
      × (db'.header ≡ db.header)
      × Conserves db mp db' mp'
unfolding read
read_lem sz db mp v positive le =
    let (offset, ms, free, run, within, left, pool) =
      read_loop-Reads db.chunks db.offset sz mp.free positive v.within (omega (arith, v.sized)) in
    let enough : leb sz db.size ≡ true = ground arith in
    (
      record db { size = db.size - sz; offset = offset; chunks = ms },
      record mp { free = free },
      rw (enough, run) refl,
      record {
        within = within;
        sized = omega (arith, v.sized, ap length left, length-drop sz (bytes_of db));
      },
      left,
      refl,
      omega arith,
    )

-- `databuffer_push` onto a valid buffer puts the bytes behind those that it holds, with a message
-- from the pool, and keeps the buffer valid.
pub push_lem :
    (bytes : List ℕ) (db : DataBuffer) (mp : Pool)
    → IsValid db
    → let (db', mp') = push bytes db mp in
      IsValid db'
      × (bytes_of db' ≡ bytes_of db ++ bytes)
      × (db'.header ≡ db.header)
      × Conserves db mp db' mp'
unfolding push
push_lem bytes db mp v = (
  record {
    within = within_more db.chunks db.offset v.within;
    sized = omega (
      arith,
      v.sized,
      ap length (more db.chunks db.offset v.within),
      length-append (bytes_of db) bytes,
    );
  },
  more db.chunks db.offset v.within,
  refl,
  counts,
)
  where
    within_more :
        (ms : List (List ℕ)) (offset : ℕ) → Within offset ms → Within offset (ms ++ bytes ∷ [])
    within_more [] offset w = omega arith
    within_more (m ∷ ms) offset w = w

    concat_more : (ms : List (List ℕ)) → concat (ms ++ bytes ∷ []) ≡ concat ms ++ bytes
    concat_more [] = append-nil bytes
    concat_more (m ∷ ms) =
        ap (λ r. m ++ r) (concat_more ms) ∙ sym (append_assoc m (concat ms) bytes)

    more :
        (ms : List (List ℕ)) (offset : ℕ)
        → Within offset ms
        → stream (ms ++ bytes ∷ []) offset ≡ stream ms offset ++ bytes
    more [] offset w = ap (λ k. drop k bytes ++ []) w ∙ append-nil bytes
    more (m ∷ ms) offset w =
        ap (λ r. drop offset m ++ r) (concat_more ms)
        ∙ sym (append_assoc (drop offset m) (concat ms) bytes)

    counts : Conserves db mp (push bytes db mp).0 (push bytes db mp).1
    counts = elim (ℕ_discrete mp.free 0) [
      | yes e ↦
          rw (let f : (mp.free == 0) ≡ true = ground arith in f)
            (omega (arith, length-append db.chunks (bytes ∷ [])))
      | no ne ↦ rw (==_of_ne ne) (omega (arith, length-append db.chunks (bytes ∷ [])))
    ]
