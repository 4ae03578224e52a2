-- ===== src/Gate/Stream.antt =====
-- `dispatch_message` of skynet/service-src/service_gate.c sends on the packets of the stream.
use Prim.Native.Nat.{bit_or}
use skynet_server.Common.{
  List, [], ◌∷◌, ◌++◌, ℕ, zero, suc, true, false, Option, none, some, if◌then◌else◌, not, ◌==◌, ◌≤◌,
  ◌<◌, ◌≡◌, ◌≢◌, ◌⊎◌, inl, inr, ltb, leb, length, take, drop, refl, arith, ap, ◌∙◌, length-drop,
  Bool-cases, map, dec_lt, ℕ_discrete, ==_of_ne,
}
use skynet_server.Common.Int.{ℤ, pos, negsuc, ltb_ℤ}
use skynet_server.Common.Options.{◌>>=◌}
use skynet_server.Buffer.{DataBuffer, Pool, readheader, header_of, await_body, no_header, reset}
use skynet_server.Buffer as Buffer
use skynet_server.Buffer.Read.{IsValid, bytes_of, Conserves, read_lem}
use skynet_server.Buffer.Frame.{header_waits, header_done}
use skynet_server.Gate.{
  Connection, Gate, Call, socket_close, error, send, Handled, pass, forward, before, refuse,
  dispatch_size, dispatch_loop, max_packet, ptype_text, ptype_tag_dontcopy, decimal, data_mark,
}
use skynet_server.Gate.Split.{split_on, cut, first}
use skynet_server.Gate.Header.{waiting, header_negative, Holds, readheader-short, readheader-Known}

-- Where the packets of a connection go: to the broker, or else to the agent of the connection, or
-- else, behind the number of the connection and ` data `, to the watchdog.
abbrev pub packet_call : Gate → Connection → List ℕ → Call
packet_call g c =
    if not (g.broker == 0)
    then send 0 g.broker (bit_or g.client_tag ptype_tag_dontcopy) c.id
    else if not (c.agent == 0)
    then send c.client c.agent (bit_or g.client_tag ptype_tag_dontcopy) c.id
    else λ bytes.
        send 0 g.watchdog (bit_or ptype_text ptype_tag_dontcopy) c.id
          (decimal c.id ++ (data_mark ++ bytes))

abbrev pub IsRouted : Gate → Connection → Type 0
IsRouted g c = (ltb_ℤ (pos 0) c.id ≡ true) × ((g.broker ≢ 0) ⊎ (c.agent ≢ 0) ⊎ (g.watchdog ≢ 0))

-- The calls at the end of a stream, and the buffer then.
abbrev pub ending : ℕ → Option (List ℕ) → List Call
ending id (some tail) = []
ending id none = socket_close (pos id) ∷ error ∷ []

abbrev pub After : ℕ → DataBuffer → Option (List ℕ) → Type 0
After hs db (some tail) = Holds hs db tail
After hs db none = Holds hs db []

forward_lem :
    (g : Gate) (c : Connection) (mp : Pool) (n : ℕ)
    → IsRouted g c
    → forward g c mp n ≡ (Buffer.read n c.buffer mp >>= pass (packet_call g c) c)
unfolding forward
forward_lem g c mp n (positive, where_to) = elim (ℕ_discrete g.broker 0) [
  | no broker ↦ rw (positive, ==_of_ne broker) refl
  | yes none_b ↦
      let b : (g.broker == 0) ≡ true = ground arith in
      elim (ℕ_discrete c.agent 0) [
        | no agent ↦ rw (positive, b, ==_of_ne agent) refl
        | yes none_a ↦
            let a : (c.agent == 0) ≡ true = ground arith in
            let w : (g.watchdog == 0) ≡ false = elim where_to [
              | inl ne ↦ absurd (ne none_b)
              | inr (inl ne) ↦ absurd (ne none_a)
              | inr (inr ne) ↦ ==_of_ne ne
            ] in
            rw (positive, b, a, w) refl
      ]
]

module _ (g : Gate) (id : ℕ) (c : Connection) (routed : IsRouted g c)
    (positive : 0 < g.header_size) where
  -- The packets are sent, and the rest is kept.
  abbrev pub Sends : DataBuffer → Pool → List (List ℕ) × Option (List ℕ) → Handled → Type 0
  Sends db mp (packets, end) run =
      (db' : DataBuffer) × (mp' : Pool) × (run
        ≡ some (map (packet_call g c) packets ++ ending id end, record c { buffer = db' }, mp'))
      × After g.header_size db' end
      × Conserves db mp db' mp'

  -- A packet that has arrived is sent, and the others after it.
  packet-Sends :
      (f n : ℕ) (rest : List ℕ) (db : DataBuffer) (mp : Pool)
      → IsValid db
      → bytes_of db ≡ rest
      → 0 < n
      → n ≤ db.size
      → ((db₁ : DataBuffer) (mp₁ : Pool)
          → Holds g.header_size db₁ (drop n rest)
          → Sends db₁ mp₁
              (split_on f g.header_size (drop n rest))
              (dispatch_loop f g id (record c { buffer = db₁ }) mp₁))
      → Sends db mp (first (take n rest) (split_on f g.header_size (drop n rest))) (
          forward g (record c { buffer = db }) mp n >>= λ (calls, c'', mp').
          before calls (dispatch_loop f g id (record c'' { buffer = reset c''.buffer }) mp'))
  packet-Sends f n rest db mp v left positive le others =
      let (db', mp', run, v', left', same, counts) = read_lem n db mp v positive le in
      let (db₂, mp₂, run₂, after, counts₂) = others (reset db') mp' (record {
        valid = record { within = v'.within; sized = v'.sized };
        since = inl (refl, left' ∙ ap (drop n) left);
      }) in
      (
        db₂,
        mp₂,
        ap (λ o. o >>= next)
              (forward_lem g (record c { buffer = db }) mp n routed
                ∙ ap (λ o. o >>= pass (packet_call g c) (record c { buffer = db })) run)
            ∙ ap (before (packet_call g c (take n (bytes_of db)) ∷ [])) run₂
            ∙ ap
                (λ t. some (
                  packet_call g c (take n t)
                      ∷ (map (packet_call g c) (split_on f g.header_size (drop n rest)).0
                          ++ ending id (split_on f g.header_size (drop n rest)).1),
                  record c { buffer = db₂ },
                  mp₂,
                ))
                left,
        after,
        omega arith,
      )
    where
      next : List Call × Connection × Pool → Handled
      next (calls, c'', mp') =
          before calls (dispatch_loop f g id (record c'' { buffer = reset c''.buffer }) mp')

  refuse-Sends :
      (db : DataBuffer) (mp : Pool)
      → Sends db mp ([], none) (refuse id (record c { buffer = db }) mp)
  unfolding Buffer.clear
  refuse-Sends db mp = (
    _,
    _,
    refl,
    record { valid = record { within = refl; sized = refl }; since = inl (refl, refl) },
    omega arith,
  )

  step :
      (f : ℕ) (h : ℤ) (s : List ℕ) (db : DataBuffer) (mp : Pool)
      → g.header_size ≤ length s
      → header_of g.header_size (take g.header_size s) ≡ h
      → db.header ≡ h
      → IsValid db
      → bytes_of db ≡ drop g.header_size s
      → ((t : List ℕ) (db₁ : DataBuffer) (mp₁ : Pool)
          → Holds g.header_size db₁ t
          → length t < length s
          → Sends db₁ mp₁
              (split_on f g.header_size t)
              (dispatch_loop f g id (record c { buffer = db₁ }) mp₁))
      → Sends db mp
          (cut (split_on f g.header_size) h s (drop g.header_size s))
          (dispatch_size (dispatch_loop f g id) g id c (await_body db mp))
  unfolding dispatch_size
  step f (negsuc m) s db mp long is known v left others = (
    db,
    mp,
    ap (dispatch_size (dispatch_loop f g id) g id c) (header_negative m db mp known),
    waiting g.header_size (negsuc m) s db long is known v left refl,
    refl,
  )
  step f (pos n) s db mp long is known v left others =
      elim (dec_lt (length (drop g.header_size s)) n) [
        | yes few ↦
            let a : ltb (length (drop g.header_size s)) n ≡ true = ground arith in
            rw a (
              db,
              mp,
              ap (dispatch_size (dispatch_loop f g id) g id c)
                  (header_waits n db mp known (omega (arith, v.sized, ap length left))),
              waiting g.header_size (pos n) s db long is known v left (==_of_ne (omega arith)),
              refl,
            )
        | no enough ↦
            let a : ltb (length (drop g.header_size s)) n ≡ false = ground arith in
            let le : n ≤ db.size = omega (arith, v.sized, ap length left) in
            let done =
              ap (dispatch_size (dispatch_loop f g id) g id c) (header_done n db mp known le) in
            elim (ℕ_discrete n 0) [
              | yes z ↦
                  let b : (n == 0) ≡ true = ground arith in
                  let (db', mp', run, after, counts) =
                    others (drop g.header_size s) db mp
                      (record { valid = v; since = inl (known ∙ ap pos z, left) })
                      (omega (arith, length-drop g.header_size s)) in
                  rw (a, b) (db', mp', done ∙ rw b run, after, counts)
              | no nz ↦
                  let b : (n == 0) ≡ false = ==_of_ne nz in
                  elim (Bool-cases (leb max_packet n)) [
                    | inl big ↦
                        let (db', mp', run, after, counts) = refuse-Sends db mp in
                        rw (a, b, big) (db', mp', done ∙ rw (b, big) run, after, counts)
                    | inr small ↦
                        let (db', mp', run, after, counts) =
                          packet-Sends f n (drop g.header_size s) db mp v left (omega arith) le
                            (λ db₁ mp₁ holds. others (drop n (drop g.header_size s)) db₁ mp₁ holds (
                              omega (
                                arith,
                                length-drop n (drop g.header_size s),
                                length-drop g.header_size s,
                              ))) in
                        rw (a, b, small) (db', mp', done ∙ rw (b, small) run, after, counts)
                  ]
            ]
      ]

  pub loop-Sends :
      (f : ℕ) (s : List ℕ) (db : DataBuffer) (mp : Pool)
      → Holds g.header_size db s
      → length s < f
      → Sends db mp
          (split_on f g.header_size s)
          (dispatch_loop f g id (record c { buffer = db }) mp)
  unfolding dispatch_loop split_on dispatch_size
  loop-Sends zero s db mp v lt = absurd (omega arith)
  loop-Sends (suc f) s db mp v lt = elim (Bool-cases (ltb (length s) g.header_size)) [
    | inl short ↦ rw short (
      db,
      mp,
      ap (λ o. o >>= dispatch_size (dispatch_loop f g id) g id (record c { buffer = db }))
          (readheader-short g.header_size db mp s positive v
            (let e : length s < g.header_size = ground arith in e)),
      v,
      refl,
    )
    | inr long ↦
        let (db₁, mp₁, run, v₁, known, left, counts) =
          readheader-Known g.header_size db mp s positive v
            (let e : g.header_size ≤ length s = ground arith in e) in
        let (db₂, mp₂, run', after, counts') =
          step f (header_of g.header_size (take g.header_size s)) s db₁ mp₁
            (let e : g.header_size ≤ length s = ground arith in e) refl known v₁ left
            (λ t db mp holds lt'. loop-Sends f t db mp holds (omega arith)) in
        rw long (
          db₂,
          mp₂,
          ap (λ o. o >>= dispatch_size (dispatch_loop f g id) g id (record c { buffer = db })) run
              ∙ run',
          after,
          omega arith,
        )
  ]
