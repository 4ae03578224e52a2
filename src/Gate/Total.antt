-- ===== src/Gate/Total.antt =====
-- skynet/service-src/service_gate.c: `dispatch_message` on any valid buffer.
use Prim.Native.Nat.{bit_or}
use skynet_server.Common.{
  List, [], ◌∷◌, ◌++◌, ℕ, zero, suc, true, false, some, ◌+◌, ◌==◌, ◌≤◌, ◌<◌, ◌≡◌, ◌⊎◌, inl, inr,
  leb, length, take, drop, refl, arith, ap, ◌∙◌, length-drop, Bool-cases, dec_lt, ℕ_discrete,
  ==_of_ne,
}
use skynet_server.Common.Int.{ℤ, pos, negsuc, ltb_ℤ}
use skynet_server.Common.Options.{◌>>=◌}
use skynet_server.Buffer.{DataBuffer, Pool, header_of, await_body, reset}
use skynet_server.Buffer as Buffer
use skynet_server.Buffer.Read.{IsValid, bytes_of, read_lem}
use skynet_server.Buffer.Frame.{header_waits, header_done}
use skynet_server.Gate.{
  Connection, Gate, Call, send, Handled, pass, forward, before, refuse, dispatch_size,
  dispatch_loop, dispatch_message, max_packet, ptype_text, ptype_tag_dontcopy, decimal, data_mark,
}
use skynet_server.Gate.Header.{Holds, header_negative, waiting, readheader-short, readheader-Known}
use skynet_server.Gate.Chunks.{push-Holds, length-Holds}

-- `_forward` reads the packet or does nothing.
forward-cases :
    (g : Gate) (c : Connection) (mp : Pool) (n : ℕ)
    → ((make : List ℕ → Call) × (forward g c mp n ≡ (Buffer.read n c.buffer mp >>= pass make c)))
      ⊎ (forward g c mp n ≡ some ([], c, mp))
unfolding forward
forward-cases g c mp n = elim (Bool-cases (ltb_ℤ (pos 0) c.id)) [
  | inr no_socket ↦ inr (rw no_socket refl)
  | inl socket ↦ elim (Bool-cases (g.broker == 0)) [
    | inr broker ↦
        inl
          (send 0 g.broker (bit_or g.client_tag ptype_tag_dontcopy) c.id, rw (socket, broker) refl)
    | inl b ↦ elim (Bool-cases (c.agent == 0)) [
      | inr agent ↦ inl (
        send c.client c.agent (bit_or g.client_tag ptype_tag_dontcopy) c.id,
        rw (socket, b, agent) refl,
      )
      | inl a ↦ elim (Bool-cases (g.watchdog == 0)) [
        | inl w ↦ inr (rw (socket, b, a, w) refl)
        | inr watchdog ↦ inl (
          (λ bytes.
              send 0 g.watchdog (bit_or ptype_text ptype_tag_dontcopy) c.id
                (decimal c.id ++ (data_mark ++ bytes))),
          rw (socket, b, a, watchdog) refl,
        )
      ]
    ]
  ]
]

module _ (g : Gate) (id : ℕ) (c : Connection) (positive : 0 < g.header_size) where
  -- The handler ends, with some calls, and the buffer holds what some stream would leave.
  abbrev pub Finishes : Handled → Type 0
  Finishes run =
      (calls : List Call) × (db : DataBuffer) × (mp : Pool) × (t : List ℕ) × (run
        ≡ some (calls, record c { buffer = db }, mp))
      × Holds g.header_size db t

  Finishes-before :
      (calls : List Call) (rest : Handled) → Finishes rest → Finishes (before calls rest)
  Finishes-before calls rest (more, db, mp, t, run, v) =
      (calls ++ more, db, mp, t, ap (before calls) run, v)

  forward-Finishes :
      (f n : ℕ) (rest : List ℕ) (db : DataBuffer) (mp : Pool)
      → IsValid db
      → bytes_of db ≡ rest
      → 0 < n
      → n ≤ db.size
      → ((t : List ℕ) (db₁ : DataBuffer) (mp₁ : Pool)
          → Holds g.header_size db₁ t
          → length t ≤ length rest
          → Finishes (dispatch_loop f g id (record c { buffer = db₁ }) mp₁))
      → Finishes (
          forward g (record c { buffer = db }) mp n >>= λ (calls, c'', mp').
          before calls (dispatch_loop f g id (record c'' { buffer = reset c''.buffer }) mp'))
  forward-Finishes f n rest db mp v left positive le others =
      elim (forward-cases g (record c { buffer = db }) mp n) [
        | inr nothing ↦
            let (calls, db₂, mp₂, t, run, holds) =
              others rest (reset db) mp
                (record {
                  valid = record { within = v.within; sized = v.sized };
                  since = inl (refl, left);
                })
                (omega arith) in
            (calls, db₂, mp₂, t, ap (λ o. o >>= next) nothing ∙ ap (before []) run, holds)
        | inl (make, passed) ↦
            let (db', mp', run, v', left', same, counts) = read_lem n db mp v positive le in
            let (calls, db₂, mp₂, t, run₂, holds) =
              others (drop n rest) (reset db') mp'
                (record {
                  valid = record { within = v'.within; sized = v'.sized };
                  since = inl (refl, left' ∙ ap (drop n) left);
                })
                (omega (arith, length-drop n rest)) in
            (
              make (take n (bytes_of db)) ∷ calls,
              db₂,
              mp₂,
              t,
              ap (λ o. o >>= next)
                    (passed ∙ ap (λ o. o >>= pass make (record c { buffer = db })) run)
                  ∙ ap (before (make (take n (bytes_of db)) ∷ [])) run₂,
              holds,
            )
      ]
    where
      next : List Call × Connection × Pool → Handled
      next (calls, c'', mp') =
          before calls (dispatch_loop f g id (record c'' { buffer = reset c''.buffer }) mp')

  refuse-Finishes :
      (db : DataBuffer) (mp : Pool) → Finishes (refuse id (record c { buffer = db }) mp)
  unfolding Buffer.clear
  refuse-Finishes db mp = (
    _,
    _,
    _,
    [],
    refl,
    record { valid = record { within = refl; sized = refl }; since = inl (refl, refl) },
  )

  step-Finishes :
      (f : ℕ) (h : ℤ) (s : List ℕ) (db : DataBuffer) (mp : Pool)
      → g.header_size ≤ length s
      → header_of g.header_size (take g.header_size s) ≡ h
      → db.header ≡ h
      → IsValid db
      → bytes_of db ≡ drop g.header_size s
      → ((t : List ℕ) (db₁ : DataBuffer) (mp₁ : Pool)
          → Holds g.header_size db₁ t
          → length t < length s
          → Finishes (dispatch_loop f g id (record c { buffer = db₁ }) mp₁))
      → Finishes (dispatch_size (dispatch_loop f g id) g id c (await_body db mp))
  unfolding dispatch_size
  step-Finishes f (negsuc m) s db mp long is known v left others = (
    [],
    db,
    mp,
    s,
    ap (dispatch_size (dispatch_loop f g id) g id c) (header_negative m db mp known),
    waiting g.header_size (negsuc m) s db long is known v left refl,
  )
  step-Finishes f (pos n) s db mp long is known v left others =
      elim (dec_lt (length (drop g.header_size s)) n) [
        | yes few ↦ (
          [],
          db,
          mp,
          s,
          ap (dispatch_size (dispatch_loop f g id) g id c)
              (header_waits n db mp known (omega (arith, v.sized, ap length left))),
          waiting g.header_size (pos n) s db long is known v left (==_of_ne (omega arith)),
        )
        | no enough ↦
            let le : n ≤ db.size = omega (arith, v.sized, ap length left) in
            let done =
              ap (dispatch_size (dispatch_loop f g id) g id c) (header_done n db mp known le) in
            let shorter = length-drop g.header_size s in
            elim (ℕ_discrete n 0) [
              | yes z ↦
                  let b : (n == 0) ≡ true = ground arith in
                  let (calls, db', mp', t, run, holds) =
                    others (drop g.header_size s) db mp
                      (record { valid = v; since = inl (known ∙ ap pos z, left) }) (omega arith) in
                  (calls, db', mp', t, done ∙ rw b run, holds)
              | no nz ↦
                  let b : (n == 0) ≡ false = ==_of_ne nz in
                  elim (Bool-cases (leb max_packet n)) [
                    | inl big ↦
                        let (calls, db', mp', t, run, holds) = refuse-Finishes db mp in
                        (calls, db', mp', t, done ∙ rw (b, big) run, holds)
                    | inr small ↦
                        let (calls, db', mp', t, run, holds) =
                          forward-Finishes f n (drop g.header_size s) db mp v left (omega arith) le
                            (λ t db₁ mp₁ holds low. others t db₁ mp₁ holds (omega arith)) in
                        (calls, db', mp', t, done ∙ rw (b, small) run, holds)
                  ]
            ]
      ]

  loop-Finishes :
      (f : ℕ) (s : List ℕ) (db : DataBuffer) (mp : Pool)
      → Holds g.header_size db s
      → length s < f
      → Finishes (dispatch_loop f g id (record c { buffer = db }) mp)
  unfolding dispatch_loop dispatch_size
  loop-Finishes zero s db mp v lt = absurd (omega arith)
  loop-Finishes (suc f) s db mp v lt = elim (dec_lt (length s) g.header_size) [
    | yes short ↦ (
      [],
      db,
      mp,
      s,
      ap (λ o. o >>= dispatch_size (dispatch_loop f g id) g id (record c { buffer = db }))
          (readheader-short g.header_size db mp s positive v short),
      v,
    )
    | no long ↦
        let (db₁, mp₁, run, v₁, known, left, counts) =
          readheader-Known g.header_size db mp s positive v (omega arith) in
        let (calls, db₂, mp₂, t, run', holds) =
          step-Finishes f (header_of g.header_size (take g.header_size s)) s db₁ mp₁ (omega arith)
            refl known v₁ left (λ t db mp holds lt'. loop-Finishes f t db mp holds (omega arith)) in
        (
          calls,
          db₂,
          mp₂,
          t,
          ap (λ o. o >>= dispatch_size (dispatch_loop f g id) g id (record c { buffer = db })) run
              ∙ run',
          holds,
        )
  ]

-- `dispatch_message` ends on any connection, also one whose packets have nowhere to go, and leaves
-- a valid buffer; nothing else of the connection changes.
pub dispatch_message-Finishes :
    (g : Gate) (id : ℕ) (c : Connection) (s bytes : List ℕ)
    → 0 < g.header_size
    → g.header_size ≤ 4
    → Holds g.header_size c.buffer s
    → (calls : List Call) × (db : DataBuffer) × (mp : Pool) × (t : List ℕ) × (dispatch_message g id
          c bytes
        ≡ some (calls, record c { buffer = db }, mp))
      × Holds g.header_size db t
unfolding dispatch_message
dispatch_message-Finishes g id c s bytes positive small v =
    let (db, mp) = Buffer.push bytes c.buffer g.mp in
    let holds = push-Holds g.header_size c.buffer g.mp s bytes v in
    let enough = length-Holds g.header_size db (s ++ bytes) holds in
    loop-Finishes g id c positive (db.size + 8) (s ++ bytes) db mp holds (omega arith)
