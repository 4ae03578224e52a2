-- ===== src/Gate/Chunks.antt =====
-- skynet/service-src/service_gate.c: data that arrives in parts.
use skynet_server.Common.{
  List, [], ◌∷◌, ◌++◌, ℕ, Option, none, some, ◌+◌, ◌≤◌, ◌<◌, ◌≡◌, length, refl, arith, ap, ◌∙◌, sym,
  length-append, append_assoc, append-nil, map, subst, some-injective, inl, inr,
}
use skynet_server.Common.Options.{◌>>=◌}
use skynet_server.Buffer.{DataBuffer, Pool}
use skynet_server.Buffer as Buffer
use skynet_server.Buffer.Read.{bytes_of, Conserves, push_lem, concat}
use skynet_server.Gate.{Connection, Gate, Handled, before, dispatch_message}
use skynet_server.Gate.Split.{split, split_on-fuel, split-append, split-rest, resume}
use skynet_server.Gate.Header.{Holds}
use skynet_server.Gate.Stream.{packet_call, IsRouted, ending, After, loop-Sends}

-- What has been received, and a part that is pushed.
pub push-Holds :
    (hs : ℕ) (db : DataBuffer) (mp : Pool) (s bytes : List ℕ)
    → Holds hs db s
    → Holds hs (Buffer.push bytes db mp).0 (s ++ bytes)
push-Holds hs db mp s bytes v =
    let (v', all, same, counts) = push_lem bytes db mp v.valid in
    record {
      valid = v';
      since = elim v.since [
        | inl (e, b) ↦ inl (same ∙ e, all ∙ ap (λ t. t ++ bytes) b)
        | inr (h, len, known, some_header, whole) ↦ inr (
          h,
          len,
          known ∙ sym same,
          ap Buffer.no_header same ∙ some_header,
          ap (λ t. t ++ bytes) whole
              ∙ append_assoc h (bytes_of db) bytes
              ∙ ap (λ t. h ++ t) (sym all),
        )
      ];
    }

pub length-Holds : (hs : ℕ) (db : DataBuffer) (s : List ℕ) → Holds hs db s → length s ≤ db.size + hs
length-Holds hs db s v = elim v.since [
  | inl (e, b) ↦ omega (arith, v.valid.sized, ap length b)
  | inr (h, len, _, _, whole) ↦
      omega (arith, v.valid.sized, len, ap length whole, length-append h (bytes_of db))
]

-- `dispatch_message` on a connection whose packets have somewhere to go, which has received `s`
-- since its last packet: it ends, and it sends each whole packet of `s` and the new bytes, in order
-- and without its header. What follows the last packet is kept for the next call, and with it a
-- header of four bytes that announces 2^31 or more, and all behind it. Where a header announces 16M
-- or more, and less than 2^31, the connection is closed and its data dropped once so much has
-- arrived.
-- The message pool loses nothing.
pub dispatch_message_lem :
    (g : Gate) (id : ℕ) (c : Connection) (s bytes : List ℕ)
    → IsRouted g c
    → 0 < g.header_size
    → g.header_size ≤ 4
    → Holds g.header_size c.buffer s
    → let (packets, end) = split g.header_size (s ++ bytes) in
      (db' : DataBuffer) × (mp' : Pool) × (dispatch_message g id c bytes
        ≡ some (map (packet_call g c) packets ++ ending id end, record c { buffer = db' }, mp'))
      × After g.header_size db' end
      × Conserves c.buffer g.mp db' mp'
unfolding dispatch_message
dispatch_message_lem g id c s bytes routed positive small v =
    let (db, mp) = Buffer.push bytes c.buffer g.mp in
    let (_, _, _, counts) = push_lem bytes c.buffer g.mp v.valid in
    let holds = push-Holds g.header_size c.buffer g.mp s bytes v in
    let enough = length-Holds g.header_size db (s ++ bytes) holds in
    let same =
      split_on-fuel (db.size + 8) (length (s ++ bytes)) g.header_size (s ++ bytes) positive
        (omega arith) (omega arith) in
    let (db', mp', run, after, counts') =
      loop-Sends g id c routed positive (db.size + 8) (s ++ bytes) db mp holds (omega arith) in
    (
      db',
      mp',
      run
          ∙ ap
              (λ r.
                some (map (packet_call g c) r.0 ++ ending id r.1, record c { buffer = db' }, mp'))
              same,
      subst (λ r. After g.header_size db' r.1) same after,
      omega arith,
    )

-- Parts that arrive one after the other.
abbrev pub receive : Gate → ℕ → Connection → List (List ℕ) → Handled
receive g id c [] = some ([], c, g.mp)
receive g id c (part ∷ parts) = dispatch_message g id c part >>= λ (calls, c', mp).
    before calls (receive (record g { mp = mp }) id c' parts)

map-append {ℓ κ} :
    {A : Type ℓ} {B : Type κ} (f : A → B) (xs ys : List A) → map f (xs ++ ys) ≡ map f xs ++ map f ys
map-append f [] ys = refl
map-append f (x ∷ xs) ys = ap (λ l. f x ∷ l) (map-append f xs ys)

-- What is left to make of a stream, when nothing in it is too long.
after_part :
    (hs : ℕ) (r : List (List ℕ) × Option (List ℕ)) (more : List ℕ) (packets : List (List ℕ))
    (tail : List ℕ)
    → resume hs r more ≡ (packets, some tail)
    → (t : List ℕ) × (r.1 ≡ some t)
      × (r.0 ++ (split hs (t ++ more)).0 ≡ packets)
      × ((split hs (t ++ more)).1 ≡ some tail)
after_part hs (p, none) more packets tail e =
    absurd (let f : none ≡ some tail = ap (λ r. r.1) e in cc)
after_part hs (p, some t) more packets tail e = (t, refl, ap (λ r. r.0) e, ap (λ r. r.1) e)

-- Data that arrives in parts, cut at any places, even within a header: the packets of the whole
-- stream are sent, each one once, in order and without its header, and what follows the last one is
-- kept. The packets have somewhere to go, and none is of 16M or more.
pub receive_lem :
    (parts : List (List ℕ)) (g : Gate) (id : ℕ) (c : Connection) (s : List ℕ)
    (packets : List (List ℕ)) (tail : List ℕ)
    → IsRouted g c
    → 0 < g.header_size
    → g.header_size ≤ 4
    → Holds g.header_size c.buffer s
    → split g.header_size s ≡ ([], some s)
    → split g.header_size (s ++ concat parts) ≡ (packets, some tail)
    → (db' : DataBuffer) × (mp' : Pool) × (receive g id c parts
        ≡ some (map (packet_call g c) packets, record c { buffer = db' }, mp'))
      × Holds g.header_size db' tail
receive_lem [] g id c s packets tail routed positive small v w e =
    let same : ([], some s) ≡ (packets, some tail) =
      sym w ∙ ap (split g.header_size) (sym (append-nil s)) ∙ e in
    (
      c.buffer,
      g.mp,
      ap (λ p. some (map (packet_call g c) p, c, g.mp)) (ap (λ r. r.0) same),
      subst (λ t. Holds g.header_size c.buffer t) (some-injective s tail (ap (λ r. r.1) same)) v,
    )
receive_lem (part ∷ parts) g id c s packets tail routed positive small v w e =
    let (db, mp, run, after, _) = dispatch_message_lem g id c s part routed positive small v in
    let hs = g.header_size in
    let whole =
      sym (split-append hs positive (concat parts) (s ++ part))
      ∙ ap (split hs) (append_assoc s part (concat parts))
      ∙ e in
    let (t, kept, all, rest) =
      after_part hs (split hs (s ++ part)) (concat parts) packets tail whole in
    let (db', mp', run', holds) =
      receive_lem parts (record g { mp = mp }) id (record c { buffer = db }) t
        (split hs (t ++ concat parts)).0 tail routed positive small (subst (After hs db) kept after)
        (split-rest hs (s ++ part) t (split hs (s ++ part)).0 positive
          (ap (λ o. ((split hs (s ++ part)).0, o)) kept))
        (ap (λ o. ((split hs (t ++ concat parts)).0, o)) rest) in
    (
      db',
      mp',
      ap (λ o. o >>= λ (calls, c', mp). before calls (receive (record g { mp = mp }) id c' parts))
            run
          ∙ ap
              (before (
                map (packet_call g c) (split hs (s ++ part)).0
                ++ ending id (split hs (s ++ part)).1))
              run'
          ∙ ap (λ l. some (l, record c { buffer = db' }, mp'))
              (ap
                  (λ o.
                    (map (packet_call g c) (split hs (s ++ part)).0 ++ ending id o)
                    ++ map (packet_call g c) (split hs (t ++ concat parts)).0)
                  kept
                ∙ ap (λ l. l ++ map (packet_call g c) (split hs (t ++ concat parts)).0)
                    (append-nil (map (packet_call g c) (split hs (s ++ part)).0))
                ∙ sym (
                    map-append (packet_call g c) (split hs (s ++ part)).0
                      (split hs (t ++ concat parts)).0)
                ∙ ap (map (packet_call g c)) all),
      holds,
    )
