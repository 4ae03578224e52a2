-- ===== src/Gate/Header.antt =====
-- `databuffer_readheader` of skynet/service-src/databuffer.h on any stream, for
-- skynet/service-src/service_gate.c.
use skynet_server.Common.{
  List, ◌++◌, ℕ, true, false, some, ◌≤◌, ◌<◌, ◌≡◌, ◌⊎◌, inl, inr, ltb, length, take, drop, refl,
  arith, ap, ◌∙◌, sym, length-append, length-take, take-append-drop, ltb, false,
}
use skynet_server.Common.Int.{pos, negsuc, ltb_ℤ, ℤ}
use skynet_server.Common.Options.{◌>>=◌}
use skynet_server.Buffer.{
  DataBuffer, Pool, readheader, take_header, header_of, await_body, no_header, read,
}
use skynet_server.Buffer.Read.{IsValid, bytes_of, Conserves, read_lem, front_of, back_of}

-- The header of a packet has been read, and these were its bytes.
abbrev pub Begun : ℕ → DataBuffer → List ℕ → Type 0
Begun hs db s =
    (h : List ℕ) × (length h ≡ hs)
    × (header_of hs h ≡ db.header)
    × (no_header db.header ≡ false)
    × (s ≡ h ++ bytes_of db)

-- A buffer that has received `s` since the end of the last packet.
pub record Holds (hs : ℕ) (db : DataBuffer) (s : List ℕ) : Type 0 where
  pub valid : IsValid db
  pub since : ((db.header ≡ pos 0) × (bytes_of db ≡ s)) ⊎ Begun hs db s

-- The header is known, and the bytes behind it are left.
abbrev pub Known : ℕ → List ℕ → DataBuffer → Pool → Type 0
Known hs s db mp =
    (db₁ : DataBuffer) × (mp₁ : Pool) × (readheader hs db mp ≡ some (await_body db₁ mp₁))
    × IsValid db₁
    × (db₁.header ≡ header_of hs (take hs s))
    × (bytes_of db₁ ≡ drop hs s)
    × Conserves db mp db₁ mp₁

-- The three ways through `databuffer_readheader`.
module _ (hs : ℕ) (db : DataBuffer) (mp : Pool) where
  start-short : db.header ≡ pos 0 → db.size < hs → readheader hs db mp ≡ some (negsuc 0, db, mp)
  unfolding readheader
  start-short e lt = let few : ltb db.size hs ≡ true = ground arith in rw (e, few) refl

  start-full :
      db.header ≡ pos 0 → hs ≤ db.size → readheader hs db mp ≡ (read hs db mp >>= take_header hs)
  unfolding readheader
  start-full e le = let many : ltb db.size hs ≡ false = ground arith in rw (e, many) refl

  begun : no_header db.header ≡ false → readheader hs db mp ≡ some (await_body db mp)
  unfolding readheader
  begun e = rw e refl

module _ (hs : ℕ) (db : DataBuffer) (mp : Pool) (s : List ℕ) (positive : 0 < hs)
    (v : Holds hs db s) where
  pub readheader-short : length s < hs → readheader hs db mp ≡ some (negsuc 0, db, mp)
  readheader-short lt = elim v.since [
    | inl (e, b) ↦ start-short hs db mp e (omega (arith, v.valid.sized, ap length b))
    | inr (h, len, _, _, all) ↦
        absurd (omega (arith, len, ap length all, length-append h (bytes_of db)))
  ]

  pub readheader-Known : hs ≤ length s → Known hs s db mp
  unfolding take_header
  readheader-Known le = elim v.since [
    | inl (e, b) ↦
        let enough : hs ≤ db.size = omega (arith, v.valid.sized, ap length b) in
        let (db', mp', run, v', left, same, counts) = read_lem hs db mp v.valid positive enough in
        (
          record db' { header = header_of hs (take hs s) },
          mp',
          start-full hs db mp e enough
              ∙ ap (λ o. o >>= take_header hs) run
              ∙ ap (λ t. some (await_body (record db' { header = header_of hs (take hs t) }) mp'))
                  b,
          record { within = v'.within; sized = v'.sized },
          refl,
          left ∙ ap (drop hs) b,
          counts,
        )
    | inr (h, len, known, some_header, all) ↦ (
      db,
      mp,
      begun hs db mp some_header,
      v.valid,
      sym known
          ∙ ap (header_of hs) (sym (ap (take hs) all ∙ front_of h (bytes_of db) hs (sym len))),
      sym (ap (drop hs) all ∙ back_of h (bytes_of db) hs (sym len)),
      refl,
    )
  ]

-- A packet that has not arrived whole.
pub waiting :
    (hs : ℕ) (h : ℤ) (s : List ℕ) (db : DataBuffer)
    → hs ≤ length s
    → header_of hs (take hs s) ≡ h
    → db.header ≡ h
    → IsValid db
    → bytes_of db ≡ drop hs s
    → no_header h ≡ false
    → Holds hs db s
waiting hs h s db long is known v left some_header = record {
  valid = v;
  since = inr (
    take hs s,
    omega (arith, length-take hs s),
    is ∙ sym known,
    ap no_header known ∙ some_header,
    sym (take-append-drop hs s) ∙ ap (λ t. take hs s ++ t) (sym left),
  );
}

pub header_negative :
    (m : ℕ) (db : DataBuffer) (mp : Pool)
    → db.header ≡ negsuc m
    → await_body db mp ≡ (negsuc m, db, mp)
header_negative m db mp e =
    rw e (let f : ltb_ℤ (pos db.size) (negsuc m) ≡ false = ground arith in rw f refl)
