-- ===== src/Buffer/Frame.antt =====
-- `databuffer_readheader`: a stream of packets behind their lengths is cut into the packets.
use skynet_server.Common.{
  ℕ, List, [], ◌∷◌, ◌++◌, refl, Bool, ◌/◌, length, true, ◌<◌, ◌^◌, ◌≡◌, arith, false, some, ◌%◌,
  ◌≤◌, ltb, ◌*◌, ◌+◌, ap, ◌∙◌, take, sym, drop, length-append, ==_of_ne,
}
use skynet_server.Buffer.{
  DataBuffer, Pool, read, readheader, take_header, header_of, to_int, bit_or, await_body, no_header,
}
use skynet_server.Buffer.Read.{IsValid, bytes_of, Conserves, read_lem, front_of, back_of}
use skynet_server.Common.Int.{pos, negsuc, ltb_ℤ}
use skynet_server.Common.Options.{◌>>=◌}
use skynet_server.Common.Bits.{or-fields}

-- A header of two bytes, and of four, with the most significant byte first.
abbrev pub frame₂ : ℕ → List ℕ
frame₂ n = n / 2 ^ 8 ∷ n % 2 ^ 8 ∷ []

abbrev pub frame₄ : ℕ → List ℕ
frame₄ n = n / 2 ^ 24 ∷ n / 2 ^ 16 % 2 ^ 8 ∷ n / 2 ^ 8 % 2 ^ 8 ∷ n % 2 ^ 8 ∷ []

abbrev pub frame : Bool → ℕ → List ℕ
frame true n = frame₄ n
frame false n = frame₂ n

abbrev pub header_size : Bool → ℕ
header_size true = 4
header_size false = 2

-- A length that a header can carry as a positive `int`.
abbrev pub Fits : Bool → ℕ → Type 0
Fits true n = n < 2 ^ 31
Fits false n = n < 2 ^ 16

-- The header is decoded as it is encoded.
pub header_of-frame :
    (long : Bool) (n : ℕ) → Fits long n → header_of (header_size long) (frame long n) ≡ pos n
unfolding header_of
header_of-frame true n h = ap to_int (a ∙ b ∙ c ∙ whole) ∙ rw small refl
  where
    n₃ : ℕ
    n₃ = n / 2 ^ 24

    n₂ : ℕ
    n₂ = n / 2 ^ 16 % 2 ^ 8

    n₁ : ℕ
    n₁ = n / 2 ^ 8 % 2 ^ 8

    n₀ : ℕ
    n₀ = n % 2 ^ 8

    a :
        bit_or (bit_or (bit_or (n₃ * 2 ^ 24) (n₂ * 2 ^ 16)) (n₁ * 2 ^ 8)) n₀
        ≡ bit_or (bit_or ((n₃ * 2 ^ 8 + n₂) * 2 ^ 16) (n₁ * 2 ^ 8)) n₀
    a =
        ap (λ t. bit_or (bit_or t (n₁ * 2 ^ 8)) n₀)
          (or-fields 24 n₃ (n₂ * 2 ^ 16) (omega arith) ∙ omega arith)

    b :
        bit_or (bit_or ((n₃ * 2 ^ 8 + n₂) * 2 ^ 16) (n₁ * 2 ^ 8)) n₀
        ≡ bit_or (((n₃ * 2 ^ 8 + n₂) * 2 ^ 8 + n₁) * 2 ^ 8) n₀
    b =
        ap (λ t. bit_or t n₀)
          (or-fields 16 (n₃ * 2 ^ 8 + n₂) (n₁ * 2 ^ 8) (omega arith) ∙ omega arith)

    c :
        bit_or (((n₃ * 2 ^ 8 + n₂) * 2 ^ 8 + n₁) * 2 ^ 8) n₀
        ≡ ((n₃ * 2 ^ 8 + n₂) * 2 ^ 8 + n₁) * 2 ^ 8 + n₀
    c = or-fields 8 ((n₃ * 2 ^ 8 + n₂) * 2 ^ 8 + n₁) n₀ (omega arith)

    whole : ((n₃ * 2 ^ 8 + n₂) * 2 ^ 8 + n₁) * 2 ^ 8 + n₀ ≡ n
    whole = omega arith

    small : ltb n (2 ^ 31) ≡ true
    small = ground arith
header_of-frame false n h = ap pos (or-fields 8 (n / 2 ^ 8) (n % 2 ^ 8) (omega arith) ∙ whole)
  where
    whole : n / 2 ^ 8 * 2 ^ 8 + n % 2 ^ 8 ≡ n
    whole = omega arith

length-frame : (long : Bool) (n : ℕ) → length (frame long n) ≡ header_size long
length-frame true n = refl
length-frame false n = refl

header_size_pos : (long : Bool) → 0 < header_size long
header_size_pos true = omega arith
header_size_pos false = omega arith

module _ (long : Bool) (db : DataBuffer) (mp : Pool) (v : IsValid db)
    (start : db.header ≡ pos 0) where
  readheader-short :
      db.size < header_size long → readheader (header_size long) db mp ≡ some (negsuc 0, db, mp)
  unfolding readheader
  readheader-short lt =
      rw start (let e : ltb db.size (header_size long) ≡ true = ground arith in rw e refl)

  readheader-full :
      header_size long ≤ db.size
      → readheader (header_size long) db mp
        ≡ (read (header_size long) db mp >>= take_header (header_size long))
  unfolding readheader
  readheader-full le =
      rw start (let e : ltb db.size (header_size long) ≡ false = ground arith in rw e refl)

  -- The header is read, and the bytes behind it are left.
  pub header_taken :
      (n : ℕ) (body : List ℕ)
      → Fits long n
      → bytes_of db ≡ frame long n ++ body
      → (db₁ : DataBuffer) × (mp₁ : Pool) × (readheader (header_size long) db mp
          ≡ some (await_body db₁ mp₁))
        × IsValid db₁
        × (db₁.header ≡ pos n)
        × (bytes_of db₁ ≡ body)
        × Conserves db mp db₁ mp₁
  unfolding take_header
  header_taken n body fits e =
      let total = ap length e ∙ length-append (frame long n) body in
      let enough : header_size long ≤ db.size =
        omega (arith, v.sized, total, length-frame long n) in
      let (db', mp', run, v', left, same, counts) =
        read_lem (header_size long) db mp v (header_size_pos long) enough in
      (
        record db' { header = pos n },
        mp',
        readheader-full enough
            ∙ ap (λ o. o >>= take_header (header_size long)) run
            ∙ ap (λ h. some (await_body (record db' { header = h }) mp'))
                (ap (header_of (header_size long)) (front n body e) ∙ header_of-frame long n fits),
        record { within = v'.within; sized = v'.sized },
        refl,
        left ∙ back n body e,
        counts,
      )
    where
      front :
          (n : ℕ) (body : List ℕ)
          → bytes_of db ≡ frame long n ++ body
          → take (header_size long) (bytes_of db) ≡ frame long n
      front n body e =
          ap (take (header_size long)) e
          ∙ front_of (frame long n) body (header_size long) (sym (length-frame long n))

      back :
          (n : ℕ) (body : List ℕ)
          → bytes_of db ≡ frame long n ++ body
          → drop (header_size long) (bytes_of db) ≡ body
      back n body e =
          ap (drop (header_size long)) e
          ∙ back_of (frame long n) body (header_size long) (sym (length-frame long n))

-- A known header waits for the whole packet.
pub header_waits :
    (n : ℕ) (db₁ : DataBuffer) (mp₁ : Pool)
    → db₁.header ≡ pos n
    → db₁.size < n
    → await_body db₁ mp₁ ≡ (negsuc 0, db₁, mp₁)
header_waits n db₁ mp₁ e lt =
    rw e (let f : ltb_ℤ (pos db₁.size) (pos n) ≡ true = ground arith in rw f refl)

pub header_done :
    (n : ℕ) (db₁ : DataBuffer) (mp₁ : Pool)
    → db₁.header ≡ pos n
    → n ≤ db₁.size
    → await_body db₁ mp₁ ≡ (pos n, db₁, mp₁)
header_done n db₁ mp₁ e le =
    rw e (let f : ltb_ℤ (pos db₁.size) (pos n) ≡ false = ground arith in rw f refl)

pub readheader-known :
    (size n : ℕ) (db : DataBuffer) (mp : Pool)
    → 0 < n
    → db.header ≡ pos n
    → readheader size db mp ≡ some (await_body db mp)
unfolding readheader
readheader-known size n db mp positive e =
    let h : no_header db.header ≡ false = ap no_header e ∙ ==_of_ne (omega arith) in rw h refl
