-- ===== src/Gate/Split.antt =====
-- What skynet/service-src/service_gate.c is to make of a stream of bytes: the packets behind their
-- headers.
use skynet_server.Common.{
  List, [], ◌∷◌, ℕ, zero, suc, true, Option, none, some, if◌then◌else◌, ◌==◌, ◌≤◌, ◌<◌, ◌≡◌, ltb,
  leb, length, ◌++◌, ◌+◌, false, append-nil, ◌∙◌, sym, length-append, ap₂, inl, inr, dec_lt, take,
  drop, refl, arith, length-drop, Bool-cases, inl, inr, ap,
}
use skynet_server.Common.Int.{ℤ, pos, negsuc}
use skynet_server.Common.Slices.{take-append_within, drop-append_within}
use skynet_server.Buffer.{header_of}
use skynet_server.Gate.{max_packet}

-- A packet before the others.
abbrev pub first : List ℕ → List (List ℕ) × Option (List ℕ) → List (List ℕ) × Option (List ℕ)
first packet (packets, end) = (packet ∷ packets, end)

-- A packet by its length, from the bytes behind its header, with what is done from there in
-- `others`. `whole` are the bytes with the header.
abbrev pub cut :
    (List ℕ → List (List ℕ) × Option (List ℕ))
    → ℤ
    → List ℕ
    → List ℕ
    → List (List ℕ) × Option (List ℕ)
cut others (negsuc m) whole rest = ([], some whole)
cut others (pos n) whole rest =
    if ltb (length rest) n
    then ([], some whole)
    else if n == 0
    then others rest
    else if leb max_packet n
    then ([], none)
    else first (take n rest) (others (drop n rest))

-- The packets of a stream, and the bytes behind them that are not yet a packet, or `none` where a
-- header announces more than a packet may hold. There are at most as many rounds as bytes.
unfoldable pub split_on : ℕ → ℕ → List ℕ → List (List ℕ) × Option (List ℕ)
split_on zero hs s = ([], some s)
split_on (suc fuel) hs s =
    let packet = cut (split_on fuel hs) (header_of hs (take hs s)) s (drop hs s) in
    if ltb (length s) hs then ([], some s) else packet

abbrev pub split : ℕ → List ℕ → List (List ℕ) × Option (List ℕ)
split hs s = split_on (length s) hs s

-- The rounds do not matter, if they are enough.
cut-fuel :
    (f f' : List ℕ → List (List ℕ) × Option (List ℕ)) (h : ℤ) (s rest : List ℕ)
    → ((t : List ℕ) → length t ≤ length rest → f t ≡ f' t)
    → cut f h s rest ≡ cut f' h s rest
cut-fuel f f' (negsuc m) s rest same = refl
cut-fuel f f' (pos n) s rest same =
    let a = same rest (omega arith) in
    let b = same (drop n rest) (omega (arith, length-drop n rest)) in rw (a, b) refl

pub split_on-fuel :
    (f f' hs : ℕ) (s : List ℕ)
    → 0 < hs
    → length s ≤ f
    → length s ≤ f'
    → split_on f hs s ≡ split_on f' hs s
unfolding split_on
split_on-fuel zero zero hs s positive le le' = refl
split_on-fuel zero (suc f') hs s positive le le' =
    let e : ltb (length s) hs ≡ true = ground arith in rw e refl
split_on-fuel (suc f) zero hs s positive le le' =
    let e : ltb (length s) hs ≡ true = ground arith in rw e refl
split_on-fuel (suc f) (suc f') hs s positive le le' = elim (Bool-cases (ltb (length s) hs)) [
  | inl short ↦ rw short refl
  | inr long ↦
      let enough : hs ≤ length s = ground arith in
      rw long (
        cut-fuel (split_on f hs) (split_on f' hs) (header_of hs (take hs s)) s (drop hs s) (λ t lt.
          split_on-fuel f f' hs t positive (omega (arith, length-drop hs s))
            (omega (arith, length-drop hs s))))
]

-- What is made of a stream when more bytes come.
abbrev pub resume : ℕ → List (List ℕ) × Option (List ℕ) → List ℕ → List (List ℕ) × Option (List ℕ)
resume hs (packets, none) more = (packets, none)
resume hs (packets, some tail) more =
    (packets ++ (split hs (tail ++ more)).0, (split hs (tail ++ more)).1)

resume-first :
    (hs : ℕ) (p : List ℕ) (r : List (List ℕ) × Option (List ℕ)) (more : List ℕ)
    → first p (resume hs r more) ≡ resume hs (first p r) more
resume-first hs p (packets, none) more = refl
resume-first hs p (packets, some tail) more = refl

module _ (hs : ℕ) (positive : 0 < hs) (more : List ℕ) where
  cut-append :
      (f f' : List ℕ → List (List ℕ) × Option (List ℕ)) (h : ℤ) (s rest : List ℕ)
      → split hs (s ++ more) ≡ cut f' h (s ++ more) (rest ++ more)
      → ((t : List ℕ) → length t ≤ length rest → f' (t ++ more) ≡ resume hs (f t) more)
      → cut f' h (s ++ more) (rest ++ more) ≡ resume hs (cut f h s rest) more
  cut-append f f' (negsuc m) s rest e same = sym e
  cut-append f f' (pos n) s rest e same = elim (dec_lt (length rest) n) [
    | yes few ↦ let a : ltb (length rest) n ≡ true = ground arith in rw a (sym e)
    | no enough ↦
        let a : ltb (length rest) n ≡ false = ground arith in
        let b : ltb (length (rest ++ more)) n ≡ false =
          let t = length-append rest more in ground arith in
        elim (Bool-cases (n == 0)) [
          | inl z ↦ rw (a, b, z) (same rest (omega arith))
          | inr nz ↦ elim (Bool-cases (leb max_packet n)) [
            | inl big ↦ rw (a, b, nz, big) refl
            | inr small ↦
                rw (a, b, nz, small)
                  (ap₂ first (take-append_within n rest more (omega arith)) (
                      ap f' (drop-append_within n rest more (omega arith))
                      ∙ same (drop n rest) (omega (arith, length-drop n rest)))
                    ∙ resume-first hs (take n rest) (f (drop n rest)) more)
          ]
        ]
  ]

  -- One round, when the header is there.
  split_on-long :
      (f : ℕ) (s : List ℕ)
      → hs ≤ length s
      → split_on (suc f) hs s ≡ cut (split_on f hs) (header_of hs (take hs s)) s (drop hs s)
  unfolding split_on
  split_on-long f s le = let a : ltb (length s) hs ≡ false = ground arith in rw a refl

  split_on-short : (f : ℕ) (s : List ℕ) → length s < hs → split_on f hs s ≡ ([], some s)
  unfolding split_on
  split_on-short zero s lt = refl
  split_on-short (suc f) s lt = let a : ltb (length s) hs ≡ true = ground arith in rw a refl

  short-append :
      (f f' : ℕ) (s : List ℕ)
      → length s < hs
      → length s + length more ≤ f'
      → split_on f' hs (s ++ more) ≡ resume hs (split_on f hs s) more
  short-append f f' s short le =
      split_on-fuel f' (length (s ++ more)) hs (s ++ more) positive
        (omega (arith, length-append s more)) (omega arith)
      ∙ ap (λ r. resume hs r more) (sym (split_on-short f s short))

  split_on-append :
      (f f' : ℕ) (s : List ℕ)
      → length s ≤ f
      → length s + length more ≤ f'
      → split_on f' hs (s ++ more) ≡ resume hs (split_on f hs s) more
  split_on-append zero f' s le le' = short-append zero f' s (omega arith) le'
  split_on-append (suc f) zero s le le' = short-append (suc f) zero s (omega arith) le'
  split_on-append (suc f) (suc f') s le le' = elim (dec_lt (length s) hs) [
    | yes short ↦ short-append (suc f) (suc f') s short le'
    | no long ↦
        let t = length-append s more in
        let front = take-append_within hs s more (omega arith) in
        let back = drop-append_within hs s more (omega arith) in
        let unfolded : split_on (suc f') hs (s ++ more)
            ≡ cut (split_on f' hs) (header_of hs (take hs s)) (s ++ more) (drop hs s ++ more) =
          split_on-long f' (s ++ more) (omega arith)
          ∙ ap₂ (λ a b. cut (split_on f' hs) (header_of hs a) (s ++ more) b) front back in
        unfolded
        ∙ cut-append (split_on f hs) (split_on f' hs) (header_of hs (take hs s)) s (drop hs s)
            (split_on-fuel (length (s ++ more)) (suc f') hs (s ++ more) positive (omega arith)
                (omega arith)
              ∙ unfolded)
            (λ t lt.
              split_on-append f f' t (omega (arith, length-drop hs s))
                (omega (arith, length-drop hs s)))
        ∙ ap (λ r. resume hs r more) (sym (split_on-long f s (omega arith)))
  ]

  -- A stream in two parts.
  pub split-append : (s : List ℕ) → split hs (s ++ more) ≡ resume hs (split hs s) more
  split-append s =
      split_on-append (length s) (length (s ++ more)) s (omega arith)
        (omega (arith, length-append s more))

no_more : (xs ys : List (List ℕ)) → xs ≡ xs ++ ys → ys ≡ []
no_more xs [] e = refl
no_more xs (y ∷ ys) e = absurd (omega (arith, ap length e, length-append xs (y ∷ ys)))

-- What is kept of a stream holds no whole packet.
pub split-rest :
    (hs : ℕ) (s t : List ℕ) (packets : List (List ℕ))
    → 0 < hs
    → split hs s ≡ (packets, some t)
    → split hs t ≡ ([], some t)
split-rest hs s t packets positive e =
    let same : (packets, some t) ≡ (packets ++ (split hs (t ++ [])).0, (split hs (t ++ [])).1) =
      sym e
      ∙ ap (split hs) (sym (append-nil s))
      ∙ split-append hs positive [] s
      ∙ ap (λ r. resume hs r []) e in
    ap (split hs) (sym (append-nil t))
    ∙ ap₂ (λ a b. (a, b)) (no_more packets (split hs (t ++ [])).0 (ap (λ r. r.0) same))
        (sym (ap (λ r. r.1) same))
