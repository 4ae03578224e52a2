-- ===== src/Seri/Chain.antt =====
-- skynet/lualib-src/lua-seri.c: `seri` copies what `wb_push` wrote.
use skynet_server.Common.{
  List, [], arith, length, ℕ, ◌++◌, ◌≡◌, append-nil, sym, ◌<◌, ◌∙◌, ◌∷◌, ◌≤◌, ap, append_assoc,
  length-append, refl, some, ◌-◌, ◌==◌, take, leb, false, true, ℕ_discrete, ap₂,
}
use skynet_server.Common.Slices.{take-append_within, take_whole}
use skynet_server.Seri.Blocks.{
  WriteBlock, seri, contents, IsFull, AllFull, concat, copy_then, block_size,
}

-- The rounds of `seri`.
seri_none : (bs : List (List ℕ)) → seri 0 bs ≡ some []
unfolding seri
seri_none [] = refl
seri_none (b ∷ bs) = refl

seri_part :
    (len : ℕ) (b : List ℕ) (bs : List (List ℕ))
    → 0 < len
    → len < block_size
    → seri len (b ∷ bs) ≡ some (take len b)
unfolding seri
seri_part len b bs positive lt =
    let e : (len == 0) ≡ false = ground arith in
    let f : leb block_size len ≡ false = ground arith in rw (e, f) refl

seri_block :
    (len : ℕ) (b : List ℕ) (bs : List (List ℕ))
    → block_size ≤ len
    → seri len (b ∷ bs) ≡ copy_then (take block_size b) (seri (len - block_size) bs)
unfolding seri
seri_block len b bs le =
    let e : (len == 0) ≡ false = ground arith in
    let f : leb block_size len ≡ true = ground arith in rw (e, f) refl

take_first : (n : ℕ) (xs ys : List ℕ) → n ≡ length xs → take n (xs ++ ys) ≡ xs
take_first n xs ys e =
    ap (λ k. take k (xs ++ ys)) e
    ∙ take-append_within (length xs) xs ys (omega arith)
    ∙ take_whole xs

nil_of_length : (xs : List ℕ) → length xs ≡ 0 → [] ≡ xs
nil_of_length [] e = refl
nil_of_length (x ∷ xs) e = absurd (omega arith)

seri_chain :
    (bs : List (List ℕ)) (last junk : List ℕ)
    → AllFull bs
    → length last ≤ block_size
    → seri (length (concat bs ++ last)) (bs ++ (last ++ junk) ∷ []) ≡ some (concat bs ++ last)
seri_chain [] last junk h le = elim (ℕ_discrete (length last) 0) [
  | yes e ↦
      ap (λ n. seri n ((last ++ junk) ∷ [])) e
      ∙ seri_none ((last ++ junk) ∷ [])
      ∙ ap some (nil_of_length last e)
  | no ne ↦ elim (ℕ_discrete (length last) block_size) [
    | no lt ↦
        seri_part (length last) (last ++ junk) [] (omega arith) (omega arith)
        ∙ ap some (take_first (length last) last junk refl)
    | yes e ↦
        seri_block (length last) (last ++ junk) [] (omega arith)
        ∙ ap₂ copy_then (take_first block_size last junk (sym e))
            (ap (λ n. seri (n - block_size) []) e ∙ seri_none [])
        ∙ ap some (append-nil last)
  ]
]
seri_chain (b ∷ bs) last junk (e, h) le =
    let sum = length-append b (concat bs ++ last) in
    let whole = append_assoc b (concat bs) last in
    ap (λ n. seri n (b ∷ (bs ++ (last ++ junk) ∷ []))) (ap length whole)
    ∙ seri_block (length (b ++ (concat bs ++ last))) b (bs ++ (last ++ junk) ∷ []) (omega arith)
    ∙ ap₂ copy_then (ap (λ n. take n b) (sym e) ∙ take_whole b) (
        ap (λ n. seri n (bs ++ (last ++ junk) ∷ []))
          (let k : length (b ++ (concat bs ++ last)) - block_size ≡ length (concat bs ++ last) =
              omega arith in
            k)
        ∙ seri_chain bs last junk h le)
    ∙ ap some (sym whole)

-- `seri` copies exactly what has been pushed, whatever the unused bytes of the last block hold.
pub seri-contents :
    (wb : WriteBlock) (junk : List ℕ)
    → IsFull wb
    → seri wb.len (wb.blocks ++ (wb.current ++ junk) ∷ []) ≡ some (contents wb)
seri-contents wb junk v =
    ap (λ n. seri n (wb.blocks ++ (wb.current ++ junk) ∷ [])) v.counted
    ∙ seri_chain wb.blocks wb.current junk v.full v.within
