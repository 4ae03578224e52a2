-- ===== src/Seri/Blocks.antt =====
-- skynet/lualib-src/lua-seri.c: the chain of blocks that `wb_push` writes and `seri` copies.
use skynet_server.Common.{
  List, [], arith, length, ℕ, ◌++◌, ◌≡◌, Bool-cases, Option, append-nil, suc, sym, ◌+◌, ◌<◌, ◌∙◌,
  ◌∷◌, ◌≤◌, ap, append_assoc, if◌then◌else◌, length-append, refl, some, ◌-◌, ◌==◌, drop, inl, none,
  take, ==_iff, leb, false, inr, zero, length-take, leb→le, length-drop, take-append-drop,
}

abbrev pub block_size : ℕ
block_size = 128

-- `struct write_block`: `blocks` are those before the current one, and `current` is what the
-- current one holds, so that `ptr` is its length.
pub record WriteBlock : Type 0 where
  pub blocks : List (List ℕ)
  pub current : List ℕ
  pub len : ℕ

-- `wb_init`
unfoldable pub wb_init : WriteBlock
wb_init = record { blocks = []; current = []; len = 0 }

-- A new block behind the current one.
abbrev pub next_block : WriteBlock → WriteBlock
next_block wb = record wb { blocks = wb.blocks ++ wb.current ∷ []; current = [] }

-- `memcpy` to the current block.
abbrev pub copy : List ℕ → WriteBlock → WriteBlock
copy bytes wb = record wb { current = wb.current ++ bytes; len = wb.len + length bytes }

-- The body of `wb_push`, with the rounds that `goto _again` may take.
unfoldable pub write : ℕ → List ℕ → WriteBlock → WriteBlock
write zero bytes wb = wb
write (suc fuel) bytes wb =
    let room = block_size - length wb.current in
    let rest = write fuel (drop room bytes) (next_block (copy (take room bytes) wb)) in
    if leb (length wb.current + length bytes) block_size then copy bytes wb else rest

unfoldable pub wb_push : List ℕ → WriteBlock → WriteBlock
unfolding write
wb_push bytes wb =
    write (length bytes + 1) bytes (if length wb.current == block_size then next_block wb else wb)

-- The bytes of `n` bytes and then of the rest, when there are any.
abbrev pub copy_then : List ℕ → Option (List ℕ) → Option (List ℕ)
copy_then bytes none = none
copy_then bytes (some rest) = some (bytes ++ rest)

-- The loop of `seri`: `len` bytes from the chain of blocks. `none` is a read through NULL.
unfoldable pub seri : ℕ → List (List ℕ) → Option (List ℕ)
seri len [] = if len == 0 then some [] else none
seri len (b ∷ bs) =
    let rest = copy_then (take block_size b) (seri (len - block_size) bs) in
    if len == 0 then some [] else if leb block_size len then rest else some (take len b)

abbrev pub concat : List (List ℕ) → List ℕ
concat [] = []
concat (b ∷ bs) = b ++ concat bs

-- What has been pushed.
abbrev pub contents : WriteBlock → List ℕ
contents wb = concat wb.blocks ++ wb.current

abbrev pub AllFull : List (List ℕ) → Type 0
AllFull [] = Unit {0}
AllFull (b ∷ bs) = (length b ≡ block_size) × AllFull bs

pub record IsFull (wb : WriteBlock) : Type 0 where
  pub full : AllFull wb.blocks
  pub within : length wb.current ≤ block_size
  pub counted : wb.len ≡ length (contents wb)

concat-append : (bs : List (List ℕ)) (b : List ℕ) → concat (bs ++ b ∷ []) ≡ concat bs ++ b
concat-append [] b = append-nil b
concat-append (a ∷ bs) b =
    ap (λ r. a ++ r) (concat-append bs b) ∙ sym (append_assoc a (concat bs) b)

AllFull-append :
    (bs : List (List ℕ)) (b : List ℕ) → AllFull bs → length b ≡ block_size → AllFull (bs ++ b ∷ [])
AllFull-append [] b h e = (e, tt)
AllFull-append (a ∷ bs) b (f, h) e = (f, AllFull-append bs b h e)

pub wb_init-IsFull : IsFull wb_init
unfolding wb_init
wb_init-IsFull = record { full = tt; within = omega arith; counted = refl }

next_block-contents : (wb : WriteBlock) → contents (next_block wb) ≡ contents wb
next_block-contents wb =
    append-nil (concat (wb.blocks ++ wb.current ∷ [])) ∙ concat-append wb.blocks wb.current

next_block-IsFull :
    (wb : WriteBlock) → IsFull wb → length wb.current ≡ block_size → IsFull (next_block wb)
next_block-IsFull wb v e = record {
  full = AllFull-append wb.blocks wb.current v.full e;
  within = omega arith;
  counted = v.counted ∙ ap length (sym (next_block-contents wb));
}

copy-contents : (bytes : List ℕ) (wb : WriteBlock) → contents (copy bytes wb) ≡ contents wb ++ bytes
copy-contents bytes wb = sym (append_assoc (concat wb.blocks) wb.current bytes)

copy-IsFull :
    (bytes : List ℕ) (wb : WriteBlock)
    → IsFull wb
    → length wb.current + length bytes ≤ block_size
    → IsFull (copy bytes wb)
copy-IsFull bytes wb v le = record {
  full = v.full;
  within = omega (arith, length-append wb.current bytes);
  counted =
      omega
        (arith, v.counted, ap length (copy-contents bytes wb), length-append (contents wb) bytes);
}

write-contents :
    (fuel : ℕ) (bytes : List ℕ) (wb : WriteBlock)
    → IsFull wb
    → length wb.current < block_size
    → length bytes < fuel
    → IsFull (write fuel bytes wb) × (contents (write fuel bytes wb) ≡ contents wb ++ bytes)
unfolding write
write-contents zero bytes wb v room enough = absurd (omega arith)
write-contents (suc fuel) bytes wb v room enough =
    elim (Bool-cases (leb (length wb.current + length bytes) block_size)) [
      | inl fits ↦ rw fits (copy-IsFull bytes wb v (leb→le _ _ fits), copy-contents bytes wb)
      | inr over ↦
          let long : block_size < length wb.current + length bytes = ground arith in
          let (v', e) =
            write-contents fuel (drop n bytes) (next_block part) (part-IsFull over) (omega arith)
              (omega (arith, length-drop n bytes)) in
          rw over (
            v',
            e
                ∙ ap (λ t. t ++ drop n bytes)
                    (next_block-contents part ∙ copy-contents (take n bytes) wb)
                ∙ append_assoc (contents wb) (take n bytes) (drop n bytes)
                ∙ ap (λ t. contents wb ++ t) (take-append-drop n bytes),
          )
    ]
  where
    n : ℕ
    n = block_size - length wb.current

    part : WriteBlock
    part = copy (take n bytes) wb

    part-IsFull :
        leb (length wb.current + length bytes) block_size ≡ false → IsFull (next_block part)
    part-IsFull over =
        let long : block_size < length wb.current + length bytes = ground arith in
        let m = length-take n bytes in
        next_block-IsFull part (copy-IsFull (take n bytes) wb v (omega arith))
          (omega (arith, length-append wb.current (take n bytes)))

-- `wb_push` appends its bytes, in as many blocks as they take.
pub wb_push-contents :
    (bytes : List ℕ) (wb : WriteBlock)
    → IsFull wb
    → IsFull (wb_push bytes wb) × (contents (wb_push bytes wb) ≡ contents wb ++ bytes)
unfolding wb_push
wb_push-contents bytes wb v = elim (Bool-cases (length wb.current == block_size)) [
  | inl full ↦
      let e = (==_iff _ _).0 full in
      let (v', f) =
        write-contents (length bytes + 1) bytes (next_block wb) (next_block-IsFull wb v e)
          (omega arith) (omega arith) in
      rw full (v', f ∙ ap (λ t. t ++ bytes) (next_block-contents wb))
  | inr room ↦
      let lt : length wb.current < block_size = let w = v.within in ground arith in
      rw room (write-contents (length bytes + 1) bytes wb v lt (omega arith))
]
