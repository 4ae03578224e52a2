-- ===== src/Handle/Slots.antt =====
-- The table of services: its invariant, and what a scan of it finds.
use skynet_server.Common.{
  ℕ, zero, suc, ◌+◌, ◌-◌, ◌*◌, ◌%◌, ◌^◌, ◌≤◌, ◌<◌, ◌≡◌, none, some, arith, length, ap, false, ◌∙◌,
  sym, Bool-cases, add-zero, inl, subst, inr, one-le-pow,
}
use skynet_server.Handle.{Storage, slot_at, hash, scan, handle_mask, bit_and, wrap}
use skynet_server.Common.Options.{is_none, none_of}
use skynet_server.Common.Bits.{and-mask}

-- The number of slots is a power of two, and a context is in the slot of its handle.
pub record IsValid (handle_of : ℕ → ℕ) (s : Storage) : Type 0 where
  pub bits : ℕ
  pub network : ℕ
  pub small : bits ≤ 24
  pub size : s.slot_size ≡ 2 ^ bits
  pub cells : length s.slot ≡ s.slot_size
  pub placed : (i c : ℕ) → slot_at s i ≡ some c → handle_of c % s.slot_size ≡ i
  pub network_byte : network < 256
  pub harbor : s.harbor ≡ network * 2 ^ 24
  pub index_pos : 0 < s.handle_index
  pub index_le : s.handle_index ≤ 2 ^ 24

pub hash-mod : (s : Storage) (b h : ℕ) → s.slot_size ≡ 2 ^ b → hash s h ≡ h % s.slot_size
hash-mod s b h e = ap (λ t. bit_and h (t - 1)) e ∙ and-mask b h ∙ ap (λ t. h % t) (sym e)

pub size_pos : (s : Storage) (b : ℕ) → s.slot_size ≡ 2 ^ b → 0 < s.slot_size
size_pos s b e = rw e (one-le-pow b 2 (omega arith))

-- A scan returns a handle that is not reserved, fits its 24 bits, and whose slot is free.
pub scan-free :
    (n : ℕ) (s : Storage) (h : ℕ) {r : ℕ}
    → 0 < h
    → scan n s h ≡ some r
    → (0 < r) × (r ≤ handle_mask) × (slot_at s (hash s r) ≡ none)
unfolding scan
scan-free zero s h p e = cc
scan-free (suc n) s h {r} p e = elim (Bool-cases (is_none (slot_at s (hash s (wrap h))))) [
  | inl free ↦
      let same : wrap h ≡ r = cc (rw free at e) in
      subst (λ t. (0 < t) × (t ≤ handle_mask) × (slot_at s (hash s t) ≡ none)) same
        (ground arith, ground arith, none_of free)
  | inr taken ↦ scan-free n s (wrap h + 1) (omega arith) (rw taken at e)
]

-- A scan that fails has met no free slot, while the handles do not wrap round.
pub scan-none :
    (n : ℕ) (s : Storage) (h j : ℕ)
    → h + n ≤ 2 ^ 24
    → scan n s h ≡ none
    → j < n
    → is_none (slot_at s (hash s (h + j))) ≡ false
unfolding scan
scan-none zero s h j b e lt = absurd (omega arith)
scan-none (suc n) s h j b e lt = elim (Bool-cases (is_none (slot_at s (hash s (wrap h))))) [
  | inl free ↦ cc (rw free at e)
  | inr taken ↦
      scan-none_step j (subst (λ t. is_none (slot_at s (hash s t)) ≡ false) stay taken)
        (scan-none n s (h + 1) (j - 1) (omega arith)
          (subst (λ t. scan n s (t + 1) ≡ none) stay (rw taken at e)))
        lt
]
  where
    stay : wrap h ≡ h
    stay = ground arith

    scan-none_step :
        (j : ℕ)
        → is_none (slot_at s (hash s h)) ≡ false
        → (j - 1 < n → is_none (slot_at s (hash s (h + 1 + (j - 1)))) ≡ false)
        → j < suc n
        → is_none (slot_at s (hash s (h + j))) ≡ false
    scan-none_step zero here later lt = rw (add-zero h) here
    scan-none_step (suc j) here later lt =
        subst (λ t. is_none (slot_at s (hash s t)) ≡ false) (omega arith) (later (omega arith))
