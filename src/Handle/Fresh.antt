-- ===== src/Handle/Fresh.antt =====
-- `skynet_handle_register` as a whole.
use skynet_server.Common.{
  ℕ, suc, ◌+◌, ◌-◌, ◌*◌, ◌%◌, ◌^◌, ◌≤◌, ◌<◌, ◌≡◌, ◌≢◌, none, some, arith, Option-cases, dec_le,
  false, inr, sym, inl, mod-add-mod, subst, ◌∙◌, ap, mod-eq_of_lt, mod-lt, add-mod_right,
}
use skynet_server.Handle.{Storage, slot_at, scan, grow, register, take_slot}
use skynet_server.Handle.Slots.{IsValid, scan-free, scan-none, hash-mod}
use skynet_server.Handle.Register.{Registers, take_slot-Registers, scan-Grown, grab-grow}
use skynet_server.Common.Options.{is_none, ◌>>=◌}
use skynet_server.Handle.Rehash.{grow-Grown}

-- As many handles in a row as there are slots meet every slot.
cover : (h m k : ℕ) → k < m → (j : ℕ) × (j < m) × ((h + j) % m ≡ k)
cover h m k lt = elim (dec_le (h % m) k) [
  | yes le ↦ (
    k - h % m,
    omega arith,
    sym (mod-add-mod h m (k - h % m)) ∙ ap (λ t. t % m) (omega arith) ∙ mod-eq_of_lt lt,
  )
  | no gt ↦ (
    k + m - h % m,
    omega arith,
    sym (mod-add-mod h m (k + m - h % m))
        ∙ ap (λ t. t % m)
            (let e : h % m + (k + m - h % m) ≡ k + m =
                omega (arith, mod-lt h {m = m} (omega arith)) in
              e)
        ∙ add-mod_right k m
        ∙ mod-eq_of_lt lt,
  )
]

full_of_scan :
    (handle_of : ℕ → ℕ) (s : Storage)
    → IsValid handle_of s
    → s.handle_index + s.slot_size ≤ 2 ^ 24
    → scan s.slot_size s s.handle_index ≡ none
    → (k : ℕ) → k < s.slot_size
    → is_none (slot_at s k) ≡ false
full_of_scan handle_of s v room e k lt =
    let (j, below, at_k) = cover s.handle_index s.slot_size k lt in
    subst (λ t. is_none (slot_at s t) ≡ false)
      (hash-mod s v.bits (s.handle_index + j) v.size ∙ at_k)
      (scan-none s.slot_size s s.handle_index j room e below)

register-found :
    (fuel : ℕ) (handle_of : ℕ → ℕ) (ctx : ℕ) (s : Storage) {r : ℕ}
    → scan s.slot_size s s.handle_index ≡ some r
    → register (suc fuel) handle_of ctx s ≡ some (take_slot ctx r s)
unfolding register
register-found fuel handle_of ctx s e = rw (e, register)

pub register-grow :
    (fuel : ℕ) (handle_of : ℕ → ℕ) (ctx : ℕ) (s : Storage)
    → scan s.slot_size s s.handle_index ≡ none
    → register (suc fuel) handle_of ctx s ≡ (grow handle_of s >>= register fuel handle_of ctx)
unfolding register
register-grow fuel handle_of ctx s e = rw (e, register)

-- `skynet_handle_register` on a valid table, while the handles are not about to wrap round: two
-- rounds are enough, and it returns a handle that led to no context before and leads to the new
-- one now. Every other handle leads where it did, also when the table has doubled, and the table
-- stays valid once the caller has stored the handle in the context.
pub register-Registers :
    (handle_of : ℕ → ℕ) (ctx : ℕ) (s : Storage)
    → IsValid handle_of s
    → ((i : ℕ) → slot_at s i ≢ some ctx)
    → s.handle_index + s.slot_size * 2 ≤ 2 ^ 24
    → (h : ℕ) × (s' : Storage) × (register 2 handle_of ctx s ≡ some (h, s'))
      × Registers handle_of ctx s h s'
register-Registers handle_of ctx s v new room =
    elim (Option-cases (scan s.slot_size s s.handle_index)) [
      | inr (r, e) ↦ (
        (take_slot ctx r s).0,
        (take_slot ctx r s).1,
        register-found 1 handle_of ctx s e,
        take_slot-Registers handle_of ctx s r v new
            (scan-free s.slot_size s s.handle_index v.index_pos e),
      )
      | inl e ↦
          let (s', run, grown) =
            grow-Grown handle_of s v (omega arith) (full_of_scan handle_of s v (omega arith) e) in
          let (r, again) = scan-Grown handle_of s s' v grown room in
          let done =
            take_slot-Registers handle_of ctx s' r grown.valid
              (λ i there. new _ (grown.origin i ctx there).1)
              (scan-free s'.slot_size s' s'.handle_index grown.valid.index_pos again) in
          (
            (take_slot ctx r s').0,
            (take_slot ctx r s').1,
            register-grow 1 handle_of ctx s e
                ∙ ap (λ o. o >>= register 1 handle_of ctx) run
                ∙ register-found 0 handle_of ctx s' again,
            record {
              valid = done.valid;
              fresh = sym (grab-grow handle_of s s' v grown (take_slot ctx r s').0) ∙ done.fresh;
              leads = done.leads;
              others = λ g ne. done.others g ne ∙ grab-grow handle_of s s' v grown g;
            },
          )
    ]
