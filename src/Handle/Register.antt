-- ===== src/Handle/Register.antt =====
-- `skynet_handle_register` and `skynet_handle_grab`: a fresh handle, which leads to its context.
use skynet_server.Common.{
  ℕ, ◌+◌, ◌-◌, ◌*◌, ◌%◌, ◌^◌, ◌≤◌, ◌<◌, ◌≡◌, ◌≢◌, none, some, arith, length, ==_iff, Option-cases,
  dec_lt, inl, inr, Bool-cases, ◌==◌, ◌∙◌, ap, subst, mod-add-mod, mod-eq_of_lt, mod-lt,
  mod-eq-sub-mod, if◌then◌else◌, mod-mod_of_dvd, dvd-mul_right, sym, add-zero, add-mod_right,
  length-set, set, eq_refl, ==_of_ne, get_or-set_self, get_or-set_ne, ℕ_discrete,
}
use skynet_server.Handle.{Storage, slot_at, hash, scan, grab, take_slot, handle_mask, bit_or}
use skynet_server.Handle.Slots.{IsValid, hash-mod, scan-none, size_pos}
use skynet_server.Handle.Rehash.{Grown}
use skynet_server.Common.Options.{option_ext, some_of}
use skynet_server.Common.Bits.{or-below, mod-above}

-- A context is found by a handle exactly when it is in the handle's slot and has the handle.
pub grab-some :
    (handle_of : ℕ → ℕ) (s : Storage) (g c : ℕ)
    → grab handle_of s g ≡ some c
    → (slot_at s (hash s g) ≡ some c) × (handle_of c ≡ g)
unfolding grab
grab-some handle_of s g c e = elim (Option-cases (slot_at s (hash s g))) [
  | inl n ↦ cc (rw n at e)
  | inr (d, f) ↦ elim (Bool-cases (handle_of d == g)) [
    | inl t ↦
        let same : d ≡ c = cc (rw (f, t) at e) in
        (f ∙ ap some same, subst (λ t. handle_of t ≡ g) same ((==_iff _ _).0 t))
    | inr o ↦ cc (rw (f, o) at e)
  ]
]

pub grab_of :
    (handle_of : ℕ → ℕ) (s : Storage) (g c : ℕ)
    → slot_at s (hash s g) ≡ some c
    → handle_of c ≡ g
    → grab handle_of s g ≡ some c
unfolding grab
grab_of handle_of s g c e h = rw (e, (==_iff (handle_of c) g).1 h)

-- Doubling the table changes no lookup.
pub grab-grow :
    (handle_of : ℕ → ℕ) (s s' : Storage) (v : IsValid handle_of s) (grown : Grown handle_of s v s')
    (g : ℕ)
    → grab handle_of s' g ≡ grab handle_of s g
grab-grow handle_of s s' v grown g =
    option_ext (grab handle_of s' g) (grab handle_of s g)
      (λ c e.
        let (at_slot, h) = grab-some handle_of s' g c e in
        let (_, from) = grown.origin (hash s' g) c at_slot in
        grab_of handle_of s g c (rw (hash-mod s v.bits g v.size, ← h) from) h)
      (λ c e.
        let (at_slot, h) = grab-some handle_of s g c e in
        let to = grown.there (hash s g) c at_slot in
        grab_of handle_of s' g c
          (rw (hash-mod s' grown.valid.bits g grown.valid.size, grown.twice, ← h) to) h)

-- Two handles half a table apart have different slots in the table of twice the size.
halves_apart : (m h : ℕ) → 0 < m → (h + m) % (m * 2) ≢ h % (m * 2)
halves_apart m h p e = elim (dec_lt (h % (m * 2)) m) [
  | yes low ↦
      omega (
        arith,
        mod-add-mod h (m * 2) m,
        mod-eq_of_lt {n = h % (m * 2) + m} {m = m * 2} (omega arith),
      )
  | no high ↦ omega (
    arith,
    mod-add-mod h (m * 2) m,
    mod-lt h {m = m * 2} (omega arith),
    mod-eq-sub-mod {n = h % (m * 2) + m} {m = m * 2} (omega arith),
    mod-eq_of_lt {n = h % (m * 2) + m - m * 2} {m = m * 2}
        (omega (arith, mod-lt h {m = m * 2} (omega arith))),
  )
]

-- With no wrap round, a table that has doubled is not full.
pub scan-Grown :
    (handle_of : ℕ → ℕ) (s s' : Storage) (v : IsValid handle_of s) (grown : Grown handle_of s v s')
    → s.handle_index + s.slot_size * 2 ≤ 2 ^ 24
    → (h : ℕ) × (scan s'.slot_size s' s'.handle_index ≡ some h)
scan-Grown handle_of s s' v grown room =
    elim (Option-cases (scan s'.slot_size s' s'.handle_index)) [
      | inr found ↦ found
      | inl full ↦
          let (c, here, at_c) = owner full 0 (omega (arith, size_pos s v.bits v.size)) in
          let (d, there, at_d) = owner full s.slot_size (omega (arith, size_pos s v.bits v.size)) in
          let same : c ≡ d = cc (at_c, at_d, ap (λ t. slot_at s t) (once c d here there)) in
          absurd (
            halves_apart s.slot_size s.handle_index (size_pos s v.bits v.size) (
              sym there
              ∙ ap (λ t. handle_of t % (s.slot_size * 2)) (sym same)
              ∙ here
              ∙ ap (λ t. t % (s.slot_size * 2)) (add-zero s.handle_index)))
    ]
  where
    owner :
        scan s'.slot_size s' s'.handle_index ≡ none
        → (j : ℕ) → j < s.slot_size * 2
        → (c : ℕ) × (handle_of c % (s.slot_size * 2) ≡ (s.handle_index + j) % (s.slot_size * 2))
          × (slot_at s (handle_of c % s.slot_size) ≡ some c)
    owner full j lt =
        let (c, taken) = some_of (slot_at s' (hash s' (s'.handle_index + j))) (
          scan-none s'.slot_size s' s'.handle_index j (omega (arith, grown.twice, grown.index)) full
            (omega (arith, grown.twice))) in
        let (at_j, from) = grown.origin (hash s' (s'.handle_index + j)) c taken in
        (
          c,
          at_j
              ∙ hash-mod s' grown.valid.bits (s'.handle_index + j) grown.valid.size
              ∙ ap (λ t. (s'.handle_index + j) % t) grown.twice
              ∙ ap (λ t. (t + j) % (s.slot_size * 2)) grown.index,
          from,
        )

    low : (x : ℕ) → x % (s.slot_size * 2) % s.slot_size ≡ x % s.slot_size
    low x = mod-mod_of_dvd s.slot_size x (dvd-mul_right s.slot_size 2)

    once :
        (c d : ℕ)
        → handle_of c % (s.slot_size * 2) ≡ (s.handle_index + 0) % (s.slot_size * 2)
        → handle_of d % (s.slot_size * 2) ≡ (s.handle_index + s.slot_size) % (s.slot_size * 2)
        → handle_of c % s.slot_size ≡ handle_of d % s.slot_size
    once c d a b =
        sym (low (handle_of c))
        ∙ ap (λ t. t % s.slot_size) a
        ∙ low (s.handle_index + 0)
        ∙ ap (λ t. t % s.slot_size) (add-zero s.handle_index)
        ∙ sym (add-mod_right s.handle_index s.slot_size)
        ∙ sym (low (s.handle_index + s.slot_size))
        ∙ ap (λ t. t % s.slot_size) (sym b)
        ∙ low (handle_of d)

-- The memory after the caller has stored its handle in its context.
abbrev pub assign : (ℕ → ℕ) → ℕ → ℕ → ℕ → ℕ
assign handle_of ctx h c = if c == ctx then h else handle_of c

-- What a registration promises, of the table before and after.
pub record Registers (handle_of : ℕ → ℕ) (ctx : ℕ) (s : Storage) (h : ℕ) (s' : Storage)
    : Type 0 where
  pub valid : IsValid (assign handle_of ctx h) s'
  pub fresh : grab handle_of s h ≡ none
  pub leads : grab (assign handle_of ctx h) s' h ≡ some ctx
  pub others : (g : ℕ) → g ≢ h → grab (assign handle_of ctx h) s' g ≡ grab handle_of s g

-- The slot that a scan found is taken.
pub take_slot-Registers :
    (handle_of : ℕ → ℕ) (ctx : ℕ) (s : Storage) (r : ℕ)
    → IsValid handle_of s
    → ((i : ℕ) → slot_at s i ≢ some ctx)
    → (0 < r) × (r ≤ handle_mask) × (slot_at s (hash s r) ≡ none)
    → let (h, s') = take_slot ctx r s in Registers handle_of ctx s h s'
take_slot-Registers handle_of ctx s r v new (pos, fits, free) = record {
  valid = record {
    bits = v.bits;
    network = v.network;
    small = v.small;
    size = v.size;
    cells = length-set s.slot (hash s r) (some ctx) ∙ v.cells;
    placed = λ i c e. elim (ℕ_discrete (hash s r) i) [
      | yes here ↦
          subst (λ t. assign handle_of ctx h t % s.slot_size ≡ i) (taker i c here e)
            (ap (λ t. t % s.slot_size) (assign_self)
              ∙ slot_of_h
              ∙ sym (hash-mod s v.bits r v.size)
              ∙ here)
      | no there ↦
          let old = kept i c there e in
          ap (λ t. t % s.slot_size) (assign_other i c old) ∙ v.placed i c old
    ];
    network_byte = v.network_byte;
    harbor = v.harbor;
    index_pos = omega arith;
    index_le = omega arith;
  };
  fresh = elim (Option-cases (grab handle_of s h)) [
    | inl n ↦ n
    | inr (c, e) ↦ cc (ap (slot_at s) hash-h, (grab-some handle_of s h c e).0, free)
  ];
  leads =
      grab_of (assign handle_of ctx h) s' h ctx
        (ap (slot_at s') hash-h ∙ get_or-set_self s.slot (hash s r) (some ctx) none inside)
        assign_self;
  others = λ g ne.
      option_ext (grab (assign handle_of ctx h) s' g) (grab handle_of s g)
        (λ c e.
          let (at_slot, is_g) = grab-some (assign handle_of ctx h) s' g c e in
          elim (ℕ_discrete (hash s r) (hash s g)) [
            | yes here ↦ absurd (
                ne (
                  sym is_g
                  ∙ ap (assign handle_of ctx h) (sym (taker (hash s g) c here at_slot))
                  ∙ assign_self))
            | no there ↦
                let old = kept (hash s g) c there at_slot in
                grab_of handle_of s g c old (sym (assign_other (hash s g) c old) ∙ is_g)
          ])
        (λ c e.
          let (at_slot, is_g) = grab-some handle_of s g c e in
          grab_of (assign handle_of ctx h) s' g c
            (get_or-set_ne s.slot (hash s r) (hash s g) (some ctx) none
                (λ here. cc (ap (slot_at s) here, free, at_slot))
              ∙ at_slot)
            (assign_other (hash s g) c at_slot ∙ is_g));
}
  where
    h : ℕ
    h = bit_or r s.harbor

    value : h ≡ v.network * 2 ^ 24 + r
    value = ap (bit_or r) v.harbor ∙ or-below 24 v.network r (omega arith)

    -- The network's byte does not reach the slot.
    slot_of_h : h % s.slot_size ≡ r % s.slot_size
    slot_of_h =
        ap (λ t. t % s.slot_size) value
        ∙ subst (λ t. (v.network * 2 ^ 24 + r) % t ≡ r % t) (sym v.size)
            (mod-above v.bits 24 v.network r v.small)

    hash-h : hash s h ≡ hash s r
    hash-h = hash-mod s v.bits h v.size ∙ slot_of_h ∙ sym (hash-mod s v.bits r v.size)

    s' : Storage
    s' = record s { slot = set s.slot (hash s r) (some ctx); handle_index = r + 1 }

    inside : hash s r < length s.slot
    inside = omega (
      arith,
      hash-mod s v.bits r v.size,
      v.cells,
      mod-lt r {m = s.slot_size} (size_pos s v.bits v.size),
    )

    assign_self : assign handle_of ctx h ctx ≡ h
    assign_self = rw (eq_refl ctx)

    assign_other : (i c : ℕ) → slot_at s i ≡ some c → assign handle_of ctx h c ≡ handle_of c
    assign_other i c e = rw (==_of_ne {a = c} {b = ctx} (λ same. new i (e ∙ ap some same)))

    taker : (i c : ℕ) → hash s r ≡ i → slot_at s' i ≡ some c → ctx ≡ c
    taker i c here e =
        cc (get_or-set_self s.slot (hash s r) (some ctx) none inside, ap (slot_at s') here, e)

    kept : (i c : ℕ) → hash s r ≢ i → slot_at s' i ≡ some c → slot_at s i ≡ some c
    kept i c there e = sym (get_or-set_ne s.slot (hash s r) i (some ctx) none there) ∙ e
