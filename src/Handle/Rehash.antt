-- ===== src/Handle/Rehash.antt =====
-- The table of twice the size: every context is in the slot of its handle again.
use skynet_server.Common.{
  ℕ, zero, suc, ◌+◌, ◌-◌, ◌*◌, ◌%◌, ◌^◌, ◌≤◌, ◌<◌, ◌≡◌, Option, none, some, arith, length, get_or,
  List, Option-cases, mod-mod_of_dvd, replicate, set, dvd-mul_right, inl, length-replicate,
  length-set, ap, inr, sym, ◌∙◌, get_or-replicate, mod-lt, false, subst, ℕ_discrete,
  get_or-set_self, get_or-set_ne, refl, leb, pow-suc, true, dec_le, pow-le-pow_right,
}
use skynet_server.Handle.{Storage, slot_at, rehash, grow, bit_and, handle_mask}
use skynet_server.Handle.Slots.{IsValid, size_pos}
use skynet_server.Common.Options.{is_none, some_of}
use skynet_server.Common.Bits.{and-mask}

module _ (handle_of : ℕ → ℕ) (s : Storage) (v : IsValid handle_of s) where
  -- The new table after the contexts of the slots below `i` are moved.
  record Moved (i : ℕ) (new : List (Option ℕ)) : Type 0 where
    pub cells : length new ≡ s.slot_size * 2
    pub origin :
        (j c : ℕ)
        → get_or new j none ≡ some c
        → (handle_of c % (s.slot_size * 2) ≡ j)
          × (handle_of c % s.slot_size < i)
          × (slot_at s (handle_of c % s.slot_size) ≡ some c)
    pub there :
        (k c : ℕ)
        → k < i
        → slot_at s k ≡ some c
        → get_or new (handle_of c % (s.slot_size * 2)) none ≡ some c

  Moved-start : Moved 0 (replicate (s.slot_size * 2) none)
  Moved-start = record {
    cells = length-replicate (s.slot_size * 2) none;
    origin = λ j c e. cc (get_or-replicate {A = Option ℕ} (s.slot_size * 2) j none, e);
    there = λ k c lt e. absurd (omega arith);
  }

  low_half : (h : ℕ) → h % (s.slot_size * 2) % s.slot_size ≡ h % s.slot_size
  low_half h = mod-mod_of_dvd s.slot_size h (dvd-mul_right s.slot_size 2)

  -- The cell of the next context is still free.
  free_cell :
      (i c : ℕ) (new : List (Option ℕ))
      → Moved i new
      → slot_at s i ≡ some c
      → get_or new (handle_of c % (s.slot_size * 2)) none ≡ none
  free_cell i c new moved e =
      elim (Option-cases (get_or new (handle_of c % (s.slot_size * 2)) none)) [
        | inl free ↦ free
        | inr (c', there) ↦
            let (same, below, _) = moved.origin (handle_of c % (s.slot_size * 2)) c' there in
            absurd (
              omega (
                arith,
                ap (λ t. t % s.slot_size) same,
                low_half (handle_of c),
                low_half (handle_of c'),
                v.placed i c e,
              ))
      ]

  Moved-next :
      (i c : ℕ) (new : List (Option ℕ))
      → Moved i new
      → slot_at s i ≡ some c
      → Moved (i + 1) (set new (handle_of c % (s.slot_size * 2)) (some c))
  Moved-next i c new moved e = record {
    cells = length-set new (handle_of c % (s.slot_size * 2)) (some c) ∙ moved.cells;
    origin = λ j c' f. elim (ℕ_discrete (handle_of c % (s.slot_size * 2)) j) [
      | yes here ↦
          let same : c ≡ c' =
            cc (
              get_or-set_self new (handle_of c % (s.slot_size * 2)) (some c) none inside,
              here,
              f,
            ) in
          subst
            (λ t.
              (handle_of t % (s.slot_size * 2) ≡ j)
              × (handle_of t % s.slot_size < i + 1)
              × (slot_at s (handle_of t % s.slot_size) ≡ some t))
            same (here, omega (arith, v.placed i c e), rw (v.placed i c e) e)
      | no other ↦
          let (a, b, d) = moved.origin j c' (sym (get_or-set_ne new _ j (some c) none other) ∙ f) in
          (a, omega arith, d)
    ];
    there = λ k c' lt f. elim (ℕ_discrete k i) [
      | yes here ↦
          let same : c ≡ c' = cc (e, f, here) in
          subst
            (λ t.
              get_or (set new (handle_of c % (s.slot_size * 2)) (some c))
                (handle_of t % (s.slot_size * 2)) none
              ≡ some t)
            same (get_or-set_self new _ (some c) none inside)
      | no other ↦
          let old = moved.there k c' (omega arith) f in
          get_or-set_ne new _ _ (some c) none (λ same. cc (free_cell i c new moved e, same, old))
          ∙ old
    ];
  }
    where
      inside : handle_of c % (s.slot_size * 2) < length new
      inside = omega (
        arith,
        moved.cells,
        mod-lt (handle_of c) {m = s.slot_size * 2} (omega (arith, size_pos s v.bits v.size)),
      )

  -- The loop passes its assert and reads no NULL when every slot is taken.
  rehash-Moved :
      (n i : ℕ) (new : List (Option ℕ))
      → i + n ≡ s.slot_size
      → ((k : ℕ) → k < s.slot_size → is_none (slot_at s k) ≡ false)
      → Moved i new
      → (new' : List (Option ℕ)) × (rehash n handle_of s i new ≡ some new') × Moved s.slot_size new'
  unfolding rehash
  rehash-Moved zero i new e full moved = (new, refl, subst (λ t. Moved t new) (omega arith) moved)
  rehash-Moved (suc n) i new e full moved =
      let (c, found) = some_of (slot_at s i) (full i (omega arith)) in
      let (new', run, done) =
        rehash-Moved n (i + 1) (set new (handle_of c % (s.slot_size * 2)) (some c)) (omega arith)
          full (Moved-next i c new moved found) in
      (new', rw (found, double, free_cell i c new moved found) run, done)
    where
      double : (h : ℕ) → bit_and h (s.slot_size * 2 - 1) ≡ h % (s.slot_size * 2)
      double h =
          let e : s.slot_size * 2 ≡ 2 ^ suc v.bits =
            ap (λ t. t * 2) v.size ∙ sym (pow-suc 2 v.bits) in
          ap (λ t. bit_and h (t - 1)) e ∙ and-mask (suc v.bits) h ∙ ap (λ t. h % t) (sym e)

  -- What `grow` leaves alone, and that it moves every context to its slot.
  pub record Grown (s' : Storage) : Type 0 where
    pub valid : IsValid handle_of s'
    pub twice : s'.slot_size ≡ s.slot_size * 2
    pub index : s'.handle_index ≡ s.handle_index
    pub same_harbor : s'.harbor ≡ s.harbor
    pub same_names :
        (s'.name ≡ s.name) × (s'.name_count ≡ s.name_count) × (s'.name_cap ≡ s.name_cap)
    pub origin :
        (j c : ℕ)
        → slot_at s' j ≡ some c
        → (handle_of c % (s.slot_size * 2) ≡ j) × (slot_at s (handle_of c % s.slot_size) ≡ some c)
    pub there :
        (k c : ℕ) → slot_at s k ≡ some c → slot_at s' (handle_of c % (s.slot_size * 2)) ≡ some c

  slot_below : (k c : ℕ) → slot_at s k ≡ some c → k < s.slot_size
  slot_below k c e =
      omega
        (arith, v.placed k c e, mod-lt (handle_of c) {m = s.slot_size} (size_pos s v.bits v.size))

  pub grow-Grown :
      s.slot_size * 2 ≤ 2 ^ 24
      → ((k : ℕ) → k < s.slot_size → is_none (slot_at s k) ≡ false)
      → (s' : Storage) × (grow handle_of s ≡ some s') × Grown s'
  unfolding grow
  grow-Grown fits full =
      let (new, run, moved) =
        rehash-Moved s.slot_size 0 (replicate (s.slot_size * 2) none) (omega arith) full
          Moved-start in
      let s' : Storage = record s { slot = new; slot_size = s.slot_size * 2 } in
      (
        s',
        rw (fits_mask, run),
        record {
          valid = record {
            bits = suc v.bits;
            network = v.network;
            small = elim (dec_le (suc v.bits) 24) [
              | yes le ↦ le
              | no gt ↦ absurd (
                  omega (
                    arith,
                    v.size,
                    fits,
                    pow-le-pow_right {n = 2} (omega arith) {i = 24} {j = v.bits} (omega arith),
                  ))
            ];
            size = ap (λ t. t * 2) v.size ∙ sym (pow-suc 2 v.bits);
            cells = moved.cells;
            placed = λ j c e. (moved.origin j c e).0;
            network_byte = v.network_byte;
            harbor = v.harbor;
            index_pos = v.index_pos;
            index_le = v.index_le;
          };
          twice = refl;
          index = refl;
          same_harbor = refl;
          same_names = (refl, refl, refl);
          origin = λ j c e. let (a, b, d) = moved.origin j c e in (a, d);
          there = λ k c e. moved.there k c (slot_below k c e) e;
        },
      )
    where
      fits_mask : leb (s.slot_size * 2 - 1) handle_mask ≡ true
      fits_mask = ground arith
