-- ===== src/Handle/Retire.antt =====
-- `skynet_handle_retire`: a handle leads nowhere any more, and has no name.
use skynet_server.Common.{
  ℕ, ◌≤◌, ◌<◌, ◌≡◌, refl, List, arith, length, set, take, none, some, ◌∙◌, ◌≢◌, mod-lt,
  get_or-set_self, get_or-set_ne, Option-cases, inl, inr, sym, ℕ_discrete, ap, length-set, subst,
}
use skynet_server.Handle.{Storage, slot_at, hash, grab, retire, drop_names}
use skynet_server.Handle.Names.{HandleName}
use skynet_server.Handle.Compact.{keep, compact_lem}
use skynet_server.Handle.Slots.{IsValid, hash-mod, size_pos}
use skynet_server.Handle.Register.{grab-some, grab_of}
use skynet_server.Common.Options.{option_ext}

-- The names in use.
abbrev pub live_names : Storage → List HandleName
live_names s = take s.name_count s.name

-- The array of names has room for those in use.
pub record HasNames (s : Storage) : Type 0 where
  pub room : length s.name ≡ s.name_cap
  pub within : s.name_count ≤ s.name_cap
  pub cap_pos : 0 < s.name_cap

drop_names_lem :
    (junk : HandleName) (handle : ℕ) (s : Storage)
    → HasNames s
    → let s' = drop_names junk handle s in
      (live_names s' ≡ keep handle (live_names s)) × HasNames s'
drop_names_lem junk handle s v =
    let (kept, room, most) =
      compact_lem junk s.name_count 0 0 handle s.name (omega arith)
        (omega (arith, v.room, v.within)) in
    (
      kept,
      record { room = room ∙ v.room; within = omega (arith, most, v.within); cap_pos = v.cap_pos },
    )

retire-some :
    (junk : HandleName) (handle_of : ℕ → ℕ) (s : Storage) (h c : ℕ)
    → grab handle_of s h ≡ some c
    → retire junk handle_of h s
      ≡ (some c, drop_names junk h (record s { slot = set s.slot (hash s h) none }))
unfolding retire
retire-some junk handle_of s h c e = rw (e, retire)

-- `skynet_handle_retire` of a handle that leads to a context returns the context. Afterwards that
-- handle leads nowhere, every other handle leads where it did, exactly the names that stood for
-- the handle are gone, and the table is still valid.
pub retire_lem :
    (junk : HandleName) (handle_of : ℕ → ℕ) (s : Storage) (h c : ℕ)
    → IsValid handle_of s
    → HasNames s
    → grab handle_of s h ≡ some c
    → let (r, s') = retire junk handle_of h s in
      (r ≡ some c)
      × (grab handle_of s' h ≡ none)
      × ((g : ℕ) → g ≢ h → grab handle_of s' g ≡ grab handle_of s g)
      × (live_names s' ≡ keep h (live_names s))
      × IsValid handle_of s'
      × HasNames s'
retire_lem junk handle_of s h c v names e =
    subst
      (λ p.
        (p.0 ≡ some c)
        × (grab handle_of p.1 h ≡ none)
        × ((g : ℕ) → g ≢ h → grab handle_of p.1 g ≡ grab handle_of s g)
        × (live_names p.1 ≡ keep h (live_names s))
        × IsValid handle_of p.1
        × HasNames p.1)
      (sym (retire-some junk handle_of s h c e))
      (
        refl,
        gone,
        others,
        (drop_names_lem junk h cleared named).0,
        valid,
        (drop_names_lem junk h cleared named).1,
      )
  where
    cleared : Storage
    cleared = record s { slot = set s.slot (hash s h) none }

    s' : Storage
    s' = drop_names junk h cleared

    named : HasNames cleared
    named = record { room = names.room; within = names.within; cap_pos = names.cap_pos }

    inside : hash s h < length s.slot
    inside = omega (
      arith,
      hash-mod s v.bits h v.size,
      v.cells,
      mod-lt h {m = s.slot_size} (size_pos s v.bits v.size),
    )

    empty : slot_at s' (hash s h) ≡ none
    empty = get_or-set_self s.slot (hash s h) none none inside

    kept : (i : ℕ) → hash s h ≢ i → slot_at s' i ≡ slot_at s i
    kept i ne = get_or-set_ne s.slot (hash s h) i none none ne

    gone : grab handle_of s' h ≡ none
    gone = elim (Option-cases (grab handle_of s' h)) [
      | inl n ↦ n
      | inr (d, f) ↦ cc (sym empty, (grab-some handle_of s' h d f).0)
    ]

    others : (g : ℕ) → g ≢ h → grab handle_of s' g ≡ grab handle_of s g
    others g ne =
        option_ext (grab handle_of s' g) (grab handle_of s g)
          (λ d f.
            let (at_slot, is_g) = grab-some handle_of s' g d f in
            elim (ℕ_discrete (hash s h) (hash s g)) [
              | yes here ↦ cc (sym empty, ap (slot_at s') here, at_slot)
              | no there ↦ grab_of handle_of s g d (sym (kept (hash s g) there) ∙ at_slot) is_g
            ])
          (λ d f.
            let (at_slot, is_g) = grab-some handle_of s g d f in
            let (at_h, is_h) = grab-some handle_of s h c e in
            grab_of handle_of s' g d
              (kept (hash s g) (λ here.
                  let same : d ≡ c = cc (at_slot, at_h, ap (slot_at s) here) in
                  ne (sym is_g ∙ ap handle_of same ∙ is_h))
                ∙ at_slot)
              is_g)

    valid : IsValid handle_of s'
    valid = record {
      bits = v.bits;
      network = v.network;
      small = v.small;
      size = v.size;
      cells = length-set s.slot (hash s h) none ∙ v.cells;
      placed = λ i d f. elim (ℕ_discrete (hash s h) i) [
        | yes here ↦ cc (sym empty, ap (slot_at s') here, f)
        | no there ↦ v.placed i d (sym (kept i there) ∙ f)
      ];
      network_byte = v.network_byte;
      harbor = v.harbor;
      index_pos = v.index_pos;
      index_le = v.index_le;
    }

-- `skynet_handle_retire` of any other handle changes nothing and returns 0.
pub retire_missing :
    (junk : HandleName) (handle_of : ℕ → ℕ) (s : Storage) (h : ℕ)
    → grab handle_of s h ≡ none
    → retire junk handle_of h s ≡ (none, s)
unfolding retire
retire_missing junk handle_of s h e = rw (e, retire)
