-- ===== src/Hashid/Places.antt =====
-- The free places of the table of connection numbers, and the loop of `hashid_insert`.
use native.Mathlib.Nat.{add-mul-mod_self_left, div-add-mod'}
use skynet_server.Common.{
  ℕ, zero, suc, inl, inr, refl, Option, ◌<◌, ◌≡◌, none, some, ◌+◌, ◌≤◌, Bool, arith, false, ◌%◌,
  ◌-◌, ◌==◌, Bool-cases, ap, if◌then◌else◌, ℕ_discrete, ◌/◌, some-injective, subst, sym, true, ◌*◌,
  ◌∙◌, ==_of_ne, mod-lt, Option-cases, mod-add-mod, mod-eq_of_lt, ◌^◌, ltb,
}
use skynet_server.Hashid.{Hashid, free_place, set_id, if_int}
use skynet_server.Hashid.Chains.{used}
use skynet_server.Common.Options.{is_none, none_of}

pub used-le : (n : ℕ) (ids : ℕ → Option ℕ) → used n ids ≤ n
used-le zero ids = omega arith
used-le (suc n) ids = elim (Bool-cases (is_none (ids n))) [
  | inl e ↦ rw e (let h = used-le n ids in omega arith)
  | inr e ↦ rw e (let h = used-le n ids in omega arith)
]

used-all :
    (n : ℕ) (ids : ℕ → Option ℕ) → ((c : ℕ) → c < n → is_none (ids c) ≡ false) → used n ids ≡ n
used-all zero ids h = refl
used-all (suc n) ids h =
    rw (h n (omega arith))
      (ap (λ k. k + 1) (used-all n ids (λ c lt. h c (omega arith))) ∙ omega arith)

-- A place above the first `n` does not count among them.
used-above :
    (n c : ℕ) (v : Option ℕ) (ids : ℕ → Option ℕ) → n ≤ c → used n (set_id c v ids) ≡ used n ids
used-above zero c v ids le = refl
used-above (suc n) c v ids le =
    let e : (c == n) ≡ false = ground arith in rw (e, used-above n c v ids (omega arith)) refl

pub used-fill :
    (n c x : ℕ) (ids : ℕ → Option ℕ)
    → c < n
    → ids c ≡ none
    → used n (set_id c (some x) ids) ≡ used n ids + 1
used-fill zero c x ids lt e = absurd (omega arith)
used-fill (suc n) c x ids lt e = elim (ℕ_discrete c n) [
  | yes same ↦
      let hit : (c == n) ≡ true = ground arith in
      let free : is_none (ids n) ≡ true = ap (λ k. is_none (ids k)) (sym same) ∙ ap is_none e in
      rw (hit, free, used-above n c (some x) ids (omega arith)) refl
  | no ne ↦
      let ih = used-fill n c x ids (omega arith) e in
      elim (Bool-cases (is_none (ids n))) [
        | inl free ↦ rw (==_of_ne ne, free) ih
        | inr full ↦ rw (==_of_ne ne, full) (ap (λ k. k + 1) ih)
      ]
]

pub used-clear :
    (n c x : ℕ) (ids : ℕ → Option ℕ)
    → c < n
    → ids c ≡ some x
    → used n (set_id c none ids) + 1 ≡ used n ids
used-clear zero c x ids lt e = absurd (omega arith)
used-clear (suc n) c x ids lt e = elim (ℕ_discrete c n) [
  | yes same ↦
      let hit : (c == n) ≡ true = ground arith in
      let full : is_none (ids n) ≡ false = ap (λ k. is_none (ids k)) (sym same) ∙ ap is_none e in
      rw (hit, full, used-above n c none ids (omega arith)) refl
  | no ne ↦
      let ih = used-clear n c x ids (omega arith) e in
      elim (Bool-cases (is_none (ids n))) [
        | inl free ↦ rw (==_of_ne ne, free) ih
        | inr full ↦ rw (==_of_ne ne, full) (ap (λ k. k + 1) ih)
      ]
]

if_int-some : (sum : ℕ) (place : Option ℕ) (c : ℕ) → if_int sum place ≡ some c → place ≡ some c
if_int-some sum place c e = elim (Bool-cases (ltb sum (2 ^ 31))) [
  | inl small ↦ subst (λ b. (if b then place else none) ≡ some c) small e
  | inr large ↦
      let g : none ≡ some c = subst (λ b. (if b then place else none) ≡ some c) large e in cc
]

if_int-fits : (sum : ℕ) (place : Option ℕ) → sum < 2 ^ 31 → if_int sum place ≡ place
if_int-fits sum place lt = let small : ltb sum (2 ^ 31) ≡ true = ground arith in rw small refl

pub free_place-some :
    (n i id c : ℕ) (hi : Hashid)
    → 0 < hi.cap
    → free_place n i id hi ≡ some c
    → (c < hi.cap) × (hi.id c ≡ none)
unfolding free_place
free_place-some zero i id c hi positive e = absurd cc
free_place-some (suc n) i id c hi positive found =
    let e : pick (is_none (hi.id ((i + id) % hi.cap))) ≡ some c = if_int-some (i + id) _ c found in
    elim (Bool-cases (is_none (hi.id ((i + id) % hi.cap)))) [
      | inl free ↦
          let same : (i + id) % hi.cap ≡ c =
            some-injective ((i + id) % hi.cap) c (subst (λ b. pick b ≡ some c) free e) in
          subst (λ k. (k < hi.cap) × (hi.id k ≡ none)) same (mod-lt (i + id) positive, none_of free)
      | inr taken ↦
          free_place-some n (i + 1) id c hi positive (subst (λ b. pick b ≡ some c) taken e)
    ]
  where
    pick : Bool → Option ℕ
    pick b = if b then some ((i + id) % hi.cap) else free_place n (i + 1) id hi

free_place-none :
    (n i id : ℕ) (hi : Hashid)
    → i + n + id ≤ 2 ^ 31
    → free_place n i id hi ≡ none
    → (k : ℕ) → i ≤ k
    → k < i + n
    → is_none (hi.id ((k + id) % hi.cap)) ≡ false
unfolding free_place
free_place-none zero i id hi range e k a b = absurd (omega arith)
free_place-none (suc n) i id hi range missed k a b =
    let e : pick (is_none (hi.id ((i + id) % hi.cap))) ≡ none =
      sym (if_int-fits (i + id) _ (omega arith)) ∙ missed in
    elim (Bool-cases (is_none (hi.id ((i + id) % hi.cap)))) [
      | inl free ↦ let g = subst (λ b. pick b ≡ none) free e in absurd cc
      | inr taken ↦ elim (ℕ_discrete i k) [
        | yes same ↦ ap (λ j. is_none (hi.id ((j + id) % hi.cap))) (sym same) ∙ taken
        | no ne ↦
            free_place-none n (i + 1) id hi (omega arith) (subst (λ b. pick b ≡ none) taken e) k
              (omega arith) (omega arith)
      ]
    ]
  where
    pick : Bool → Option ℕ
    pick b = if b then some ((i + id) % hi.cap) else free_place n (i + 1) id hi

-- Every place is tried.
reached : (cap id c : ℕ) → c < cap → ((c + (cap - id % cap)) % cap + id) % cap ≡ c
reached cap id c lt =
    mod-add-mod (c + (cap - id % cap)) cap id
    ∙ ap (λ t. t % cap) (whole ∙ sym (ap (λ t. c + t) next))
    ∙ add-mul-mod_self_left c cap (id / cap + 1)
    ∙ mod-eq_of_lt lt
  where
    parts : id / cap * cap + id % cap ≡ id
    parts = div-add-mod' id cap

    below : id % cap < cap
    below = mod-lt id (omega arith)

    whole : c + (cap - id % cap) + id ≡ c + (id / cap * cap + cap)
    whole = omega (arith, parts, below)

    next : cap * (id / cap + 1) ≡ id / cap * cap + cap
    next = grind arith

-- While fewer places are taken than there are, and no sum overflows, the loop ends at a free one.
pub free_place-found :
    (id : ℕ) (hi : Hashid)
    → id + hi.cap ≤ 2 ^ 31
    → used hi.cap hi.id < hi.cap
    → (c : ℕ) × (free_place hi.cap 0 id hi ≡ some c) × (c < hi.cap) × (hi.id c ≡ none)
free_place-found id hi range room = elim (Option-cases (free_place hi.cap 0 id hi)) [
  | inr (c, e) ↦ let (a, b) = free_place-some hi.cap 0 id c hi (omega arith) e in (c, e, a, b)
  | inl e ↦ absurd (omega (arith, used-all hi.cap hi.id (taken e)))
]
  where
    taken : free_place hi.cap 0 id hi ≡ none → (c : ℕ) → c < hi.cap → is_none (hi.id c) ≡ false
    taken e c lt =
        ap (λ k. is_none (hi.id k)) (sym (reached hi.cap id c lt))
        ∙ free_place-none hi.cap 0 id hi (omega arith) e ((c + (hi.cap - id % hi.cap)) % hi.cap)
            (omega arith) (omega (arith, mod-lt (c + (hi.cap - id % hi.cap)) positive))
      where
        positive : 0 < hi.cap
        positive = omega arith
