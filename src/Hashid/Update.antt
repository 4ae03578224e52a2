-- ===== src/Hashid/Update.antt =====
-- `hashid_insert` and `hashid_remove` change what one number leads to.
use skynet_server.Common.{
  ℕ, List, ◌∷◌, inl, inr, refl, some-injective, Option, ◌<◌, ◌≡◌, ◌≢◌, ==_of_ne, eq_refl, none,
  some, sym, ℕ_discrete, ◌+◌, ◌⊎◌, arith, subst, ◌∙◌, ap, ◌≤◌, ◌^◌,
}
use skynet_server.Hashid.{Hashid, hash_of, lookup, insert, insert_at, set_id, set_hash}
use skynet_server.Hashid.Chains.{In, Distinct, used, IsValid, lookup-at, lookup-holds}
use skynet_server.Hashid.Places.{used-fill, free_place-found}
use skynet_server.Common.Options.{◌>>=◌, option_ext}

-- The cells of the arrays after a write.
pub set_id_self : (c : ℕ) (v : Option ℕ) (ids : ℕ → Option ℕ) → set_id c v ids c ≡ v
set_id_self c v ids = rw (eq_refl c) refl

pub set_id-ne : (c k : ℕ) (v : Option ℕ) (ids : ℕ → Option ℕ) → c ≢ k → set_id c v ids k ≡ ids k
set_id-ne c k v ids ne = rw (==_of_ne ne) refl

pub set_hash_self : (h : ℕ) (cs : List ℕ) (hash : ℕ → List ℕ) → set_hash h cs hash h ≡ cs
set_hash_self h cs hash = rw (eq_refl h) refl

pub set_hash-ne :
    (h k : ℕ) (cs : List ℕ) (hash : ℕ → List ℕ) → h ≢ k → set_hash h cs hash k ≡ hash k
set_hash-ne h k cs hash ne = rw (==_of_ne ne) refl

module _ (hi : Hashid) (v : IsValid hi) (x c : ℕ) (lt : c < hi.cap) (free : hi.id c ≡ none) where
  abbrev hx : ℕ
  hx = hash_of hi x

  -- A place with a number is not the free one.
  other_place : (k y : ℕ) → hi.id k ≡ some y → c ≢ k
  other_place k y e same = let g : none ≡ some y = sym free ∙ ap hi.id same ∙ e in cc

  insert-here :
      (k y : ℕ) → set_id c (some x) hi.id k ≡ some y → ((c ≡ k) × (x ≡ y)) ⊎ (hi.id k ≡ some y)
  insert-here k y e = elim (ℕ_discrete c k) [
    | yes same ↦ inl (
      same,
      some-injective x y
          (sym (set_id_self c (some x) hi.id) ∙ ap (set_id c (some x) hi.id) same ∙ e),
    )
    | no ne ↦ inr (sym (set_id-ne c k (some x) hi.id ne) ∙ e)
  ]

  pub insert_at-IsValid : ((k : ℕ) → k < hi.cap → hi.id k ≢ some x) → IsValid (insert_at hi x c)
  insert_at-IsValid absent = record {
    chained = chained;
    placed = placed;
    distinct = distinct;
    once = once;
    counted = counted;
  }
    where
      hash' : ℕ → List ℕ
      hash' = set_hash hx (c ∷ hi.hash hx) hi.hash

      grows : (h k : ℕ) → In k (hi.hash h) → In k (hash' h)
      grows h k a = elim (ℕ_discrete hx h) [
        | yes same ↦
            subst (λ j. In k (hash' j)) same
              (subst (In k) (sym (set_hash_self hx (c ∷ hi.hash hx) hi.hash))
                (inr (subst (λ j. In k (hi.hash j)) (sym same) a)))
        | no ne ↦ subst (In k) (sym (set_hash-ne hx h (c ∷ hi.hash hx) hi.hash ne)) a
      ]

      splits : (h k : ℕ) → In k (hash' h) → ((hx ≡ h) × (c ≡ k)) ⊎ In k (hi.hash h)
      splits h k a = elim (ℕ_discrete hx h) [
        | yes same ↦
            elim (subst (In k) (set_hash_self hx (c ∷ hi.hash hx) hi.hash)
              (subst (λ j. In k (hash' j)) (sym same) a)) [
                | inl e ↦ inl (same, e)
                | inr b ↦ inr (subst (λ j. In k (hi.hash j)) same b)
              ]
        | no ne ↦ inr (subst (In k) (set_hash-ne hx h (c ∷ hi.hash hx) hi.hash ne) a)
      ]

      chained :
          (k y : ℕ) → k < hi.cap → set_id c (some x) hi.id k ≡ some y → In k (hash' (hash_of hi y))
      chained k y small e = elim (insert-here k y e) [
        | inl (p, q) ↦
            subst (λ n. In k (hash' (hash_of hi n))) q
              (subst (In k) (sym (set_hash_self hx (c ∷ hi.hash hx) hi.hash)) (inl p))
        | inr old ↦ grows (hash_of hi y) k (v.chained k y small old)
      ]

      placed :
          (h k : ℕ)
          → In k (hash' h)
          → (k < hi.cap) × (y : ℕ) × (set_id c (some x) hi.id k ≡ some y) × (hash_of hi y ≡ h)
      placed h k a = elim (splits h k a) [
        | inl (p, q) ↦ (
          subst (λ n. n < hi.cap) q lt,
          x,
          ap (set_id c (some x) hi.id) (sym q) ∙ set_id_self c (some x) hi.id,
          p,
        )
        | inr b ↦
            let (small, y, e, f) = v.placed h k b in
            (small, y, set_id-ne c k (some x) hi.id (other_place k y e) ∙ e, f)
      ]

      distinct : (h : ℕ) → Distinct (hash' h)
      distinct h = elim (ℕ_discrete hx h) [
        | yes same ↦
            subst (λ j. Distinct (hash' j)) same
              (subst Distinct (sym (set_hash_self hx (c ∷ hi.hash hx) hi.hash)) (
                λ a. let (small, y, e, f) = v.placed hx c a in other_place c y e refl,
                v.distinct hx,
              ))
        | no ne ↦ subst Distinct (sym (set_hash-ne hx h (c ∷ hi.hash hx) hi.hash ne)) (v.distinct h)
      ]

      once :
          (a b y : ℕ)
          → a < hi.cap
          → b < hi.cap
          → set_id c (some x) hi.id a ≡ some y
          → set_id c (some x) hi.id b ≡ some y
          → a ≡ b
      once a b y p q e f = elim (insert-here a y e) [
        | inl (s, t) ↦ elim (insert-here b y f) [
          | inl (s', t') ↦ sym s ∙ s'
          | inr old ↦ absurd (absent b q (old ∙ ap some (sym t)))
        ]
        | inr old ↦ elim (insert-here b y f) [
          | inl (s', t') ↦ absurd (absent a p (old ∙ ap some (sym t')))
          | inr old' ↦ v.once a b y p q old old'
        ]
      ]

      counted : hi.count + 1 ≡ used hi.cap (set_id c (some x) hi.id)
      counted = ap (λ n. n + 1) v.counted ∙ sym (used-fill hi.cap c x hi.id lt free)

-- `hashid_insert` into a valid table that is not full, of a number that it does not hold and that
-- stays within 31 bits when `cap` is added, returns the place of the number. The table is valid, one more place is taken, a lookup of the number
-- finds that place, and every other number leads where it did.
pub insert_lem :
    (hi : Hashid) (x : ℕ)
    → IsValid hi
    → x + hi.cap ≤ 2 ^ 31
    → hi.count < hi.cap
    → ((k : ℕ) → k < hi.cap → hi.id k ≢ some x)
    → (c : ℕ) × (hi' : Hashid) × (insert hi x ≡ some (c, hi'))
      × IsValid hi'
      × (hi'.count ≡ hi.count + 1)
      × (lookup hi' x ≡ some c)
      × ((y : ℕ) → y ≢ x → lookup hi' y ≡ lookup hi y)
unfolding insert
insert_lem hi x v range room absent =
    let (c, run, lt, free) = free_place-found x hi range (omega (arith, v.counted)) in
    let v' = insert_at-IsValid hi v x c lt free absent in
    (
      c,
      insert_at hi x c,
      ap (λ o. o >>= λ k. some (k, insert_at hi x k)) run,
      v',
      refl,
      lookup-at (insert_at hi x c) c x v' lt (set_id_self c (some x) hi.id),
      λ y ne.
          option_ext (lookup (insert_at hi x c) y) (lookup hi y)
            (λ k e.
              let (a, b) = lookup-holds (insert_at hi x c) k y v' e in
              elim (insert-here hi v x c lt free k y b) [
                | inl (p, q) ↦ absurd (ne (sym q))
                | inr old ↦ lookup-at hi k y v a old
              ])
            (λ k e.
              let (a, b) = lookup-holds hi k y v e in
              lookup-at (insert_at hi x c) k y v' a
                (set_id-ne c k (some x) hi.id (other_place hi v x c lt free k y b) ∙ b)),
    )
