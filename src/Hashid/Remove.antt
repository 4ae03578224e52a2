-- ===== src/Hashid/Remove.antt =====
-- `hashid_remove`: a number is taken out of its chain, and its place is free again.
use mathlib.Core.Bool.{false≢true}
use skynet_server.Common.{
  ℕ, List, [], ◌∷◌, inl, inr, refl, some-injective, Option, ◌<◌, ◌≡◌, Bool-cases, none, some, ◌≢◌,
  ap, ℕ_discrete, ◌+◌, Option-cases, subst, sym, arith, if◌then◌else◌, ◌∙◌,
}
use skynet_server.Hashid.{Hashid, hash_of, lookup, remove, remove_at, set_id, unlink}
use skynet_server.Hashid.Chains.{In, Distinct, IsValid, lookup-at, lookup-holds, holds, held}
use skynet_server.Hashid.Places.{used-clear}
use skynet_server.Hashid.Update.{set_id_self, set_id-ne, set_hash_self, set_hash-ne}
use skynet_server.Common.Options.{is_some_eq, option_ext}

-- The chain without the first place of `x`.
module _ (ids : ℕ → Option ℕ) (x : ℕ) where
  unlink-In : (k : ℕ) (cs : List ℕ) → In k (unlink ids x cs) → In k cs
  unfolding unlink
  unlink-In k [] a = a
  unlink-In k (z ∷ zs) a = elim (Bool-cases (is_some_eq x (ids z))) [
    | inl hit ↦ inr (subst (λ b. In k (if b then zs else z ∷ unlink ids x zs)) hit a)
    | inr miss ↦ elim (subst (λ b. In k (if b then zs else z ∷ unlink ids x zs)) miss a) [
      | inl e ↦ inl e
      | inr b ↦ inr (unlink-In k zs b)
    ]
  ]

  unlink-keeps : (k : ℕ) (cs : List ℕ) → In k cs → ids k ≢ some x → In k (unlink ids x cs)
  unfolding unlink
  unlink-keeps k [] a ne = a
  unlink-keeps k (z ∷ zs) a ne = elim (Bool-cases (is_some_eq x (ids z))) [
    | inl hit ↦
        subst (λ b. In k (if b then zs else z ∷ unlink ids x zs)) (sym hit)
          (elim a [ inl e ↦ absurd (ne (ap ids (sym e) ∙ holds x (ids z) hit)) | inr b ↦ b ])
    | inr miss ↦
        subst (λ b. In k (if b then zs else z ∷ unlink ids x zs)) (sym miss)
          (elim a [ inl e ↦ inl e | inr b ↦ inr (unlink-keeps k zs b ne) ])
  ]

  unlink-Distinct : (cs : List ℕ) → Distinct cs → Distinct (unlink ids x cs)
  unfolding unlink
  unlink-Distinct [] d = d
  unlink-Distinct (z ∷ zs) (out, d) = elim (Bool-cases (is_some_eq x (ids z))) [
    | inl hit ↦ subst (λ b. Distinct (if b then zs else z ∷ unlink ids x zs)) (sym hit) d
    | inr miss ↦
        subst (λ b. Distinct (if b then zs else z ∷ unlink ids x zs)) (sym miss)
          (λ a. out (unlink-In z zs a), unlink-Distinct zs d)
  ]

  -- The place itself is gone, if no other place of the chain holds the number.
  unlink-gone :
      (c : ℕ) (cs : List ℕ)
      → Distinct cs
      → ids c ≡ some x
      → ((k : ℕ) → In k cs → ids k ≡ some x → k ≡ c)
      → In c (unlink ids x cs)
      → ⊥
  unfolding unlink
  unlink-gone c [] d e only a = a
  unlink-gone c (z ∷ zs) (out, d) e only a = elim (Bool-cases (is_some_eq x (ids z))) [
    | inl hit ↦ out (
        subst (λ k. In k zs) (sym (only z (inl refl) (holds x (ids z) hit)))
          (subst (λ b. In c (if b then zs else z ∷ unlink ids x zs)) hit a))
    | inr miss ↦ elim (subst (λ b. In c (if b then zs else z ∷ unlink ids x zs)) miss a) [
      | inl same ↦ false≢true (sym miss ∙ held x (ids z) (ap ids same ∙ e))
      | inr b ↦ unlink-gone c zs d e (λ k i f. only k (inr i) f) b
    ]
  ]

module _ (hi : Hashid) (v : IsValid hi) (x c : ℕ) (lt : c < hi.cap) (there : hi.id c ≡ some x) where
  abbrev hx : ℕ
  hx = hash_of hi x

  abbrev removed : Hashid
  removed = (remove_at hi x (some c)).1

  remove-here : (k y : ℕ) → removed.id k ≡ some y → (c ≢ k) × (hi.id k ≡ some y)
  remove-here k y e = elim (ℕ_discrete c k) [
    | yes same ↦
        let g : none ≡ some y =
          sym (set_id_self c none hi.id) ∙ ap (set_id c none hi.id) same ∙ e in
        absurd cc
    | no ne ↦ (ne, sym (set_id-ne c k none hi.id ne) ∙ e)
  ]

  In-old : (h k : ℕ) → In k (removed.hash h) → In k (hi.hash h)
  In-old h k a = elim (ℕ_discrete hx h) [
    | yes same ↦
        subst (λ j. In k (hi.hash j)) same
          (unlink-In hi.id x k (hi.hash hx) (
            subst (In k) (set_hash_self hx (unlink hi.id x (hi.hash hx)) hi.hash)
              (subst (λ j. In k (removed.hash j)) (sym same) a)))
    | no ne ↦ subst (In k) (set_hash-ne hx h (unlink hi.id x (hi.hash hx)) hi.hash ne) a
  ]

  not-In_new : (h : ℕ) → In c (removed.hash h) → ⊥
  not-In_new h a =
      let (small, y, e, f) = v.placed h c (In-old h c a) in
      let same : hx ≡ h = ap (hash_of hi) (some-injective x y (sym there ∙ e)) ∙ f in
      unlink-gone hi.id x c (hi.hash hx) (v.distinct hx) there
        (λ k b g. v.once k c x (v.placed hx k b).0 lt g there)
        (subst (In c) (set_hash_self hx (unlink hi.id x (hi.hash hx)) hi.hash)
          (subst (λ j. In c (removed.hash j)) (sym same) a))

  remove_at-IsValid : IsValid removed
  remove_at-IsValid = record {
    chained = λ k y small e.
        let (ne, old) = remove-here k y e in
        elim (ℕ_discrete hx (hash_of hi y)) [
          | yes same ↦
              subst (λ j. In k (removed.hash j)) same
                (subst (In k) (sym (set_hash_self hx (unlink hi.id x (hi.hash hx)) hi.hash)) (
                  unlink-keeps hi.id x k (hi.hash hx)
                    (subst (λ j. In k (hi.hash j)) (sym same) (v.chained k y small old))
                    (λ f. ne (v.once c k x lt small there f))))
          | no apart ↦
              subst (In k)
                (sym (set_hash-ne hx (hash_of hi y) (unlink hi.id x (hi.hash hx)) hi.hash apart))
                (v.chained k y small old)
        ];
    placed = λ h k a.
        let (small, y, e, f) = v.placed h k (In-old h k a) in
        (
          small,
          y,
          set_id-ne c k none hi.id
                (λ same. not-In_new h (subst (λ j. In j (removed.hash h)) (sym same) a))
              ∙ e,
          f,
        );
    distinct = λ h. elim (ℕ_discrete hx h) [
      | yes same ↦
          subst (λ j. Distinct (removed.hash j)) same
            (subst Distinct (sym (set_hash_self hx (unlink hi.id x (hi.hash hx)) hi.hash))
              (unlink-Distinct hi.id x (hi.hash hx) (v.distinct hx)))
      | no ne ↦
          subst Distinct (sym (set_hash-ne hx h (unlink hi.id x (hi.hash hx)) hi.hash ne))
            (v.distinct h)
    ];
    once = λ a b y p q e f. v.once a b y p q (remove-here a y e).1 (remove-here b y f).1;
    counted = omega (arith, v.counted, used-clear hi.cap c x hi.id lt there);
  }

-- `hashid_remove` of a number that a lookup in a valid table finds at a place returns the place.
-- The table is valid, one place less is taken, the number is not found any more, and every other
-- number leads where it did.
pub remove_lem :
    (hi : Hashid) (x c : ℕ)
    → IsValid hi
    → lookup hi x ≡ some c
    → let (r, hi') = remove hi x in
      (r ≡ some c)
      × IsValid hi'
      × (hi'.count + 1 ≡ hi.count)
      × (lookup hi' x ≡ none)
      × ((y : ℕ) → y ≢ x → lookup hi' y ≡ lookup hi y)
unfolding remove lookup
remove_lem hi x c v e = rw e (
  refl,
  v',
  omega (arith, v.counted, used-clear hi.cap c x hi.id lt there),
  gone,
  λ y ne.
      option_ext (lookup after y) (lookup hi y)
        (λ k f.
          let (a, b) = lookup-holds after k y v' f in
          lookup-at hi k y v a (remove-here hi v x c lt there k y b).1)
        (λ k f.
          let (a, b) = lookup-holds hi k y v f in
          lookup-at after k y v' a (
            set_id-ne c k none hi.id
              (λ same. ne (some-injective y x (sym b ∙ ap hi.id (sym same) ∙ there)))
            ∙ b)),
)
  where
    lt : c < hi.cap
    lt = (lookup-holds hi c x v e).0

    there : hi.id c ≡ some x
    there = (lookup-holds hi c x v e).1

    after : Hashid
    after = removed hi v x c lt there

    v' : IsValid after
    v' = remove_at-IsValid hi v x c lt there

    gone : lookup after x ≡ none
    gone = elim (Option-cases (lookup after x)) [
      | inl e ↦ e
      | inr (k, f) ↦
          let (a, b) = lookup-holds after k x v' f in
          let (ne, old) = remove-here hi v x c lt there k x b in
          absurd (ne (v.once c k x lt a there old))
    ]

-- `hashid_remove` of a number that a lookup does not find returns -1 and changes nothing.
pub remove_missing : (hi : Hashid) (x : ℕ) → lookup hi x ≡ none → remove hi x ≡ (none, hi)
unfolding remove lookup
remove_missing hi x e = rw e refl
