-- ===== src/Hashid/Chains.antt =====
-- The chains of the table of connection numbers, and what a lookup finds.
use mathlib.Core.Bool.{false≢true}
use skynet_server.Common.{some-injective}
use skynet_server.Common.{
  ℕ, zero, suc, List, [], ◌∷◌, inl, inr, Option, ◌<◌, ◌≡◌, if◌then◌else◌, none, some, ◌⊎◌,
  Bool-cases, Option-cases, true, ◌≢◌, ap, subst, ◌+◌, ◌∙◌, eq_refl, sym, ==_iff,
}
use skynet_server.Hashid.{Hashid, hash_of, find, lookup}
use skynet_server.Common.Options.{is_some_eq, is_none}

abbrev pub In : ℕ → List ℕ → Type 0
In c [] = ⊥
In c (x ∷ xs) = (x ≡ c) ⊎ In c xs

abbrev pub Distinct : List ℕ → Type 0
Distinct [] = Unit {0}
Distinct (x ∷ xs) = (In x xs → ⊥) × Distinct xs

-- How many of the first `n` places are taken.
abbrev pub used : ℕ → (ℕ → Option ℕ) → ℕ
used zero ids = 0
used (suc n) ids = if is_none (ids n) then used n ids else used n ids + 1

-- A place holds a number exactly when it is in the chain of that number.
pub record IsValid (hi : Hashid) : Type 0 where
  pub chained : (c x : ℕ) → c < hi.cap → hi.id c ≡ some x → In c (hi.hash (hash_of hi x))
  pub placed :
      (h c : ℕ)
      → In c (hi.hash h)
      → (c < hi.cap) × (x : ℕ) × (hi.id c ≡ some x) × (hash_of hi x ≡ h)
  pub distinct : (h : ℕ) → Distinct (hi.hash h)
  pub once : (a b x : ℕ) → a < hi.cap → b < hi.cap → hi.id a ≡ some x → hi.id b ≡ some x → a ≡ b
  pub counted : hi.count ≡ used hi.cap hi.id

pub holds : (id : ℕ) (o : Option ℕ) → is_some_eq id o ≡ true → o ≡ some id
holds id none e = absurd (false≢true e)
holds id (some x) e = ap some (sym ((==_iff id x).0 e))

pub held : (id : ℕ) (o : Option ℕ) → o ≡ some id → is_some_eq id o ≡ true
held id o e = ap (is_some_eq id) e ∙ eq_refl id

pub find-some :
    (ids : ℕ → Option ℕ) (id c : ℕ) (cs : List ℕ)
    → find ids id cs ≡ some c
    → In c cs × (ids c ≡ some id)
unfolding find
find-some ids id c [] e = absurd cc
find-some ids id c (x ∷ xs) e = elim (Bool-cases (is_some_eq id (ids x))) [
  | inl hit ↦
      let same : x ≡ c =
        some-injective x c (subst (λ b. (if b then some x else find ids id xs) ≡ some c) hit e) in
      (inl same, ap ids (sym same) ∙ holds id (ids x) hit)
  | inr miss ↦
      let (a, b) =
        find-some ids id c xs
          (subst (λ b. (if b then some x else find ids id xs) ≡ some c) miss e) in
      (inr a, b)
]

pub find-none :
    (ids : ℕ → Option ℕ) (id c : ℕ) (cs : List ℕ)
    → find ids id cs ≡ none
    → In c cs
    → ids c ≢ some id
unfolding find
find-none ids id c [] e a f = absurd a
find-none ids id c (x ∷ xs) e a f = elim (Bool-cases (is_some_eq id (ids x))) [
  | inl hit ↦ let g = subst (λ b. (if b then some x else find ids id xs) ≡ none) hit e in cc g
  | inr miss ↦
      let g = subst (λ b. (if b then some x else find ids id xs) ≡ none) miss e in
      elim a [
        | inl same ↦ false≢true (sym miss ∙ held id (ids x) (ap ids same ∙ f))
        | inr b ↦ find-none ids id c xs g b f
      ]
]

-- `hashid_lookup` in a valid table finds the place that holds a number.
pub lookup-at :
    (hi : Hashid) (c x : ℕ) → IsValid hi → c < hi.cap → hi.id c ≡ some x → lookup hi x ≡ some c
unfolding lookup
lookup-at hi c x v lt e = elim (Option-cases (find hi.id x (hi.hash (hash_of hi x)))) [
  | inl miss ↦ absurd (find-none hi.id x c (hi.hash (hash_of hi x)) miss (v.chained c x lt e) e)
  | inr (d, hit) ↦
      let (a, b) = find-some hi.id x d (hi.hash (hash_of hi x)) hit in
      hit ∙ ap some (v.once d c x (v.placed (hash_of hi x) d a).0 lt b e)
]

-- What it finds is a place that holds the number.
pub lookup-holds :
    (hi : Hashid) (c x : ℕ) → IsValid hi → lookup hi x ≡ some c → (c < hi.cap) × (hi.id c ≡ some x)
unfolding lookup
lookup-holds hi c x v e =
    let (a, b) = find-some hi.id x c (hi.hash (hash_of hi x)) e in
    ((v.placed (hash_of hi x) c a).0, b)
