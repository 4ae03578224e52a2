-- ===== src/Handle/Lookup.antt =====
-- The binary search over the names, and `skynet_handle_findname`.
use Prim.Native.Nat.{Ordering}
use skynet_server.Common.{
  ℕ, zero, suc, ◌+◌, ◌≤◌, ◌<◌, ◌≡◌, refl, ap, List, arith, get_or, ltb, dec_lt, ◌-◌, ◌≢◌, ◌/◌,
  ℕ_discrete, Bool-cases, inr, inl, ltb→lt,
}
use skynet_server.Handle.Names.{HandleName, Search, found, missing, search, strcmp}
use skynet_server.Handle.{Storage, findname}
use skynet_server.Handle.Order.{strcmp_self, eq_of_strcmp, strcmp_trans, gt_of_lt, lt_of_gt}

module _ (junk : HandleName) where
  abbrev pub key_at : List HandleName → ℕ → List ℕ
  key_at names i = (get_or names i junk).bytes

  -- The first `n` names grow strictly along the array.
  abbrev pub Sorted : List HandleName → ℕ → Type 0
  Sorted names n =
      (i j : ℕ) → i < j → j < n → strcmp (key_at names i) (key_at names j) ≡ Ordering.lt

  -- What a search has to say of `n` names.
  abbrev pub Outcome : List HandleName → ℕ → List ℕ → Search → Type 0
  Outcome names n key (found mid) = (mid < n) × (key_at names mid ≡ key)
  Outcome names n key (missing p) =
      (p ≤ n)
      × ((i : ℕ) → i < p → strcmp (key_at names i) key ≡ Ordering.lt)
      × ((i : ℕ) → p ≤ i → i < n → strcmp (key_at names i) key ≡ Ordering.gt)

  -- A search of a part of the array, with the rounds that are left.
  pub search-Outcome :
      (fuel n : ℕ) (names : List HandleName) (key : List ℕ) (begin past : ℕ)
      → Sorted names n
      → begin ≤ past
      → past ≤ n
      → past ≤ begin + fuel
      → ((i : ℕ) → i < begin → strcmp (key_at names i) key ≡ Ordering.lt)
      → ((i : ℕ) → past ≤ i → i < n → strcmp (key_at names i) key ≡ Ordering.gt)
      → Outcome names n key (search junk fuel names key begin past)
  unfolding search
  search-Outcome zero n names key begin past sorted p q f below above =
      (omega arith, below, λ i a b. above i (omega arith) b)
  search-Outcome (suc fuel) n names key begin past sorted p q f below above =
      elim (Bool-cases (ltb begin past)) [
        | inr out ↦ rw out (omega arith, below, λ i a b. above i (ground arith) b)
        | inl range ↦ rw range (
            probe (ltb→lt begin past range) (strcmp (key_at names mid) key) refl
              (λ lo hi. search-Outcome fuel n names key lo hi sorted))
      ]
    where
      mid : ℕ
      mid = (begin + (past - 1)) / 2

      probe :
          begin < past
          → (o : Ordering) → strcmp (key_at names mid) key ≡ o
          → ((lo hi : ℕ)
              → lo ≤ hi
              → hi ≤ n
              → hi ≤ lo + fuel
              → ((i : ℕ) → i < lo → strcmp (key_at names i) key ≡ Ordering.lt)
              → ((i : ℕ) → hi ≤ i → i < n → strcmp (key_at names i) key ≡ Ordering.gt)
              → Outcome names n key (search junk fuel names key lo hi))
          → Outcome names n key (elim o [
            | Ordering.eq ↦ found mid
            | Ordering.lt ↦ search junk fuel names key (mid + 1) past
            | Ordering.gt ↦ search junk fuel names key begin mid
          ])
      probe lt Ordering.eq e ih = (omega arith, eq_of_strcmp (key_at names mid) key e)
      probe lt Ordering.lt e ih =
          ih (mid + 1) past (omega arith) q (omega arith)
            (λ i a. elim (ℕ_discrete i mid) [
              | yes same ↦ rw same e
              | no ne ↦
                  strcmp_trans (key_at names i) (key_at names mid) key
                    (sorted i mid (omega arith) (omega arith)) e
            ])
            above
      probe lt Ordering.gt e ih =
          ih begin mid (omega arith) (omega arith) (omega arith) below (λ i a b.
            elim (ℕ_discrete i mid) [
              | yes same ↦ rw same e
              | no ne ↦ gt_of_lt key (key_at names i) (
                  strcmp_trans key (key_at names mid) (key_at names i)
                    (lt_of_gt (key_at names mid) key e) (sorted mid i (omega arith) b))
            ])

-- `skynet_handle_findname` over sorted names.
module _ (junk : HandleName) (s : Storage) (sorted : Sorted junk s.name s.name_count) where
  abbrev pub search_all : List ℕ → Search
  search_all key = search junk s.name_count s.name key 0 s.name_count

  -- On sorted names the search ends within as many rounds as there are names: with the place of the
  -- name, or with the place where it belongs, after every smaller name and before every greater.
  pub search_all-Outcome : (key : List ℕ) → Outcome junk s.name s.name_count key (search_all key)
  search_all-Outcome key =
      search-Outcome junk s.name_count s.name_count s.name key 0 s.name_count sorted (omega arith)
        (omega arith) (omega arith) (λ i lt. absurd (omega arith)) (λ i a b. absurd (omega arith))

  -- Two places of a sorted array with one name are the same place.
  place_once :
      (i j : ℕ)
      → i < s.name_count
      → j < s.name_count
      → key_at junk s.name i ≡ key_at junk s.name j
      → i ≡ j
  place_once i j a b e = elim (dec_lt i j) [
    | yes lt ↦ cc (sorted i j lt b, e, strcmp_self (key_at junk s.name j))
    | no ge ↦ elim (dec_lt j i) [
      | yes gt ↦ cc (sorted j i gt a, e, strcmp_self (key_at junk s.name j))
      | no le ↦ omega arith
    ]
  ]

  -- On sorted names `skynet_handle_findname` of the name at place `i` returns the handle at `i`.
  pub findname_at :
      (i : ℕ)
      → i < s.name_count
      → findname junk s (key_at junk s.name i) ≡ (get_or s.name i junk).handle
  unfolding findname
  findname_at i lt = answer (search_all key) (search_all-Outcome key)
    where
      key : List ℕ
      key = key_at junk s.name i

      answer :
          (r : Search)
          → Outcome junk s.name s.name_count key r
          → ◌≡◌ {A = ℕ}
              (elim r [ found mid ↦ (get_or s.name mid junk).handle | missing begin ↦ 0 ])
              (get_or s.name i junk).handle
      answer (found mid) (a, e) = ap (λ k. (get_or s.name k junk).handle) (place_once mid i a lt e)
      answer (missing p) (a, below, above) = elim (dec_lt i p) [
        | yes b ↦ cc (below i b, strcmp_self key)
        | no b ↦ cc (above i (omega arith) lt, strcmp_self key)
      ]

  -- On sorted names `skynet_handle_findname` returns 0 for a name that is not among those in use.
  pub findname_missing :
      (key : List ℕ)
      → ((i : ℕ) → i < s.name_count → key_at junk s.name i ≢ key)
      → findname junk s key ≡ 0
  unfolding findname
  findname_missing key out = answer (search_all key) (search_all-Outcome key)
    where
      answer :
          (r : Search)
          → Outcome junk s.name s.name_count key r
          → ◌≡◌ {A = ℕ}
              (elim r [ found mid ↦ (get_or s.name mid junk).handle | missing begin ↦ 0 ])
              0
      answer (found mid) (a, e) = absurd (out mid a e)
      answer (missing p) o = refl
