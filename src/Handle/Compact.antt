-- ===== src/Handle/Compact.antt =====
-- The loop of `skynet_handle_retire` that closes the gaps in the array of names.
use skynet_server.Common.{
  ℕ, zero, suc, ◌+◌, ◌≤◌, ◌<◌, ◌≡◌, refl, List, [], ◌∷◌, ◌++◌, arith, length, get_or, set, take,
  drop, ap, if◌then◌else◌, sym, append-nil, ◌==◌, Bool-cases, inl, ◌∙◌, inr, false, subst, true,
  ==_iff, length-set, append_assoc,
}
use skynet_server.Handle.Names.{HandleName, compact}

-- The names of a list that do not stand for the handle.
unfoldable pub keep : ℕ → List HandleName → List HandleName
keep handle [] = []
keep handle (x ∷ xs) = if x.handle == handle then keep handle xs else x ∷ keep handle xs

module _ {ℓ} {A : Type ℓ} where
  set_get : (xs : List A) (j : ℕ) (d : A) → set xs j (get_or xs j d) ≡ xs
  set_get [] j d = refl
  set_get (x ∷ xs) zero d = refl
  set_get (x ∷ xs) (suc j) d = ap (◌∷◌ x) (set_get xs j d)

  take-set :
      (xs : List A) (j : ℕ) (v : A)
      → j < length xs
      → take (suc j) (set xs j v) ≡ take j xs ++ v ∷ []
  take-set [] j v h = absurd (omega arith)
  take-set (x ∷ xs) zero v h = refl
  take-set (x ∷ xs) (suc j) v h = ap (◌∷◌ x) (take-set xs j v (omega arith))

  drop-set : (xs : List A) (j k : ℕ) (v : A) → j < k → drop k (set xs j v) ≡ drop k xs
  drop-set xs j zero v h = absurd (omega arith)
  drop-set [] j (suc k) v h = refl
  drop-set (x ∷ xs) zero (suc k) v h = refl
  drop-set (x ∷ xs) (suc j) (suc k) v h = drop-set xs j k v (omega arith)

  take-drop-suc :
      (xs : List A) (n i : ℕ) (d : A)
      → i < length xs
      → take (suc n) (drop i xs) ≡ get_or xs i d ∷ take n (drop (suc i) xs)
  take-drop-suc [] n i d h = absurd (omega arith)
  take-drop-suc (x ∷ xs) n zero d h = refl
  take-drop-suc (x ∷ xs) n (suc i) d h = take-drop-suc xs n i d (omega arith)

compact-hit :
    (junk : HandleName) (n i j handle : ℕ) (names : List HandleName)
    → ((get_or names i junk).handle == handle) ≡ true
    → compact junk (suc n) i j handle names ≡ compact junk n (i + 1) j handle names
unfolding compact
compact-hit junk n i j handle names hit = rw hit

compact-kept :
    (junk : HandleName) (n i j handle : ℕ) (names : List HandleName)
    → ((get_or names i junk).handle == handle) ≡ false
    → compact junk (suc n) i j handle names
      ≡ compact junk n (i + 1) (j + 1) handle (set names j (get_or names i junk))
unfolding compact
compact-kept junk n i j handle names kept = elim (Bool-cases (i == j)) [
  | inl same ↦
      rw (kept, same)
        (ap (compact junk n (i + 1) (j + 1) handle) (
          sym (set_get names j junk)
          ∙ ap (λ k. set names j (get_or names k junk)) (sym ((==_iff i j).0 same))))
  | inr apart ↦ rw (kept, apart)
]

keep-hit :
    (handle : ℕ) (x : HandleName) (xs : List HandleName)
    → (x.handle == handle) ≡ true
    → keep handle (x ∷ xs) ≡ keep handle xs
unfolding keep
keep-hit handle x xs e = rw e

keep-kept :
    (handle : ℕ) (x : HandleName) (xs : List HandleName)
    → (x.handle == handle) ≡ false
    → keep handle (x ∷ xs) ≡ x ∷ keep handle xs
unfolding keep
keep-kept handle x xs e = rw e

-- What a result of the loop is, for the names `old` that it keeps and the cells `seen` ahead.
abbrev pub Compacted : ℕ → List HandleName → List HandleName → ℕ → ℕ → List HandleName × ℕ → Type 0
Compacted handle old seen room most (cells, m) =
    (take m cells ≡ old ++ keep handle seen) × (length cells ≡ room) × (m ≤ most)

-- After the loop of `skynet_handle_retire` over `n` names from cell `i` on, which keeps from cell
-- `j <= i` on, the first cells are those below `j` and then the names of the range that do not
-- stand for the handle, in their order, at most `j + n` in all. The array keeps its size.
pub compact_lem :
    (junk : HandleName) (n i j handle : ℕ) (names : List HandleName)
    → j ≤ i
    → i + n ≤ length names
    → Compacted handle
        (take j names)
        (take n (drop i names))
        (length names)
        (j + n)
        (compact junk n i j handle names)
unfolding compact keep
compact_lem junk zero i j handle names p q = (sym (append-nil (take j names)), refl, omega arith)
compact_lem junk (suc n) i j handle names p q =
    elim (Bool-cases ((get_or names i junk).handle == handle)) [
      | inl hit ↦
          let ih = compact_lem junk n (i + 1) j handle names (omega arith) (omega arith) in
          subst
            (Compacted handle (take j names) (take (suc n) (drop i names)) (length names)
              (j + suc n))
            (sym (compact-hit junk n i j handle names hit))
            (
              ih.0 ∙ ap (λ r. take j names ++ r) (sym (ahead ∙ keep-hit handle _ _ hit)),
              ih.1,
              omega (arith, ih.2),
            )
      | inr kept ↦
          let ih =
            compact_lem junk n (i + 1) (j + 1) handle (set names j x) (omega arith)
              (omega (arith, length-set names j x)) in
          subst
            (Compacted handle (take j names) (take (suc n) (drop i names)) (length names)
              (j + suc n))
            (sym (compact-kept junk n i j handle names kept))
            (
              ih.0 ∙ moved ∙ ap (λ r. take j names ++ r) (sym (ahead ∙ keep-kept handle x _ kept)),
              ih.1 ∙ length-set names j x,
              omega (arith, ih.2),
            )
    ]
  where
    x : HandleName
    x = get_or names i junk

    ahead :
        keep handle (take (suc n) (drop i names)) ≡ keep handle (x ∷ take n (drop (i + 1) names))
    ahead = ap (keep handle) (
        take-drop-suc names n i junk (omega arith)
        ∙ (let e : suc i ≡ i + 1 = omega arith in ap (λ k. x ∷ take n (drop k names)) e))

    one_more : take (j + 1) (set names j x) ≡ take j names ++ x ∷ []
    one_more =
        (let e : j + 1 ≡ suc j = omega arith in ap (λ k. take k (set names j x)) e)
        ∙ take-set names j x (omega arith)

    moved :
        take (j + 1) (set names j x) ++ keep handle (take n (drop (i + 1) (set names j x)))
        ≡ take j names ++ (x ∷ keep handle (take n (drop (i + 1) names)))
    moved =
        rw (one_more, drop-set names j (i + 1) x (omega arith))
          (append_assoc (take j names) (x ∷ []) (keep handle (take n (drop (i + 1) names))))
