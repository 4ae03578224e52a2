-- ===== src/Handle/Order.antt =====
-- `strcmp` orders the names.
use Prim.Native.Nat.{Ordering}
use skynet_server.Common.{ℕ, ◌≡◌, refl, ap, List, [], ◌∷◌, arith, ◌∙◌}
use skynet_server.Handle.Names.{strcmp}

abbrev flip : Ordering → Ordering
flip Ordering.lt = Ordering.gt
flip Ordering.eq = Ordering.eq
flip Ordering.gt = Ordering.lt

pub strcmp_self : (xs : List ℕ) → strcmp xs xs ≡ Ordering.eq
unfolding strcmp
strcmp_self [] = refl
strcmp_self (x ∷ xs) = ground (arith, strcmp_self xs)

pub eq_of_strcmp : (xs ys : List ℕ) → strcmp xs ys ≡ Ordering.eq → xs ≡ ys
unfolding strcmp
eq_of_strcmp [] [] e = refl
eq_of_strcmp [] (y ∷ ys) e = cc
eq_of_strcmp (x ∷ xs) [] e = cc
eq_of_strcmp (x ∷ xs) (y ∷ ys) e = ground (arith, eq_of_strcmp xs ys)

strcmp-flip : (xs ys : List ℕ) → strcmp ys xs ≡ flip (strcmp xs ys)
unfolding strcmp
strcmp-flip [] [] = refl
strcmp-flip [] (y ∷ ys) = refl
strcmp-flip (x ∷ xs) [] = refl
strcmp-flip (x ∷ xs) (y ∷ ys) = ground (arith, strcmp-flip xs ys)

pub gt_of_lt : (xs ys : List ℕ) → strcmp xs ys ≡ Ordering.lt → strcmp ys xs ≡ Ordering.gt
gt_of_lt xs ys e = strcmp-flip xs ys ∙ ap flip e

pub lt_of_gt : (xs ys : List ℕ) → strcmp xs ys ≡ Ordering.gt → strcmp ys xs ≡ Ordering.lt
lt_of_gt xs ys e = strcmp-flip xs ys ∙ ap flip e

pub strcmp_trans :
    (xs ys zs : List ℕ)
    → strcmp xs ys ≡ Ordering.lt
    → strcmp ys zs ≡ Ordering.lt
    → strcmp xs zs ≡ Ordering.lt
unfolding strcmp
strcmp_trans [] [] zs p q = cc
strcmp_trans [] (y ∷ ys) [] p q = cc
strcmp_trans [] (y ∷ ys) (z ∷ zs) p q = refl
strcmp_trans (x ∷ xs) [] zs p q = cc
strcmp_trans (x ∷ xs) (y ∷ ys) [] p q = cc
strcmp_trans (x ∷ xs) (y ∷ ys) (z ∷ zs) p q = ground (arith, strcmp_trans xs ys zs)
