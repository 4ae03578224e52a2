-- ===== src/Handle/Insert.antt =====
-- `_insert_name` and `skynet_handle_namehandle`: the names stay sorted, and each keeps its handle.
use skynet_server.Common.{
  ℕ, zero, suc, ◌+◌, ◌≤◌, ◌<◌, ◌≡◌, refl, ap, List, arith, get_or, set, length, Bool, ℕ_discrete,
  ◌-◌, ◌∙◌, ◌⊎◌, false, inl, inr, length-set, get_or-set_ne, get_or-set_self, replicate, sym,
  length-replicate, true,
}
use skynet_server.Handle.Names.{HandleName, copy_range, shift_up, insert_cells}

-- The loops, cell by cell.
copy_range-length :
    (junk : HandleName) (n i shift : ℕ) (from to : List HandleName)
    → length (copy_range junk n i shift from to) ≡ length to
unfolding copy_range
copy_range-length junk zero i shift from to = refl
copy_range-length junk (suc n) i shift from to =
    copy_range-length junk n (i + 1) shift from (set to (i + shift) (get_or from i junk))
    ∙ length-set to (i + shift) (get_or from i junk)

-- A cell outside the range keeps what it held.
copy_range-outside :
    (junk : HandleName) (n i shift k : ℕ) (from to : List HandleName)
    → (k < i + shift) ⊎ (i + n + shift ≤ k)
    → get_or (copy_range junk n i shift from to) k junk ≡ get_or to k junk
unfolding copy_range
copy_range-outside junk zero i shift k from to h = refl
copy_range-outside junk (suc n) i shift k from to h =
    copy_range-outside junk n (i + 1) shift k from (set to (i + shift) (get_or from i junk))
      (elim h [ inl lt ↦ inl (omega arith) | inr ge ↦ inr (omega arith) ])
    ∙ get_or-set_ne to (i + shift) k (get_or from i junk) junk (omega arith)

-- A cell in the range holds its copy.
copy_range-inside :
    (junk : HandleName) (n i shift k : ℕ) (from to : List HandleName)
    → i ≤ k
    → k < i + n
    → i + n + shift ≤ length to
    → get_or (copy_range junk n i shift from to) (k + shift) junk ≡ get_or from k junk
unfolding copy_range
copy_range-inside junk zero i shift k from to p q r = absurd (omega arith)
copy_range-inside junk (suc n) i shift k from to p q r = elim (ℕ_discrete i k) [
  | yes same ↦
      copy_range-outside junk n (i + 1) shift (k + shift) from next (inl (omega arith))
      ∙ ap (λ j. get_or next (j + shift) junk) (sym same)
      ∙ get_or-set_self to (i + shift) (get_or from i junk) junk (omega arith)
      ∙ ap (λ j. get_or from j junk) same
  | no ne ↦
      copy_range-inside junk n (i + 1) shift k from next (omega arith) (omega arith)
        (omega (arith, length-set to (i + shift) (get_or from i junk)))
]
  where
    next : List HandleName
    next = set to (i + shift) (get_or from i junk)

shift_up-length :
    (junk : HandleName) (n i : ℕ) (names : List HandleName)
    → length (shift_up junk n i names) ≡ length names
unfolding shift_up
shift_up-length junk zero i names = refl
shift_up-length junk (suc n) i names =
    shift_up-length junk n (i - 1) (set names i (get_or names (i - 1) junk))
    ∙ length-set names i (get_or names (i - 1) junk)

shift_up-outside :
    (junk : HandleName) (n i k : ℕ) (names : List HandleName)
    → n ≤ i
    → (k + n ≤ i) ⊎ (i < k)
    → get_or (shift_up junk n i names) k junk ≡ get_or names k junk
unfolding shift_up
shift_up-outside junk zero i k names p h = refl
shift_up-outside junk (suc n) i k names p h =
    shift_up-outside junk n (i - 1) k (set names i (get_or names (i - 1) junk)) (omega arith)
      (elim h [ inl le ↦ inl (omega arith) | inr gt ↦ inr (omega arith) ])
    ∙ get_or-set_ne names i k (get_or names (i - 1) junk) junk (omega arith)

shift_up-inside :
    (junk : HandleName) (n i k : ℕ) (names : List HandleName)
    → n ≤ i
    → i < length names
    → i ≤ k + n
    → k < i
    → get_or (shift_up junk n i names) (k + 1) junk ≡ get_or names k junk
unfolding shift_up
shift_up-inside junk zero i k names p q r lt = absurd (omega arith)
shift_up-inside junk (suc n) i k names p q r lt = elim (ℕ_discrete (k + 1) i) [
  | yes same ↦
      shift_up-outside junk n (i - 1) (k + 1) next (omega arith) (inr (omega arith))
      ∙ ap (λ j. get_or next j junk) same
      ∙ get_or-set_self names i (get_or names (i - 1) junk) junk q
      ∙ ap (λ j. get_or names j junk) (let e : i - 1 ≡ k = omega arith in e)
  | no ne ↦
      shift_up-inside junk n (i - 1) k next (omega arith)
        (omega (arith, length-set names i (get_or names (i - 1) junk))) (omega arith) (omega arith)
      ∙ get_or-set_ne names i k (get_or names (i - 1) junk) junk (omega arith)
]
  where
    next : List HandleName
    next = set names i (get_or names (i - 1) junk)

-- The array with one more name at `before`: the smaller names stay and the greater move up.
pub record Inserted (junk : HandleName) (count before cap : ℕ) (entry : HandleName)
    (names cells : List HandleName) : Type 0 where
  pub room : length cells ≡ cap
  pub low : (k : ℕ) → k < before → get_or cells k junk ≡ get_or names k junk
  pub here : get_or cells before junk ≡ entry
  pub high : (k : ℕ) → before ≤ k → k < count → get_or cells (k + 1) junk ≡ get_or names k junk

pub insert_cells-Inserted :
    (junk : HandleName) (growing : Bool) (cap count before : ℕ) (entry : HandleName)
    (names : List HandleName)
    → before ≤ count
    → count < cap
    → (growing ≡ false → length names ≡ cap)
    → Inserted junk count before cap entry names
        (insert_cells junk growing cap count before entry names)
unfolding insert_cells
insert_cells-Inserted junk true cap count before entry names p q r = record {
  room = length-set moved before entry ∙ space;
  low = λ k lt.
      get_or-set_ne moved before k entry junk (omega arith)
      ∙ copy_range-outside junk (count - before) before 1 k names low (inl (omega arith))
      ∙ ap (λ j. get_or low j junk) (let e : k ≡ k + 0 = omega arith in e)
      ∙ copy_range-inside junk before 0 0 k names (replicate cap junk) (omega arith) (omega arith)
          (omega (arith, length-replicate cap junk));
  here = get_or-set_self moved before entry junk (omega (arith, space));
  high = λ k a b.
      get_or-set_ne moved before (k + 1) entry junk (omega arith)
      ∙ copy_range-inside junk (count - before) before 1 k names low a (omega arith)
          (omega (arith, low_space));
}
  where
    low : List HandleName
    low = copy_range junk before 0 0 names (replicate cap junk)

    moved : List HandleName
    moved = copy_range junk (count - before) before 1 names low

    low_space : length low ≡ cap
    low_space =
        copy_range-length junk before 0 0 names (replicate cap junk) ∙ length-replicate cap junk

    space : length moved ≡ cap
    space = copy_range-length junk (count - before) before 1 names low ∙ low_space
insert_cells-Inserted junk false cap count before entry names p q r = record {
  room = length-set moved before entry ∙ space;
  low = λ k lt.
      get_or-set_ne moved before k entry junk (omega arith)
      ∙ shift_up-outside junk (count - before) count k names (omega arith) (inl (omega arith));
  here = get_or-set_self moved before entry junk (omega (arith, space));
  high = λ k a b.
      get_or-set_ne moved before (k + 1) entry junk (omega arith)
      ∙ shift_up-inside junk (count - before) count k names (omega arith) (omega (arith, r refl))
          (omega arith) b;
}
  where
    moved : List HandleName
    moved = shift_up junk (count - before) count names

    space : length moved ≡ cap
    space = shift_up-length junk (count - before) count names ∙ r refl
