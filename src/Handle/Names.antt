-- ===== src/Handle/Names.antt =====
-- skynet/skynet-src/skynet_handle.c: the loops over the sorted array of names.
use Prim.Native.Nat.{compare, Ordering}
use skynet_server.Common.{
  ℕ, zero, suc, ◌+◌, ◌-◌, ◌/◌, Bool, List, [], ◌∷◌, ltb, ◌==◌, if◌then◌else◌, get_or, set,
  replicate, ◌||◌,
}

-- `struct handle_name`
pub record HandleName : Type 0 where
  pub bytes : List ℕ
  pub handle : ℕ

-- `strcmp` on unsigned bytes.
unfoldable pub strcmp : List ℕ → List ℕ → Ordering
strcmp [] [] = Ordering.eq
strcmp [] (y ∷ ys) = Ordering.lt
strcmp (x ∷ xs) [] = Ordering.gt
strcmp (x ∷ xs) (y ∷ ys) = elim (compare x y) [
  | Ordering.lt ↦ Ordering.lt
  | Ordering.eq ↦ strcmp xs ys
  | Ordering.gt ↦ Ordering.gt
]

-- How the binary search ends: `found mid` at `c == 0`, `missing begin` when the range is empty.
pub data Search : Type 0 where
  found : ℕ → Search
  missing : ℕ → Search

-- The binary search of `skynet_handle_findname` and `_insert_name`, on fuel. `past` is `end + 1`,
-- so that `begin <= end` is `begin < past` and `end = mid - 1` is `past = mid`.
unfoldable pub search : HandleName → ℕ → List HandleName → List ℕ → ℕ → ℕ → Search
unfolding strcmp
search junk zero names key begin past = missing begin
search junk (suc fuel) names key begin past =
    let mid = (begin + (past - 1)) / 2 in
    let right = search junk fuel names key (mid + 1) past in
    let left = search junk fuel names key begin mid in
    let probe : Search = elim (strcmp (get_or names mid junk).bytes key) [
      | Ordering.eq ↦ found mid
      | Ordering.lt ↦ right
      | Ordering.gt ↦ left
    ] in
    if ltb begin past then probe else missing begin

-- The loop of `skynet_handle_retire` over the names: cell `i` is kept at `j` unless it has the
-- handle. The cells after the loop, and how many are kept.
unfoldable pub compact : HandleName → ℕ → ℕ → ℕ → ℕ → List HandleName → List HandleName × ℕ
compact junk zero i j handle names = (names, j)
compact junk (suc n) i j handle names =
    let hit = (get_or names i junk).handle == handle in
    compact junk n (i + 1) (if hit then j else j + 1) handle
      (if hit || i == j then names else set names j (get_or names i junk))

-- `for (; n rounds; i++) to[i + shift] = from[i]`
unfoldable pub copy_range :
    HandleName → ℕ → ℕ → ℕ → List HandleName → List HandleName → List HandleName
copy_range junk zero i shift from to = to
copy_range junk (suc n) i shift from to =
    copy_range junk n (i + 1) shift from (set to (i + shift) (get_or from i junk))

-- `for (; n rounds; i--) name[i] = name[i-1]`
unfoldable pub shift_up : HandleName → ℕ → ℕ → List HandleName → List HandleName
shift_up junk zero i names = names
shift_up junk (suc n) i names = shift_up junk n (i - 1) (set names i (get_or names (i - 1) junk))

-- The cells with `entry` at `before`, in a new array of `cap` cells if there was no room.
unfoldable pub insert_cells :
    HandleName → Bool → ℕ → ℕ → ℕ → HandleName → List HandleName → List HandleName
unfolding copy_range shift_up
insert_cells junk growing cap count before entry names =
    let low = copy_range junk before 0 0 names (replicate cap junk) in
    let moved =
      if growing
      then copy_range junk (count - before) before 1 names low
      else shift_up junk (count - before) count names in
    set moved before entry
