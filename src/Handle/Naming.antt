-- ===== src/Handle/Naming.antt =====
-- `skynet_handle_namehandle`: the names stay sorted, and each keeps its handle.
use skynet_server.Handle.Names.{HandleName, Search, found, missing, search, insert_cells}
use skynet_server.Handle.{Storage, findname, namehandle, insert_name_before, max_slot_size}
use skynet_server.Handle.Lookup.{
  Sorted, key_at, Outcome, search_all-Outcome, findname_at, findname_missing, search_all,
}
use skynet_server.Handle.Insert.{Inserted, insert_cells-Inserted}
use skynet_server.Handle.Retire.{HasNames}
use skynet_server.Common.{
  List, ℕ, if◌then◌else◌, ◌*◌, ◌≤◌, leb, ◌<◌, ◌≡◌, get_or, some, ◌+◌, ◌-◌, ap, arith, ◌∙◌, dec_lt,
  ◌||◌, ltb, ℕ_discrete, true, false, ◌≢◌, refl, Option, sym, Bool,
}
use skynet_server.Handle.Order.{lt_of_gt, strcmp_self}
use skynet_server.Common.Options.{◌>>=◌}

module _ (junk : HandleName) (key : List ℕ) (handle : ℕ) (s : Storage) where
  abbrev entry : HandleName
  entry = record { bytes = key; handle = handle }

  -- The table with the name at `p`.
  abbrev named : ℕ → Storage
  named p =
      let cap = if leb s.name_cap s.name_count then s.name_cap * 2 else s.name_cap in
      record s {
        name_cap = cap;
        name_count = s.name_count + 1;
        name = insert_cells junk (leb s.name_cap s.name_count) cap s.name_count p entry s.name;
      }

  named-Inserted :
      (p : ℕ)
      → HasNames s
      → p ≤ s.name_count
      → Inserted junk s.name_count p (named p).name_cap entry s.name (named p).name
  named-Inserted p v le =
      insert_cells-Inserted junk (leb s.name_cap s.name_count) (named p).name_cap s.name_count p
        entry s.name le (ground arith) (λ e. rw e v.room)

  insert_before :
      (p : ℕ)
      → HasNames s
      → s.name_cap * 2 ≤ max_slot_size
      → insert_name_before junk key handle p s ≡ some (named p)
  unfolding insert_name_before
  insert_before p v fits = rw guard
    where
      guard :
          (leb (if leb s.name_cap s.name_count then s.name_cap * 2 else s.name_cap) max_slot_size
            || ltb s.name_count s.name_cap)
          ≡ true
      guard = ground arith

  high_names :
      (p i : ℕ)
      → HasNames s
      → p ≤ s.name_count
      → p < i
      → i ≤ s.name_count
      → key_at junk (named p).name i ≡ key_at junk s.name (i - 1)
  high_names p i v le a b =
      ap (key_at junk (named p).name) (let e : i ≡ i - 1 + 1 = omega arith in e)
      ∙ ap (λ n. n.bytes) ((named-Inserted p v le).high (i - 1) (omega arith) (omega arith))

  -- The place found by the search keeps the names sorted.
  named-Sorted :
      (p : ℕ)
      → HasNames s
      → Sorted junk s.name s.name_count
      → Outcome junk s.name s.name_count key (missing p)
      → Sorted junk (named p).name (named p).name_count
  named-Sorted p v sorted (le, below, above) i j lt last = elim (dec_lt j p) [
    | yes jp ↦ rw (low i (omega arith), low j jp) (sorted i j lt (omega arith))
    | no jp ↦ elim (ℕ_discrete j p) [
      | yes same ↦ rw (same, here, low i (omega arith)) (below i (omega arith))
      | no ne ↦ elim (dec_lt i p) [
        | yes ip ↦
            rw (low i ip, high j (omega arith)) (sorted i (j - 1) (omega arith) (omega arith))
        | no ip ↦ elim (ℕ_discrete i p) [
          | yes at_p ↦
              rw (at_p, here, high j (omega arith))
                (lt_of_gt (key_at junk s.name (j - 1)) key
                  (above (j - 1) (omega arith) (omega arith)))
          | no past ↦
              rw (high i (omega arith), high j (omega arith))
                (sorted (i - 1) (j - 1) (omega arith) (omega arith))
        ]
      ]
    ]
  ]
    where
      low : (k : ℕ) → k < p → key_at junk (named p).name k ≡ key_at junk s.name k
      low k lt = ap (λ n. n.bytes) ((named-Inserted p v le).low k lt)

      here : key_at junk (named p).name p ≡ key
      here = ap (λ n. n.bytes) (named-Inserted p v le).here

      high :
          (k : ℕ)
          → (p < k) × (k ≤ s.name_count)
          → key_at junk (named p).name k ≡ key_at junk s.name (k - 1)
      high k (a, b) = high_names p k v le a b

  named-HasNames : (p : ℕ) → HasNames s → p ≤ s.name_count → HasNames (named p)
  named-HasNames p v le = record {
    room = (named-Inserted p v le).room;
    within = ground arith;
    cap_pos = ground arith;
  }

  -- A search that finds no place returns the place where the name belongs.
  new_place :
      ((i : ℕ) → i < s.name_count → key_at junk s.name i ≢ key)
      → (r : Search) → Outcome junk s.name s.name_count key r
      → (p : ℕ) × (r ≡ missing p) × Outcome junk s.name s.name_count key (missing p)
  new_place fresh (found mid) (a, e) = absurd (fresh mid a e)
  new_place fresh (missing p) o = (p, refl, o)

  -- Every other name keeps its handle, and a name that was not there is not there now.
  other_names :
      (p : ℕ)
      → HasNames s
      → (sorted : Sorted junk s.name s.name_count)
      → Outcome junk s.name s.name_count key (missing p)
      → (other : List ℕ) → other ≢ key
      → findname junk (named p) other ≡ findname junk s other
  other_names p v sorted o other ne =
      answer (search_all junk s sorted other) (search_all-Outcome junk s sorted other)
    where
      sorted' : Sorted junk (named p).name (named p).name_count
      sorted' = named-Sorted p v sorted o

      cells : Inserted junk s.name_count p (named p).name_cap entry s.name (named p).name
      cells = named-Inserted p v o.0

      answer :
          (r : Search)
          → Outcome junk s.name s.name_count other r
          → findname junk (named p) other ≡ findname junk s other
      answer (found i) (a, e) =
          ap (findname junk (named p)) (sym e)
          ∙ moved
          ∙ sym (findname_at junk s sorted i a)
          ∙ ap (findname junk s) e
        where
          moved : findname junk (named p) (key_at junk s.name i) ≡ (get_or s.name i junk).handle
          moved = elim (dec_lt i p) [
            | yes lt ↦
                ap (λ n. findname junk (named p) n.bytes) (sym (cells.low i lt))
                ∙ findname_at junk (named p) sorted' i (omega arith)
                ∙ ap (λ n. n.handle) (cells.low i lt)
            | no ge ↦
                ap (λ n. findname junk (named p) n.bytes) (sym (cells.high i (omega arith) a))
                ∙ findname_at junk (named p) sorted' (i + 1) (omega arith)
                ∙ ap (λ n. n.handle) (cells.high i (omega arith) a)
          ]
      answer (missing q) (le, below, above) =
          findname_missing junk (named p) sorted' other new_out
          ∙ sym (findname_missing junk s sorted other old_out)
        where
          old_out : (i : ℕ) → i < s.name_count → key_at junk s.name i ≢ other
          old_out i lt e = elim (dec_lt i q) [
            | yes b ↦ cc (below i b, e, strcmp_self other)
            | no b ↦ cc (above i (omega arith) lt, e, strcmp_self other)
          ]

          new_out : (i : ℕ) → i < (named p).name_count → key_at junk (named p).name i ≢ other
          new_out i lt e = elim (dec_lt i p) [
            | yes b ↦ old_out i (omega (arith, o.0)) (sym (ap (λ n. n.bytes) (cells.low i b)) ∙ e)
            | no b ↦ elim (ℕ_discrete i p) [
              | yes same ↦
                  ne (sym e ∙ ap (key_at junk (named p).name) same ∙ ap (λ n. n.bytes) cells.here)
              | no past ↦
                  old_out (i - 1) (omega arith)
                    (sym (high_names p i v o.0 (omega arith) (omega arith)) ∙ e)
            ]
          ]

  namehandle-missing :
      (p : ℕ)
      → search junk s.name_count s.name key 0 s.name_count ≡ missing p
      → namehandle junk handle key s
        ≡ (insert_name_before junk key handle p s >>= λ s'. some (true, s'))
  unfolding namehandle
  namehandle-missing p e = ap result e
    where
      result : Search → Option (Bool × Storage)
      result (found mid) = some (false, s)
      result (missing begin) = insert_name_before junk key handle begin s >>= λ s'. some (true, s')

  -- While the array may double, `skynet_handle_namehandle` of a name that is not in a sorted table
  -- succeeds, and enters it with the handle. Every other name keeps its handle, and the names are
  -- sorted and have room afterwards.
  pub namehandle_new :
      HasNames s
      → Sorted junk s.name s.name_count
      → s.name_cap * 2 ≤ max_slot_size
      → ((i : ℕ) → i < s.name_count → key_at junk s.name i ≢ key)
      → (s' : Storage) × (namehandle junk handle key s ≡ some (true, s'))
        × Sorted junk s'.name s'.name_count
        × HasNames s'
        × (findname junk s' key ≡ handle)
        × ((other : List ℕ) → other ≢ key → findname junk s' other ≡ findname junk s other)
  namehandle_new v sorted fits fresh =
      let (p, e, o) =
        new_place fresh (search_all junk s sorted key) (search_all-Outcome junk s sorted key) in
      (
        named p,
        namehandle-missing p e ∙ ap (λ t. t >>= λ s'. some (true, s')) (insert_before p v fits),
        named-Sorted p v sorted o,
        named-HasNames p v o.0,
        ap (findname junk (named p)) (sym (ap (λ n. n.bytes) (named-Inserted p v o.0).here))
            ∙ findname_at junk (named p) (named-Sorted p v sorted o) p (omega (arith, o.0))
            ∙ ap (λ n. n.handle) (named-Inserted p v o.0).here,
        other_names p v sorted o,
      )

  -- `skynet_handle_namehandle` of a name that is in a sorted table returns NULL and changes
  -- nothing.
  pub namehandle_taken :
      Sorted junk s.name s.name_count
      → (i : ℕ) → i < s.name_count
      → key_at junk s.name i ≡ key
      → namehandle junk handle key s ≡ some (false, s)
  unfolding namehandle
  namehandle_taken sorted i lt e =
      answer (search_all junk s sorted key) (search_all-Outcome junk s sorted key)
    where
      answer :
          (r : Search)
          → Outcome junk s.name s.name_count key r
          → ◌≡◌ {A = Option (Bool × Storage)}
              (elim r [
                | found mid ↦ some (false, s)
                | missing begin ↦
                    insert_name_before junk key handle begin s >>= λ s'. some (true, s')
              ])
              (some (false, s))
      answer (found mid) o = refl
      answer (missing p) (a, below, above) = elim (dec_lt i p) [
        | yes b ↦ cc (below i b, e, strcmp_self key)
        | no b ↦ cc (above i (omega arith) lt, e, strcmp_self key)
      ]
