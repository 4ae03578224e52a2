-- ===== src/Handle.antt =====
-- skynet/skynet-src/skynet_handle.c: the table of services by handle, and the table of names.
-- Each function is one critical section of the table's lock. A context pointer is a number, and
-- `handle_of` reads the field `handle` of the contexts in memory. `none` is a failed assert or a
-- read through NULL. A name is its bytes, without the terminating 0.
pub mod Names
pub mod Slots
pub mod Rehash
pub mod Register
pub mod Fresh
pub mod Wrap
pub mod Compact
pub mod Retire
pub mod Order
pub mod Lookup
pub mod Insert
pub mod Naming
mod Tests
use Prim.Native.Nat.{bit_and, bit_or}
use skynet_server.Common.{
  ℕ, zero, suc, ◌+◌, ◌-◌, ◌*◌, ◌%◌, ◌^◌, Bool, true, false, ◌&&◌, Option, none, some, List, [], ◌∷◌,
  ltb, leb, ◌==◌, if◌then◌else◌, get_or, set, replicate, ◌||◌,
}
use skynet_server.Common.Options.{◌>>=◌, ◌>>◌, assert, is_none}
use skynet_server.Handle.Names.{HandleName, Search, found, missing, search, compact, insert_cells}

abbrev pub handle_mask : ℕ
handle_mask = 0xffffff

abbrev pub default_slot_size : ℕ
default_slot_size = 4

abbrev pub max_slot_size : ℕ
max_slot_size = 0x40000000

-- `struct handle_storage`. `slot` has `slot_size` cells and `name` has `name_cap`.
pub record Storage : Type 0 where
  pub harbor : ℕ
  pub handle_index : ℕ
  pub slot_size : ℕ
  pub slot : List (Option ℕ)
  pub name_cap : ℕ
  pub name_count : ℕ
  pub name : List HandleName

-- `skynet_handle_init`; `junk` is what the memory of the names holds, and `harbor` the 32 bits of
-- the argument.
unfoldable pub init : HandleName → ℕ → Storage
init junk harbor = record {
  harbor = bit_and harbor 0xff * 2 ^ 24 % 2 ^ 32;
  handle_index = 1;
  slot_size = default_slot_size;
  slot = replicate default_slot_size none;
  name_cap = 2;
  name_count = 0;
  name = replicate 2 junk;
}

abbrev pub slot_at : Storage → ℕ → Option ℕ
slot_at s i = get_or s.slot i none

-- `handle & (s->slot_size-1)`
abbrev pub hash : Storage → ℕ → ℕ
hash s handle = bit_and handle (s.slot_size - 1)

-- `if (handle > HANDLE_MASK) handle = 1`
abbrev pub wrap : ℕ → ℕ
wrap handle = if ltb handle_mask handle then 1 else handle

-- The inner loop of `skynet_handle_register`, with the rounds that are left: the first handle from
-- `handle` on whose slot is free.
unfoldable pub scan : ℕ → Storage → ℕ → Option ℕ
scan zero s handle = none
scan (suc n) s handle =
    let rest = scan n s (wrap handle + 1) in
    if is_none (slot_at s (hash s (wrap handle))) then some (wrap handle) else rest

-- The loop that moves the contexts to the table of twice the size, from slot `i` on.
unfoldable pub rehash : ℕ → (ℕ → ℕ) → Storage → ℕ → List (Option ℕ) → Option (List (Option ℕ))
rehash zero handle_of s i new_slot = some new_slot
rehash (suc n) handle_of s i new_slot = do
  ctx ← slot_at s i
  let h = bit_and (handle_of ctx) (s.slot_size * 2 - 1)
  assert (is_none (get_or new_slot h none))
  rehash n handle_of s (i + 1) (set new_slot h (some ctx))

unfoldable pub grow : (ℕ → ℕ) → Storage → Option Storage
unfolding rehash
grow handle_of s = do
  assert (leb (s.slot_size * 2 - 1) handle_mask)
  new_slot ← rehash s.slot_size handle_of s 0 (replicate (s.slot_size * 2) none)
  some (record s { slot = new_slot; slot_size = s.slot_size * 2 })

abbrev pub take_slot : ℕ → ℕ → Storage → ℕ × Storage
take_slot ctx handle s = (
  bit_or handle s.harbor,
  record s { slot = set s.slot (hash s handle) (some ctx); handle_index = handle + 1 },
)

-- `skynet_handle_register`: the loop `for (;;)` on fuel. One round scans, and another follows only
-- when the table has doubled.
unfoldable pub register : ℕ → (ℕ → ℕ) → ℕ → Storage → Option (ℕ × Storage)
unfolding scan grow
register zero handle_of ctx s = none
register (suc fuel) handle_of ctx s = elim (scan s.slot_size s s.handle_index) [
  | some handle ↦ some (take_slot ctx handle s)
  | none ↦ grow handle_of s >>= register fuel handle_of ctx
]

-- Whether `ctx != NULL && skynet_context_handle(ctx) == handle`, and then `ctx`.
abbrev pub match_handle : (ℕ → ℕ) → ℕ → Option ℕ → Option ℕ
match_handle handle_of handle none = none
match_handle handle_of handle (some ctx) = if handle_of ctx == handle then some ctx else none

-- `skynet_handle_grab`, without the reference that it counts.
unfoldable pub grab : (ℕ → ℕ) → Storage → ℕ → Option ℕ
grab handle_of s handle = match_handle handle_of handle (slot_at s (hash s handle))

-- The names that are left, in `skynet_handle_retire`.
abbrev pub drop_names : HandleName → ℕ → Storage → Storage
drop_names junk handle s =
    let (cells, n) = compact junk s.name_count 0 0 handle s.name in
    record s { name = cells; name_count = n }

-- `skynet_handle_retire`: the context that is released after the lock, if there is one, which is
-- also when 1 is returned.
unfoldable pub retire : HandleName → (ℕ → ℕ) → ℕ → Storage → Option ℕ × Storage
retire junk handle_of handle s = elim (grab handle_of s handle) [
  | none ↦ (none, s)
  | some ctx ↦
      (some ctx, drop_names junk handle (record s { slot = set s.slot (hash s handle) none }))
]

-- The inner loop of `skynet_handle_retireall`: how many were retired, from slot `i` on.
abbrev handle_at : (ℕ → ℕ) → Option ℕ → ℕ
handle_at handle_of none = 0
handle_at handle_of (some ctx) = handle_of ctx

abbrev retire_slot : HandleName → (ℕ → ℕ) → ℕ → Storage → Option ℕ × Storage
retire_slot junk handle_of handle s =
    if handle == 0 then (none, s) else retire junk handle_of handle s

unfoldable pub retire_pass : HandleName → ℕ → (ℕ → ℕ) → ℕ → ℕ × Storage → ℕ × Storage
retire_pass junk zero handle_of i (n, s) = (n, s)
retire_pass junk (suc k) handle_of i (n, s) =
    let (ctx, s') = retire_slot junk handle_of (handle_at handle_of (slot_at s i)) s in
    retire_pass junk k handle_of (i + 1) (if is_none ctx then n else n + 1, s')

-- `skynet_handle_retireall` on fuel; `none` means that the fuel ran out.
unfoldable pub retire_all : HandleName → ℕ → (ℕ → ℕ) → Storage → Option Storage
retire_all junk zero handle_of s = none
retire_all junk (suc fuel) handle_of s =
    let (n, s') = retire_pass junk s.slot_size handle_of 0 (0, s) in
    let again = retire_all junk fuel handle_of s' in if n == 0 then some s' else again

-- `skynet_handle_findname`: 0 stands for a name that is not there.
unfoldable pub findname : HandleName → Storage → List ℕ → ℕ
findname junk s key = elim (search junk s.name_count s.name key 0 s.name_count) [
  | found mid ↦ (get_or s.name mid junk).handle
  | missing begin ↦ 0
]

-- `_insert_name_before`, and `skynet_handle_namehandle`: NULL for a name that is there already.
unfoldable pub insert_name_before : HandleName → List ℕ → ℕ → ℕ → Storage → Option Storage
insert_name_before junk key handle before s =
    let cap = if leb s.name_cap s.name_count then s.name_cap * 2 else s.name_cap in
    do
      assert (leb cap max_slot_size || ltb s.name_count s.name_cap)
      some (record s {
        name_cap = cap;
        name_count = s.name_count + 1;
        name =
            insert_cells junk (leb s.name_cap s.name_count) cap s.name_count before
              (record { bytes = key; handle = handle }) s.name;
      })

unfoldable pub namehandle : HandleName → ℕ → List ℕ → Storage → Option (Bool × Storage)
namehandle junk handle key s = elim (search junk s.name_count s.name key 0 s.name_count) [
  | found mid ↦ some (false, s)
  | missing begin ↦ insert_name_before junk key handle begin s >>= λ s'. some (true, s')
]
