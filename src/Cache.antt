-- ===== src/Cache.antt =====
-- The response cache of src/lib/cache.c. The hash table and the linked list hold the same records,
-- since each record is entered in both and taken out of both within one section of the mutex: they
-- are one list here, the most recent record first. A record that was taken out while it is
-- referenced is kept apart until its last user lets go of it.
pub mod Eviction
pub mod Sections
pub mod Valid
mod Tests
use nxweb.Base.{
  ℕ, zero, suc, ◌+◌, ◌-◌, ◌%◌, ◌^◌, Bool, true, false, not, ◌&&◌, ◌||◌, Option, none, some, List,
  [], ◌∷◌, ◌++◌, Bytes, ltb, leb, ◌==◌, if◌then◌else◌, length,
}
use nxweb.SimpleMap.{same_case}

-- `nxweb_cache_rec`; its address stands for the pointer.
pub record Rec : Type 0 where
  pub address : ℕ
  pub key : Bytes
  pub content : Bytes
  pub content_type : Option Bytes
  pub content_charset : Option Bytes
  pub expires_time : ℕ
  pub last_modified : ℕ
  pub ref_count : ℕ
  pub gzip_encoded : Bool

-- `ref_count++` on a `uint32_t`
abbrev pub counted_up : ℕ → ℕ
counted_up n = (n + 1) % 2 ^ 32

-- The linked records, from `_nxweb_cache_head` on, and the records that are referenced only.
pub record Cache : Type 0 where
  pub items : List Rec
  pub detached : List Rec

abbrev pub max_cached_items : ℕ
max_cached_items = 500

abbrev pub default_cached_time : ℕ
default_cached_time = 30000000

-- `alignhash_get` by `strcmp`
unfoldable pub find_key : Bytes → List Rec → Option Rec
find_key key [] = none
find_key key (r ∷ rs) = if same_case r.key key then some r else find_key key rs

-- `alignhash_del` and `cache_rec_unlink`
unfoldable pub remove_key : Bytes → List Rec → List Rec
remove_key key [] = []
remove_key key (r ∷ rs) =
    let rest = remove_key key rs in if same_case r.key key then rs else r ∷ rest

-- A field of the record is changed in place.
unfoldable pub replace_key : Bytes → Rec → List Rec → List Rec
replace_key key new [] = []
replace_key key new (r ∷ rs) =
    let rest = replace_key key new rs in if same_case r.key key then new ∷ rs else r ∷ rest

-- From `_nxweb_cache_tail` on, the first record that is not referenced is taken out.
unfoldable pub evict_last : List Rec → Option (List Rec)
evict_last [] = none
evict_last (r ∷ rs) = elim (evict_last rs) [
  | some rs' ↦ some (r ∷ rs')
  | none ↦ if r.ref_count == 0 then some rs else none
]

-- `alignhash_size(_nxweb_cache) > max`, and the record that is taken out then.
unfoldable pub evict_next : ℕ → List Rec → Option (List Rec)
unfolding evict_last
evict_next max items = if ltb max (length items) then evict_last items else none

-- `cache_check_size`, on fuel
unfoldable pub check_size_loop : ℕ → ℕ → List Rec → List Rec
unfolding evict_next
check_size_loop max zero items = items
check_size_loop max (suc fuel) items = elim (evict_next max items) [
  | none ↦ items
  | some items' ↦ check_size_loop max fuel items'
]

-- Each round takes a record out: as many rounds as there are records are enough.
unfoldable pub check_size : ℕ → List Rec → List Rec
unfolding check_size_loop
check_size max items = check_size_loop max (length items) items

-- `cache_rec_unref` on a linked record: one that nobody references any longer goes if it is out of
-- date.
unfoldable pub unref_linked : ℕ → ℕ → List Rec → List Rec
unref_linked now address [] = []
unref_linked now address (r ∷ rs) =
    let rest = unref_linked now address rs in
    let used : Rec = record r { ref_count = r.ref_count - 1 } in
    let left = if used.ref_count == 0 && ltb r.expires_time now then rs else used ∷ rs in
    if r.address == address then left else r ∷ rest

-- `cache_rec_unref` on a record that is not linked.
unfoldable pub unref_detached : ℕ → List Rec → List Rec
unref_detached address [] = []
unref_detached address (r ∷ rs) =
    let rest = unref_detached address rs in
    let used : Rec = record r { ref_count = r.ref_count - 1 } in
    let left = if used.ref_count == 0 then rs else used ∷ rs in
    if r.address == address then left else r ∷ rest

-- `assert(rec->ref_count>0)`, on the record at the address
unfoldable pub is_referenced : ℕ → List Rec → Bool
is_referenced address [] = false
is_referenced address (r ∷ rs) =
    let rest = is_referenced address rs in if r.address == address then ltb 0 r.ref_count else rest

-- `cache_rec_unref`; `none` is the assertion that fails.
unfoldable pub cache_rec_unref : ℕ → ℕ → Cache → Option Cache
unfolding is_referenced check_size unref_linked unref_detached
cache_rec_unref now address c =
    if is_referenced address (c.items ++ c.detached)
    then some (record {
      items = check_size max_cached_items (unref_linked now address c.items);
      detached = unref_detached address c.detached;
    })
    else none

-- What `nxweb_cache_try` answers: NXWEB_OK with the record or as not modified, NXWEB_REVALIDATE,
-- NXWEB_MISS.
pub data Answer : Type 0 where
  hit : Rec → Answer
  not_modified revalidate miss : Answer

-- A key that the cache does not handle.
unfoldable pub is_foreign : Bytes → Bool
is_foreign [] = false
is_foreign (c ∷ s) = c == b' ' || c == b'*'

-- `rec->last_modified == revalidated_mtime`: the record is good for some time more.
unfoldable pub revalidated : ℕ → ℕ → Rec → Rec
revalidated now mtime r =
    if r.last_modified == mtime then record r { expires_time = now + default_cached_time } else r

-- A record that is up to date is moved to the head, and referenced unless the client has it.
unfoldable pub serve : Cache → Bytes → ℕ → Rec → Answer × Cache
unfolding remove_key
serve c key if_modified_since r =
    let rest = remove_key key c.items in
    let used : Rec = record r { ref_count = counted_up r.ref_count } in
    if not (if_modified_since == 0) && leb r.last_modified if_modified_since
    then (not_modified, record c { items = r ∷ rest })
    else (hit used, record c { items = used ∷ rest })

-- A record that is out of date is taken out, and freed if nobody references it.
unfoldable pub forget : Cache → Bytes → Rec → Answer × Cache
unfolding remove_key
forget c key r = (
  miss,
  record {
    items = remove_key key c.items;
    detached = if r.ref_count == 0 then c.detached else r ∷ c.detached;
  },
)

unfoldable pub try_found : Cache → Bytes → ℕ → ℕ → ℕ → Rec → Answer × Cache
unfolding serve forget replace_key
try_found c key now if_modified_since mtime r =
    if leb now r.expires_time
    then serve c key if_modified_since r
    else if mtime == 0
    then (revalidate, record c { items = replace_key key r c.items })
    else forget c key r

unfoldable pub try_by : Cache → Bytes → ℕ → ℕ → ℕ → Bool → Option Rec → Answer × Cache
unfolding try_found revalidated
try_by c key now if_modified_since mtime true found = (miss, c)
try_by c key now if_modified_since mtime false none = (miss, c)
try_by c key now if_modified_since mtime false (some r) =
    try_found c key now if_modified_since mtime (revalidated now mtime r)

-- `nxweb_cache_try`
unfoldable pub cache_try : Cache → Bytes → ℕ → ℕ → ℕ → Answer × Cache
unfolding find_key try_by is_foreign
cache_try c key now if_modified_since mtime =
    try_by c key now if_modified_since mtime (is_foreign key) (find_key key c.items)

unfoldable pub store_by : Cache → Rec → Option Rec → Rec × Cache
unfolding replace_key check_size
store_by c new none =
    let used : Rec = record new { ref_count = 1 } in
    (used, record c { items = check_size max_cached_items (used ∷ c.items) })
store_by c new (some r) =
    let used : Rec = record r { ref_count = counted_up r.ref_count } in
    (used, record c { items = replace_key new.key used c.items })

-- The section of `nxweb_cache_store_response` that enters a new record: if another thread has
-- entered one with the key, that one is used and the new one is freed.
unfoldable pub store_record : Cache → Rec → Rec × Cache
unfolding find_key store_by
store_record c new = store_by c new (find_key new.key c.items)
