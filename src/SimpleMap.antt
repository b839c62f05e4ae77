-- ===== src/SimpleMap.antt =====
-- The string comparisons and the simple map of src/include/nxweb/nxweb.h.
pub mod Same
pub mod Compare
pub mod Remove
mod Tests
use nxweb.Base.{
  ℕ, zero, suc, ◌+◌, ◌-◌, Bool, true, false, not, ◌&&◌, ◌||◌, Option, none, some, List, [], ◌∷◌,
  Bytes, ltb, leb, ◌==◌, if◌then◌else◌,
}

-- `nx_tolower`
abbrev pub nx_tolower : ℕ → ℕ
nx_tolower c = if leb b'A' c && leb c b'Z' then c + 32 else c

-- `nx_strtolower`: the characters written before the NUL.
unfoldable pub nx_strtolower : Bytes → Bytes
nx_strtolower [] = []
nx_strtolower (c ∷ s) = nx_tolower c ∷ nx_strtolower s

-- `nx_strcasecmp`: the two characters whose difference is returned; a string ends in a NUL.
unfoldable pub nx_strcasecmp : Bytes → Bytes → ℕ × ℕ
nx_strcasecmp [] [] = (0, 0)
nx_strcasecmp [] (y ∷ t) = (0, nx_tolower y)
nx_strcasecmp (x ∷ s) [] = (nx_tolower x, 0)
nx_strcasecmp (x ∷ s) (y ∷ t) =
    let rest = nx_strcasecmp s t in
    if nx_tolower x == nx_tolower y then rest else (nx_tolower x, nx_tolower y)

-- The loop of `nx_strncasecmp`, which ends where the count is already zero.
unfoldable pub strncasecmp_loop : Bytes → Bytes → ℕ → ℕ × ℕ
strncasecmp_loop [] [] len = (0, 0)
strncasecmp_loop [] (y ∷ t) len = (0, nx_tolower y)
strncasecmp_loop (x ∷ s) [] len = (nx_tolower x, 0)
strncasecmp_loop (x ∷ s) (y ∷ t) len =
    let rest = strncasecmp_loop s t (len - 1) in
    if nx_tolower x == nx_tolower y && not (len == 0) then rest else (nx_tolower x, nx_tolower y)

-- `nx_strncasecmp`
unfoldable pub nx_strncasecmp : Bytes → Bytes → ℕ → ℕ × ℕ
unfolding strncasecmp_loop
nx_strncasecmp s t len = if len == 0 then (0, 0) else strncasecmp_loop s t len

-- The difference is zero.
abbrev pub is_zero : ℕ × ℕ → Bool
is_zero (a, b) = a == b

pub record Entry : Type 0 where
  pub name : Bytes
  pub value : Bytes

-- `nx_simple_map_find` with `strcmp`, and `nx_simple_map_find_nocase` with `nx_strcasecmp`: `same`
-- says that the comparison gives zero.
module _ (same : Bytes → Bytes → Bool) where
  unfoldable pub simple_map_find : List Entry → Bytes → Option Entry
  simple_map_find [] name = none
  simple_map_find (e ∷ map) name = if same e.name name then some e else simple_map_find map name

  -- `nx_simple_map_remove` and `nx_simple_map_remove_nocase`: the entry, and the map.
  unfoldable pub simple_map_remove : List Entry → Bytes → Option (Entry × List Entry)
  simple_map_remove [] name = none
  simple_map_remove (e ∷ map) name =
      let rest = simple_map_remove map name in
      if same e.name name
      then some (e, map)
      else elim rest [ none ↦ none | some (r, map') ↦ some (r, e ∷ map') ]

-- `nx_simple_map_add`
abbrev pub simple_map_add : List Entry → Entry → List Entry
simple_map_add map new_entry = new_entry ∷ map

-- `nx_strcasecmp(a, b) == 0`
unfoldable pub same_nocase : Bytes → Bytes → Bool
unfolding nx_strcasecmp
same_nocase s t = is_zero (nx_strcasecmp s t)

-- `strcmp(a, b) == 0`
unfoldable pub same_case : Bytes → Bytes → Bool
same_case [] [] = true
same_case [] (y ∷ t) = false
same_case (x ∷ s) [] = false
same_case (x ∷ s) (y ∷ t) = x == y && same_case s t
