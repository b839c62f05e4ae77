-- ===== src/UriPath.antt =====
-- `nxweb_remove_dots_from_uri_path` of src/lib/http_utils.c, which rewrites a path in place.
-- The memory from `path` on is cut at the two pointers: the bytes before `dst`, the last one first,
-- the bytes from `dst` to `src`, and those from `src` on, as far as they may be read.
pub mod Names
mod Rounds
pub mod Resolve
pub mod Faults
mod Tests
use nxweb.Base.{
  ℕ, zero, suc, ◌+◌, ◌≤◌, Bool, true, false, not, ◌&&◌, ◌||◌, Option, none, some, List, [], ◌∷◌,
  ◌++◌, Bytes, ◌==◌, if◌then◌else◌, length, drop, arith,
}
use mathlib.Core.List.{reverse}

pub record Spot : Type 0 where
  pub out : Bytes
  pub gap : Bytes
  pub rest : Bytes

abbrev pub slash : ℕ
slash = b'/'

abbrev pub dot : ℕ
dot = b'.'

-- The memory, and the C string that stands in it.
abbrev pub memory : Spot → Bytes
memory k = reverse k.out ++ (k.gap ++ k.rest)

unfoldable pub c_string : Bytes → Bytes
c_string [] = []
c_string (c ∷ s) = if c == 0 then [] else c ∷ c_string s

-- `return 0`, with the memory; `return -1`; an access outside the memory; and, of the model alone,
-- rounds left to make.
pub data Outcome : Type 0 where
  done : Bytes → Outcome
  invalid : Outcome
  fault : Outcome
  unfinished : Outcome

-- `*dst++ = *src++`, at the byte `c` with `rest` behind it
abbrev pub put : Spot → ℕ → Bytes → Spot
put k c rest = record { out = c ∷ k.out; gap = drop 1 (k.gap ++ (c ∷ [])); rest = rest }

-- `while (*src && *src != '/') *dst++ = *src++; if (!(*dst++ = *src++)) break;`
-- The Boolean says that the NUL was copied.
unfoldable pub copy_rest : Spot → Bytes → Option (Bool × Spot)
copy_rest k [] = none
copy_rest k (c ∷ s) =
    let further = copy_rest (put k c s) s in
    if c == 0
    then some (true, put k c s)
    else (if c == slash then some (false, put k c s) else further)

-- `while ((--dst)[-1] != '/');` on the bytes before `dst` and those behind it
unfoldable pub back : Bytes → Bytes → Option (Bytes × Bytes)
back [] gap = none
back (x ∷ []) gap = none
back (x ∷ y ∷ out) gap =
    let further = back (y ∷ out) (x ∷ gap) in
    if y == slash then some (y ∷ out, x ∷ gap) else further

-- What the round does at a segment that begins with the byte `c`: bytes to skip, with what stands
-- behind them; a step up, the same way; a segment to copy; or a read outside the memory.
pub data Move : Type 0 where
  skip_to : Bytes → Bytes → Move
  climb_to : Bytes → Bytes → Move
  copy : Move
  outside : Move

-- `case '.'` of the switch: `src[2]` is read.
unfoldable pub second_dot : Bytes → Move
second_dot [] = outside
second_dot (c ∷ s) = if c == slash || c == 0 then climb_to (dot ∷ dot ∷ c ∷ []) s else copy

-- The switch on `src[1]`, behind a dot.
unfoldable pub first_dot : Bytes → Move
unfolding second_dot
first_dot [] = outside
first_dot (c ∷ s) =
    if c == slash
    then skip_to (dot ∷ c ∷ []) s
    else if c == 0
    then skip_to (dot ∷ []) (c ∷ s)
    else if c == dot
    then second_dot s
    else copy

unfoldable pub segment_move : ℕ → Bytes → Move
unfolding first_dot
segment_move c s =
    if c == slash then skip_to (c ∷ []) s else (if c == dot then first_dot s else copy)

abbrev skip_by : Spot → Bytes → Bytes → Spot
skip_by k skipped rest = record k { gap = k.gap ++ skipped; rest = rest }

-- A step up from below the root, behind the bytes of the two dots.
unfoldable pub climb : Spot → Bytes → Bytes → Option Spot
unfolding back
climb k skipped rest = elim (back k.out (k.gap ++ skipped)) [
  | none ↦ none
  | some (out, gap) ↦ some (record { out = out; gap = gap; rest = rest })
]

-- `while (*src) …`
unfoldable pub remove_loop : ℕ → Spot → Outcome
remove_loop zero k = unfinished
remove_loop (suc n) k = elim k.rest [
  | [] ↦ fault
  | c ∷ s ↦ elim (c == 0) [
    | true ↦ done (memory k)
    | false ↦ elim (segment_move c s) [
      | skip_to skipped t ↦ remove_loop n (skip_by k skipped t)
      | climb_to skipped t ↦ elim (length k.out == 1) [
        | true ↦ invalid
        | false ↦ elim (climb k skipped t) [ none ↦ fault | some k' ↦ remove_loop n k' ]
      ]
      | copy ↦ elim (copy_rest (put k c s) s) [
        | none ↦ fault
        | some (ended, k') ↦ elim ended [ true ↦ done (memory k') | false ↦ remove_loop n k' ]
      ]
      | outside ↦ fault
    ]
  ]
]

-- Each round moves `src` on: as many rounds as there is memory are enough.
unfoldable pub remove_dots : Bytes → Outcome
unfolding remove_loop segment_move climb copy_rest
remove_dots [] = fault
remove_dots (c ∷ s) =
    if c == 0
    then done (c ∷ s)
    else if c == slash
    then remove_loop (suc (length s)) (record { out = c ∷ []; gap = []; rest = s })
    else invalid
