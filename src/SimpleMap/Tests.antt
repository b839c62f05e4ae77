-- ===== src/SimpleMap/Tests.antt =====
-- The comparisons and the simple map of src/include/nxweb/nxweb.h, run.
use nxweb.Base.{ℕ, ◌≡◌, ◌<◌, refl, false, some, List, [], ◌∷◌, codes, IsText, arith}
use nxweb.SimpleMap.{
  Entry, nx_strncasecmp, is_zero, same_case, same_nocase, simple_map_find, simple_map_remove,
}
use nxweb.SimpleMap.Remove.{IsRemoved, simple_map_remove-IsRemoved}

letters :
    (a b c : ℕ) → 0 < a → a < 256 → 0 < b → b < 256 → 0 < c → c < 256 → IsText (a ∷ b ∷ c ∷ [])
letters a b c a0 a1 b0 b1 c0 c1 = ((a0, a1), ((b0, b1), ((c0, c1), _)))

upper-IsText : IsText (codes "ABx")
upper-IsText =
    letters b'A' b'B' b'x' (omega arith) (omega arith) (omega arith) (omega arith) (omega arith)
      (omega arith)

lower-IsText : IsText (codes "aby")
lower-IsText =
    letters b'a' b'b' b'y' (omega arith) (omega arith) (omega arith) (omega arith) (omega arith)
      (omega arith)

-- The third character is compared, though two are asked for.
one_more_run : is_zero (nx_strncasecmp (codes "ABx") (codes "aby") 2) ≡ false
unfolding nx_strncasecmp
one_more_run = refl

abbrev headers : List Entry
headers =
    record { name = codes "Host"; value = codes "a" }
    ∷ record { name = codes "Accept"; value = codes "b" }
    ∷ record { name = codes "accept"; value = codes "c" }
    ∷ []

simple_map_remove-IsRemoved_example :
    IsRemoved same_nocase
      (codes "ACCEPT")
      headers
      (simple_map_find same_nocase headers (codes "ACCEPT"))
      (simple_map_remove same_nocase headers (codes "ACCEPT"))
simple_map_remove-IsRemoved_example =
    simple_map_remove-IsRemoved same_nocase (codes "ACCEPT") headers

-- With the case the entry stands behind the other.
remove_case_run :
    simple_map_remove same_case headers (codes "accept")
    ≡ some (
      record { name = codes "accept"; value = codes "c" },
      record { name = codes "Host"; value = codes "a" }
          ∷ record { name = codes "Accept"; value = codes "b" }
          ∷ [],
    )
unfolding simple_map_remove same_case
remove_case_run = refl
