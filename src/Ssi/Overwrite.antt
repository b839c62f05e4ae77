-- ===== src/Ssi/Overwrite.antt =====
-- What `parse_directive` of src/lib/filters/ssi_filter.c writes behind a directive. Where the command
-- ends the directive, `p` goes beyond the NUL: the first equals sign behind the directive is taken
-- for that of an attribute and overwritten, and so are the blanks in front of it, by
-- `nxweb_trunc_space`. The search for it that goes beyond the data changes none of the data.
use nxweb.Base.{
  ℕ, suc, ◌≡◌, refl, Bool, true, false, ◌&&◌, Option, none, some, [], ◌∷◌, ◌++◌, Bytes, leb, ◌==◌,
  if◌then◌else◌, length, length-append, arith, ◌+◌, Bool-cases, inl, inr,
}
use nxweb.Misc.{skip_space}
use nxweb.Ssi.Directive.{split_command}

unfoldable pub ends_text : Bytes × Bytes → Bool
ends_text ([], rest) = false
ends_text (c ∷ command, []) = true
ends_text (c ∷ command, d ∷ rest) = false

-- The command is the last of the directive: `while (*p>SPACE) p++` stops at its NUL.
unfoldable pub ends_command : Bytes → Bool
unfolding ends_text split_command skip_space
ends_command str = ends_text (split_command (skip_space str))

unfoldable pub is_blank : Bytes → Bool
is_blank [] = true
is_blank (c ∷ s) = let rest = is_blank s in leb c b' ' && rest

-- The blanks at the end of the name become NULs.
unfoldable pub blank_end : Bytes → Bytes
unfolding is_blank
blank_end [] = []
blank_end (c ∷ s) = let rest = blank_end s in if is_blank (c ∷ s) then 0 ∷ rest else c ∷ rest

unfoldable pub with_name : ℕ → Option (Bytes × Bytes) → Option (Bytes × Bytes)
with_name c none = none
with_name c (some (name, after)) = some (c ∷ name, after)

-- `strchr(p, '=')`: the text in front of the sign and the text behind it; a NUL ends the search.
unfoldable pub find_sign : Bytes → Option (Bytes × Bytes)
unfolding with_name
find_sign [] = none
find_sign (c ∷ s) =
    let rest = find_sign s in
    if c == 0 then none else if c == b'=' then some ([], s) else with_name c rest

unfoldable pub overwritten_by : Bytes → Option (Bytes × Bytes) → Bytes
unfolding blank_end
overwritten_by behind none = behind
overwritten_by behind (some (name, after)) = blank_end name ++ 0 ∷ after

-- What stands behind the directive `str` when it was parsed.
unfoldable pub overwritten : Bytes → Bytes → Bytes
unfolding ends_command find_sign overwritten_by
overwritten str behind =
    if ends_command str then overwritten_by behind (find_sign behind) else behind

length-blank_end : (s : Bytes) → length (blank_end s) ≡ length s
unfolding blank_end
length-blank_end [] = refl
length-blank_end (c ∷ s) = let r = length-blank_end s in ground (arith, r)

-- The two texts and the sign make up the whole.
abbrev parts_length : Option (Bytes × Bytes) → ℕ → ℕ
parts_length none n = n
parts_length (some (name, after)) n = length name + suc (length after)

parts_length-with_name :
    (c n : ℕ) (o : Option (Bytes × Bytes))
    → parts_length o n ≡ n
    → parts_length (with_name c o) (suc n) ≡ suc n
unfolding with_name
parts_length-with_name c n none h = refl
parts_length-with_name c n (some (x, y)) h = omega (arith, h)

parts_length-find_sign : (s : Bytes) → parts_length (find_sign s) (length s) ≡ length s
unfolding find_sign
parts_length-find_sign [] = refl
parts_length-find_sign (c ∷ s) =
    let r = parts_length-with_name c (length s) (find_sign s) (parts_length-find_sign s) in
    elim (Bool-cases (c == 0)) [
      | inl z ↦ rw z refl
      | inr z ↦ elim (Bool-cases (c == b'=')) [
        | inl e ↦ rw (z, e) (omega arith)
        | inr e ↦ rw (z, e) r
      ]
    ]

length-overwritten_by :
    (behind : Bytes) (o : Option (Bytes × Bytes))
    → parts_length o (length behind) ≡ length behind
    → length (overwritten_by behind o) ≡ length behind
unfolding overwritten_by
length-overwritten_by behind none h = refl
length-overwritten_by behind (some (x, y)) h =
    let a = length-append (blank_end x) (0 ∷ y) in
    let b = length-blank_end x in omega (arith, a, b, h)

pub length-overwritten : (str behind : Bytes) → length (overwritten str behind) ≡ length behind
unfolding overwritten
length-overwritten str behind =
    let r = length-overwritten_by behind (find_sign behind) (parts_length-find_sign behind) in
    elim (Bool-cases (ends_command str)) [ inl e ↦ rw e r | inr e ↦ rw e refl ]

-- A directive with a blank behind its command leaves the text behind it alone.
pub overwritten_same :
    (str behind : Bytes) → ends_command str ≡ false → overwritten str behind ≡ behind
unfolding overwritten
overwritten_same str behind h = rw h refl
