-- ===== src/Ssi/Stream.antt =====
-- The search for directives in the stream: `parse_text` and `ssi_buffer_data_in_write` of
-- src/lib/filters/ssi_filter.c. The data that was not passed on stays in the buffer. A directive
-- is parsed when it is found; what that writes behind it is seen by the search that goes on there.
use nxweb.Base.{
  ℕ, zero, suc, Bool, false, ◌&&◌, Option, none, some, List, [], ◌∷◌, Bytes, ltb, ◌==◌,
  if◌then◌else◌, length,
}
use nxweb.Ssi.Overwrite.{overwritten}

-- `<!--#`
unfoldable pub is_opening : Bytes → Bool
is_opening (c ∷ d ∷ e ∷ f ∷ g ∷ s) = c == b'<' && d == b'!' && e == b'-' && f == b'-' && g == b'#'
is_opening _ = false

unfoldable pub behind_opening : Bytes → Bytes
behind_opening (c ∷ d ∷ e ∷ f ∷ g ∷ s) = s
behind_opening s = s

unfoldable pub with_char : ℕ → Option (Bytes × Bytes) → Option (Bytes × Bytes)
with_char c none = none
with_char c (some (text, after)) = some (c ∷ text, after)

-- The text of the directive and what follows it, from the first `>` behind two dashes.
unfoldable pub find_closing : Bytes → Option (Bytes × Bytes)
unfolding with_char
find_closing [] = none
find_closing (c ∷ []) = none
find_closing (c ∷ d ∷ []) = none
find_closing (c ∷ d ∷ e ∷ s) =
    let rest = find_closing (d ∷ e ∷ s) in
    let further = with_char c rest in
    if c == b'-' && d == b'-' && e == b'>' then some ([], s) else further

-- A directive with the text in front of it and behind it.
pub record Found : Type 0 where
  pub front : Bytes
  pub inner : Bytes
  pub behind : Bytes

unfoldable pub as_found : Option (Bytes × Bytes) → Option Found
as_found none = none
as_found (some (text, after)) = some (record { front = []; inner = text; behind = after })

unfoldable pub behind_char : ℕ → Option Found → Option Found
behind_char c none = none
behind_char c (some f) = some (record f { front = c ∷ f.front })

-- The loop over the places of `<`: it ends where less than five characters are left, and at an
-- opening that is not closed yet.
unfoldable pub find_directive : Bytes → Option Found
unfolding is_opening behind_opening find_closing as_found behind_char
find_directive [] = none
find_directive (c ∷ s) =
    let further = behind_char c (find_directive s) in
    let here = as_found (find_closing (behind_opening (c ∷ s))) in
    if c == b'<' && ltb (length s) 4 then none else if is_opening (c ∷ s) then here else further

-- What goes into the stream: a text, or what the directive makes.
pub data Item : Type 0 where
  chunk directive : Bytes → Item

abbrev pub front_items : Bytes → List Item → List Item
front_items [] items = items
front_items (c ∷ s) items = chunk (c ∷ s) ∷ items

-- A text that is empty is left out.
unfoldable pub items_of : Found → List Item → List Item
items_of f items = front_items f.front (directive f.inner ∷ items)

-- `while (parse_text(ssib))`, on fuel: the items, and the data that stays.
unfoldable pub parse_loop : ℕ → Bytes → List Item × Bytes
unfolding find_directive items_of overwritten
parse_loop zero input = ([], input)
parse_loop (suc fuel) input = elim (find_directive input) [
  | none ↦ ([], input)
  | some f ↦
      let (items, left) = parse_loop fuel (overwritten f.inner f.behind) in (items_of f items, left)
]

-- Each round takes some bytes.
unfoldable pub parse_stream : Bytes → List Item × Bytes
unfolding parse_loop
parse_stream input = parse_loop (length input) input
