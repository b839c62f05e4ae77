-- ===== src/SimpleMap/Remove.antt =====
-- What is found in the simple map of src/include/nxweb/nxweb.h, and what is removed from it.
use nxweb.Base.{
  ◌≡◌, refl, ap, Bool, true, false, Option, none, some, List, [], ◌∷◌, ◌++◌, Bytes, All,
  if◌then◌else◌,
}
use nxweb.SimpleMap.{Entry, simple_map_find, simple_map_remove}

module _ (same : Bytes → Bytes → Bool) (name : Bytes) where
  -- The name of the entry is another one.
  abbrev pub IsOther : Entry → Type 0
  IsOther e = same e.name name ≡ false

  -- What removing an entry has to do: the first with the name goes, the others stay in their order;
  -- it is the one that would have been found.
  pub IsRemoved : List Entry → Option Entry → Option (Entry × List Entry) → Type 0
  IsRemoved map found none = (found ≡ none) × All IsOther map
  IsRemoved map found (some (r, map')) =
      (found ≡ some r)
      × (same r.name name ≡ true)
      × (front : List Entry) × (back : List Entry) × All IsOther front
      × (map ≡ front ++ r ∷ back)
      × (map' ≡ front ++ back)

  IsRemoved-behind :
      (e : Entry) (map : List Entry) (found : Option Entry) (r : Option (Entry × List Entry))
      → IsOther e
      → IsRemoved map found r
      → IsRemoved (e ∷ map) found (elim r [ none ↦ none | some (r, map') ↦ some (r, e ∷ map') ])
  unfolding IsRemoved
  IsRemoved-behind e map found none o (f, h) = (f, (o, h))
  IsRemoved-behind e map found (some (r, map')) o (f, s, front, back, h, p, q) =
      (f, s, e ∷ front, back, (o, h), ap (λ m. e ∷ m) p, ap (λ m. e ∷ m) q)

  -- The first entry with the name is removed, which is the one that is found, and no other; without
  -- one nothing is found and nothing removed.
  pub simple_map_remove-IsRemoved :
      (map : List Entry)
      → IsRemoved map (simple_map_find same map name) (simple_map_remove same map name)
  unfolding simple_map_find simple_map_remove IsRemoved
  simple_map_remove-IsRemoved [] = (refl, _)
  simple_map_remove-IsRemoved (e ∷ map) =
      (elim (same e.name name)
          as (λ b.
            same e.name name ≡ b
            → IsRemoved (e ∷ map) (if b then some e else simple_map_find same map name) (
                if b then some (e, map) else elim (simple_map_remove same map name) [
                  | none ↦ none
                  | some (r, map') ↦ some (r, e ∷ map')
                ])) [
                  | true ↦ λ h. (refl, h, [], map, _, refl, refl)
                  | false ↦ λ h. IsRemoved-behind e map _ _ h (simple_map_remove-IsRemoved map)
                ])
        refl
