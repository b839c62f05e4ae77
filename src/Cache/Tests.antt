-- ===== src/Cache/Tests.antt =====
-- The cache of src/lib/cache.c on small inputs.
use nxweb.Base.{◌≡◌, ◌≤◌, refl, false, none, some, List, [], ◌∷◌, codes, length, All, ◌⊎◌}
use nxweb.Cache.{
  Rec, Cache, hit, evict_last, check_size_loop, check_size, find_key, serve, try_found, cache_try,
  store_record, remove_key, cache_rec_unref, is_referenced, unref_linked, unref_detached,
}
use nxweb.Cache.Eviction.{Evictions, IsUsed, check_size-Evictions}
use nxweb.Cache.Valid.{IsValid, start, after, asked, entered, released, Runs-IsValid}

abbrev page : Rec
page = record {
  address = 1;
  key = codes "/page";
  content = codes "text";
  content_type = some (codes "text/html");
  content_charset = none;
  expires_time = 100;
  last_modified = 7;
  ref_count = 0;
  gzip_encoded = false;
}

abbrev style : Rec
style = record page { address = 2; key = codes "/style" }

abbrev held : Rec
held = record page { address = 3; key = codes "/held"; ref_count = 2 }

abbrev three : List Rec
three = held ∷ page ∷ style ∷ []

abbrev empty : Cache
empty = record { items = []; detached = [] }

-- The tail goes, and what is referenced stays.
check_size_one : check_size 1 three ≡ held ∷ []
unfolding check_size check_size_loop evict_last
check_size_one = refl

check_size-Evictions_example :
    Evictions 1 three (check_size 1 three)
    × ((length (check_size 1 three) ≤ 1) ⊎ All IsUsed (check_size 1 three))
check_size-Evictions_example = check_size-Evictions 1 three

-- It is stored, found while it is referenced, let go of, and found out of date.
abbrev stored : Cache
stored = (store_record empty page).1

abbrev looked_up : Cache
looked_up = (cache_try stored (codes "/page") 50 0 1).1

abbrev let_go : Cache
let_go = record { items = record page { ref_count = 1 } ∷ []; detached = [] }

let_go_run : cache_rec_unref 60 1 looked_up ≡ some let_go
unfolding cache_rec_unref is_referenced cache_try store_record find_key try_found serve remove_key
    unref_linked unref_detached check_size check_size_loop nxweb.SimpleMap.same_case
let_go_run = refl

abbrev gone : Cache
gone = (cache_try let_go (codes "/page") 200 0 1).1

found_hit : (cache_try stored (codes "/page") 50 0 1).0 ≡ hit (record page { ref_count = 2 })
unfolding cache_try store_record find_key try_found serve nxweb.SimpleMap.same_case
found_hit = refl

Runs-IsValid_example : IsValid gone
Runs-IsValid_example =
    Runs-IsValid empty gone
      (after
        (after (after (after start (entered page)) (asked (codes "/page") 50 0 1))
          (released 60 1 let_go let_go_run))
        (asked (codes "/page") 200 0 1))
      (tt, tt)
