-- ===== src/HttpTime/Range.antt =====
-- The fields that `nxweb_parse_http_time` of src/lib/http_utils.c hands to `timegm`.
use mathlib.Core.Path.{subst}
use nxweb.Base.{
  ℕ, ◌<◌, ◌≡◌, refl, Bool, true, false, Option, none, some, some_inj, ◌>>=◌, [], ◌∷◌, Bytes, codes,
  if◌then◌else◌, arith, drop,
}
use nxweb.HttpTime.{
  Tm, strtol, read_field, to_int, to_year, within, is_day, expect, read_month, choose, finish,
  read_clock, read_date, parse_fields,
}

-- A time of the years 1900 to 2900, with every field in its range.
pub record IsTime (tm : Tm) : Type 0 where
  pub wday : tm.wday < 7
  pub mday_least : 0 < tm.mday
  pub mday : tm.mday < 32
  pub mon : tm.mon < 12
  pub year : tm.year < 1001
  pub hour : tm.hour < 24
  pub minute : tm.minute < 60
  pub sec : tm.sec < 60

-- What a step that gave something was applied to.
given :
    {A B C : Type 0} (o : Option A) (k : A → Option B) (b : B)
    → (o >>= k) ≡ some b
    → ((a : A) → o ≡ some a → k a ≡ some b → C)
    → C
given none k b h f = cc
given (some a) k b h f = f a refl h

passed :
    (test : ℕ → Bool) (r : Bool) (n v : ℕ) (t u : Bytes)
    → test n ≡ r
    → if◌then◌else◌ {A = Option (ℕ × Bytes)} r (some (n, u)) none ≡ some (v, t)
    → test v ≡ true
passed test true n v t u e h = cc
passed test false n v t u e h = cc

read_field-test :
    (convert : ℕ → ℕ) (test : ℕ → Bool) (s : Bytes) (v : ℕ) (t : Bytes)
    → read_field convert test s ≡ some (v, t)
    → test v ≡ true
unfolding read_field
read_field-test convert test s v t h =
    let n = convert (strtol s).0 in passed test (test n) n v t (strtol s).1 refl h

choose_within :
    (a m b n : ℕ) (s : Bytes) (v : ℕ) (t : Bytes)
    → m < 12
    → n < 12
    → choose a m b n s ≡ some (v, t)
    → v < 12
unfolding choose
choose_within a m b n [] v t hm hn h = cc
choose_within a m b n (x ∷ s) v t hm hn h = ground (arith, h, hm, hn)

finish_within :
    (cs : Bytes) (m : ℕ) (s : Bytes) (v : ℕ) (t : Bytes)
    → m < 12
    → finish cs m s ≡ some (v, t)
    → v < 12
unfolding finish
finish_within [] m s v t hm h = ground (arith, h, hm)
finish_within (c ∷ cs) m s v t hm h =
    given (expect c s) (λ u. finish cs m u) (v, t) h (λ u _ e. finish_within cs m u v t hm e)

read_month_within : (s : Bytes) (v : ℕ) (t : Bytes) → read_month s ≡ some (v, t) → v < 12
unfolding read_month
read_month_within [] v t h = cc
read_month_within (c ∷ []) v t h = cc
read_month_within (c ∷ d ∷ s) v t h =
    let f0 = finish_within (codes "n") 0 s v t (omega arith) in
    let f1 = finish_within (codes "eb") 1 (d ∷ s) v t (omega arith) in
    let f3 = finish_within (codes "r") 3 s v t (omega arith) in
    let f7 = finish_within (codes "g") 7 s v t (omega arith) in
    let f8 = finish_within (codes "ep") 8 (d ∷ s) v t (omega arith) in
    let f9 = finish_within (codes "ct") 9 (d ∷ s) v t (omega arith) in
    let f10 = finish_within (codes "ov") 10 (d ∷ s) v t (omega arith) in
    let f11 = finish_within (codes "ec") 11 (d ∷ s) v t (omega arith) in
    let c5 = choose_within b'n' 5 b'l' 6 s v t (omega arith) (omega arith) in
    let c4 = choose_within b'y' 4 b'r' 2 s v t (omega arith) (omega arith) in
    ground (arith, h, f0, f1, f3, f7, f8, f9, f10, f11, c5, c4)

within-lt : (limit n : ℕ) → within limit n ≡ true → n < limit
within-lt limit n h = ground (arith, h)

is_day-lt : (n : ℕ) → is_day n ≡ true → (0 < n) × (n < 32)
is_day-lt n h = (ground (arith, h), ground (arith, h))

read_clock-IsTime :
    (day month year : ℕ) (s : Bytes) (tm : Tm)
    → 0 < day
    → day < 32
    → month < 12
    → year < 1001
    → read_clock day month year s ≡ some tm
    → IsTime tm
unfolding read_clock
read_clock-IsTime day month year s tm d0 d m y h =
    given (read_field to_int (within 24) s) _ tm h λ (hour, s1) e1 h.
      given (expect b':' s1) _ tm h λ s2 _ h.
        given (read_field to_int (within 60) s2) _ tm h λ (minute, s3) e2 h.
          given (expect b':' s3) _ tm h λ s4 _ h.
            given (read_field to_int (within 60) s4) _ tm h λ (sec, s5) e3 h.
              given (expect b' ' s5) _ tm h λ s6 _ h. given (expect b'G' s6) _ tm h λ s7 _ h.
                given (expect b'M' s7) _ tm h λ s8 _ h. given (expect b'T' s8) _ tm h λ s9 _ h.
                  subst IsTime (some_inj h) (record {
                    wday = omega arith;
                    mday_least = d0;
                    mday = d;
                    mon = m;
                    year = y;
                    hour = within-lt 24 hour (read_field-test to_int (within 24) s hour s1 e1);
                    minute =
                        within-lt 60 minute (read_field-test to_int (within 60) s2 minute s3 e2);
                    sec = within-lt 60 sec (read_field-test to_int (within 60) s4 sec s5 e3);
                  })

read_date-IsTime : (s : Bytes) (tm : Tm) → read_date s ≡ some tm → IsTime tm
unfolding read_date
read_date-IsTime s tm h = given (read_field to_int is_day s) _ tm h λ (day, s1) e1 h.
    given (expect b' ' s1) _ tm h λ s2 _ h. given (read_month s2) _ tm h λ (month, s3) e2 h.
      given (expect b' ' s3) _ tm h λ s4 _ h.
        given (read_field to_year (within 1001) s4) _ tm h λ (year, s5) e3 h.
          given (expect b' ' s5) _ tm h λ s6 _ h.
            let (d0, d) = is_day-lt day (read_field-test to_int is_day s day s1 e1) in
            read_clock-IsTime day month year s6 tm d0 d (read_month_within s2 month s3 e2)
              (within-lt 1001 year (read_field-test to_year (within 1001) s4 year s5 e3)) h

-- Whatever the string, the fields that are handed to `timegm` are a time in range: the rest is
-- refused before.
pub parse_fields-IsTime : (str : Bytes) (tm : Tm) → parse_fields str ≡ some tm → IsTime tm
unfolding parse_fields
parse_fields-IsTime str tm h =
    given (expect b',' (drop 3 str)) _ tm h
      λ s _ h. given (expect b' ' s) _ tm h λ t _ h. read_date-IsTime t tm h
