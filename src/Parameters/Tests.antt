-- ===== src/Parameters/Tests.antt =====
-- Runs of the readers of parameters and cookies of src/lib/http_utils.c.
use nxweb.Base.{◌≡◌, refl, [], ◌∷◌, ◌++◌, codes, none, some, false, true, arith}
use nxweb.Misc.Trim.{StartsInk, EndsInk}
use nxweb.SimpleMap.{Entry, same_nocase}
use nxweb.Parameters.{parse_request_parameters, parse_request_cookies}
use nxweb.Parameters.RoundTrip.{IsPair, query_text, added, parse_request_parameters-query_text}

abbrev first_pair : Entry
first_pair = record { name = codes "a b"; value = codes "1&2" }

abbrev second_pair : Entry
second_pair = record { name = codes "c"; value = [] }

first_pair-IsPair : IsPair first_pair
unfolding StartsInk EndsInk
first_pair-IsPair = record {
  name = ground arith;
  value = ground arith;
  not_empty = λ e. cc;
  starts = ground arith;
  ends = ground arith;
}

second_pair-IsPair : IsPair second_pair
unfolding StartsInk EndsInk
second_pair-IsPair = record {
  name = ground arith;
  value = tt;
  not_empty = λ e. cc;
  starts = ground arith;
  ends = ground arith;
}

kind_run :
    same_nocase
      (codes "Application/X-WWW-Form-Urlencoded")
      (codes "application/x-www-form-urlencoded")
    ≡ true
unfolding same_nocase
kind_run = refl

parse_request_parameters-query_text_example :
    parse_request_parameters
      (record {
        uri = codes "/p?" ++ query_text (first_pair ∷ second_pair ∷ []);
        content = some (query_text (first_pair ∷ []));
        content_type = some (codes "Application/X-WWW-Form-Urlencoded");
        parameters = [];
      })
      false
    ≡ record {
      uri = codes "/p";
      content = none;
      content_type = some (codes "Application/X-WWW-Form-Urlencoded");
      parameters = added (added [] (first_pair ∷ second_pair ∷ [])) (first_pair ∷ []);
    }
parse_request_parameters-query_text_example =
    parse_request_parameters-query_text (codes "/p") (codes "Application/X-WWW-Form-Urlencoded")
      (first_pair ∷ second_pair ∷ []) (first_pair ∷ []) false (ground arith) kind_run
      (first_pair-IsPair, (second_pair-IsPair, tt)) (first_pair-IsPair, tt)

-- The names are trimmed, the values are not, and a cookie may lack a value.
cookie_run :
    (parse_request_cookies (some (codes "a=1; b =2; c")) []).1
    ≡ record { name = codes "c"; value = none }
      ∷ record { name = codes "b"; value = some (codes "2") }
      ∷ record { name = codes "a"; value = some (codes "1") }
      ∷ []
unfolding parse_request_cookies
cookie_run = refl
