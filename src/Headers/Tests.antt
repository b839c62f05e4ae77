-- ===== src/Headers/Tests.antt =====
-- Runs of the header identification of src/lib/http_utils.c.
use nxweb.Base.{◌≡◌, refl, codes, inl, arith}
use nxweb.SimpleMap.{same_nocase}
use nxweb.Headers.{identify_http_header, http_host, http_unknown}
use nxweb.Headers.Identify.{lookup_nocase, header_table, identify_http_header-lookup_nocase}

host_run : identify_http_header (codes "hOST") 4 ≡ http_host
unfolding identify_http_header same_nocase
host_run = refl

accept_run : identify_http_header (codes "Accept") 0 ≡ http_unknown
unfolding identify_http_header same_nocase
accept_run = refl

identify_http_header-lookup_nocase_example :
    identify_http_header (codes "TRAILER") 0 ≡ lookup_nocase header_table (codes "TRAILER")
identify_http_header-lookup_nocase_example =
    identify_http_header-lookup_nocase (codes "TRAILER") 0 (ground arith) (inl refl)
