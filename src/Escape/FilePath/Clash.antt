-- ===== src/Escape/FilePath/Clash.antt =====
-- Different paths that src/lib/http_utils.c encodes alike.
use nxweb.Base.{◌≡◌, ◌≢◌, true, Bytes, All}
use nxweb.Escape.{is_file_path_char}

-- Characters that are written as they are.
abbrev pub IsCopied : Bytes → Type 0
IsCopied = All (λ c. (c ≢ b'/') × (c ≢ b'.') × (is_file_path_char c ≡ true))
