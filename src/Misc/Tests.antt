-- ===== src/Misc/Tests.antt =====
-- The printers of src/include/nxweb/misc.h and the trimming of src/lib/misc.c, run.
use nxweb.Base.{◌≡◌, refl, codes}
use nxweb.Misc.{uint_to_hex_string_zeropad, uint_to_decimal_string, trunc_space, hex_digit}
use nxweb.Misc.Decimal.{decimal_number, decimal_number-uint_to_decimal_string}

hex_run : uint_to_hex_string_zeropad 3054 5 ≡ codes "00BEE"
unfolding uint_to_hex_string_zeropad hex_digit
hex_run = refl

decimal_run : uint_to_decimal_string 1970 ≡ codes "1970"
unfolding uint_to_decimal_string
decimal_run = refl

trunc_space_run : trunc_space (codes "  a b \r\n") ≡ codes "a b"
unfolding trunc_space
trunc_space_run = refl

decimal_number-uint_to_decimal_string_example :
    decimal_number 0 (uint_to_decimal_string 1970) ≡ 1970
decimal_number-uint_to_decimal_string_example = decimal_number-uint_to_decimal_string 1970
