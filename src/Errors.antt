-- ===== src/Errors.antt =====
-- The return codes: include/errors.h, and those of netnacl/src/netnacl.h. They are C integers, so
-- that codes of the two enumerations with one number are one value, as in the code.
use nacl_proxy.Base.{ℤ, pos, negsuc}

abbrev pub proxy_max_events : ℤ
proxy_max_events = negsuc 6

abbrev pub proxy_intr : ℤ
proxy_intr = negsuc 5

abbrev pub proxy_connect_err : ℤ
proxy_connect_err = negsuc 4

abbrev pub proxy_incomplete_accept : ℤ
proxy_incomplete_accept = negsuc 3

abbrev pub proxy_would_block : ℤ
proxy_would_block = negsuc 2

abbrev pub proxy_disconnect : ℤ
proxy_disconnect = negsuc 1

abbrev pub proxy_err : ℤ
proxy_err = negsuc 0

abbrev pub proxy_success : ℤ
proxy_success = pos 0

abbrev pub nn_disconnect : ℤ
nn_disconnect = negsuc 4

abbrev pub nn_crypto_err : ℤ
nn_crypto_err = negsuc 3

abbrev pub nn_want_read : ℤ
nn_want_read = negsuc 2

abbrev pub nn_want_write : ℤ
nn_want_write = negsuc 1

abbrev pub nn_err : ℤ
nn_err = negsuc 0

abbrev pub nn_success : ℤ
nn_success = pos 0

-- What `ASSERT_RET` returns when its condition fails, in a build with NDEBUG.
abbrev pub assert_failed : ℤ
assert_failed = negsuc 0
