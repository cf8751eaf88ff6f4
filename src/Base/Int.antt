-- ===== src/Base/Int.antt =====
-- The `int` return codes of the C functions.
use my_vps_config.Base.{ℕ, Bool, true, false, ◌==◌}

-- `negsuc n` is -(n + 1).
pub data ℤ : Type 0 where
  pos : ℕ → ℤ
  negsuc : ℕ → ℤ

-- `ret < 0`
abbrev pub is_neg : ℤ → Bool
is_neg (pos n) = false
is_neg (negsuc n) = true

-- `ret == 0`
abbrev pub is_zero : ℤ → Bool
is_zero (pos n) = n == 0
is_zero (negsuc n) = false

-- The codes of vpn.h.
abbrev pub success : ℤ
success = pos 0

abbrev pub failure : ℤ
failure = negsuc 0

abbrev pub err_bad_command : ℤ
err_bad_command = negsuc 1

abbrev pub err_auth_continue : ℤ
err_auth_continue = negsuc 3

-- `ret == ERR_AUTH_CONTINUE`
abbrev pub is_auth_continue : ℤ → Bool
is_auth_continue (pos n) = false
is_auth_continue (negsuc n) = n == 3

abbrev pub err_mem : ℤ
err_mem = negsuc 5

abbrev pub err_no_ip : ℤ
err_no_ip = negsuc 7
