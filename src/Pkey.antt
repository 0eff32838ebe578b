-- ===== src/Pkey.antt =====
-- src/sdrad_pkey.h and src/sdrad_pkey.c: the word of the protection-key register (PKRU), two bits
-- of rights for each of sixteen keys. Only the low 32 bits ever reach the register
-- (`sdrad_store_pkru_config` cuts to `uint32_t`), so a configuration is modelled by those.
pub mod Rights
use Prim.Native.Nat.{bit_and, bit_or}
use secure_rewind_and_discar.Base.{ℕ, ◌+◌, ◌-◌, ◌*◌, ◌%◌, ◌^◌}

abbrev pub pkey_disable_access : ℕ
pkey_disable_access = 0x1

abbrev pub pkey_disable_write : ℕ
pkey_disable_write = 0x2

abbrev pub pkru_all_read_only_rd : ℕ
pkru_all_read_only_rd = 0xFFFFFFEC

abbrev pub pkru_all_unset : ℕ
pkru_all_unset = 0x00000000

-- `x << k` and `~x` on `uint32_t`.
abbrev pub shl32 : ℕ → ℕ → ℕ
shl32 x k = x * 2 ^ k % 2 ^ 32

abbrev pub not32 : ℕ → ℕ
not32 x = 2 ^ 32 - 1 - x

-- The macro SDRAD_PKRU_SET_DOMAIN.
unfoldable pub pkru_set_domain : (byte domain right : ℕ) → ℕ
pkru_set_domain byte domain right =
    let mask = shl32 3 (2 * domain) in bit_or (bit_and byte (not32 mask)) (shl32 right (2 * domain))

unfoldable pub sdrad_pkru_default_config : (pkru_domain : ℕ) → ℕ
sdrad_pkru_default_config pkru_domain = pkru_set_domain pkru_all_read_only_rd pkru_domain 0

unfoldable pub sdrad_set_access_pdi : (pkru pkru_domain access : ℕ) → ℕ
sdrad_set_access_pdi pkru pkru_domain access = pkru_set_domain pkru pkru_domain access
