-- ===== src/Base/Words.antt =====
-- The fixed-width words of the driver: casts to `uint8_t`, `uint16_t` and `uint32_t`, the halves
-- that LSW, MSW, LSD and MSD take (drivers/scsi/qla2xxx/qla_def.h) and tests of flag bits.
use scst_qla2xxx.Base.{ℕ, ◌+◌, ◌*◌, ◌/◌, ◌%◌, Bool, not, ◌==◌, bit_and}

abbrev pub u8 : ℕ → ℕ
u8 n = n % 256

abbrev pub u16 : ℕ → ℕ
u16 n = n % 65536

abbrev pub u32 : ℕ → ℕ
u32 n = n % 4294967296

abbrev pub lsw : ℕ → ℕ
lsw x = x % 65536

abbrev pub msw : ℕ → ℕ
msw x = x / 65536 % 65536

abbrev pub lsd : ℕ → ℕ
lsd x = x % 4294967296

abbrev pub msd : ℕ → ℕ
msd x = x / 4294967296 % 4294967296

-- `x & mask`, as a condition.
abbrev pub has : ℕ → ℕ → Bool
has x mask = not (bit_and x mask == 0)

-- A 32-bit word of which a half or a byte is written anew, the low ones first.
abbrev pub set_lo16 : ℕ → ℕ → ℕ
set_lo16 w v = w / 65536 * 65536 + u16 v

abbrev pub set_hi16 : ℕ → ℕ → ℕ
set_hi16 w v = w % 65536 + u16 v * 65536

abbrev pub set_byte0 : ℕ → ℕ → ℕ
set_byte0 w v = w / 256 * 256 + u8 v

abbrev pub set_byte1 : ℕ → ℕ → ℕ
set_byte1 w v = w / 65536 * 65536 + u8 v * 256 + w % 256

abbrev pub set_byte2 : ℕ → ℕ → ℕ
set_byte2 w v = w / 16777216 * 16777216 + u8 v * 65536 + w % 65536

abbrev pub set_byte3 : ℕ → ℕ → ℕ
set_byte3 w v = u8 v * 16777216 + w % 16777216
