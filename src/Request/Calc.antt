-- ===== src/Request/Calc.antt =====
-- How many request entries a command of `dsds` data segments takes: qla2x00_calc_iocbs_32,
-- qla2x00_calc_iocbs_64 and qla24xx_calc_dsd_lists of drivers/scsi/qla2xxx/qla_iocb.c, and
-- qla24xx_calc_iocbs of qla_inline.h. A count is a `uint16_t`, and so is the result.
use scst_qla2xxx.Base.{ℕ, ◌+◌, ◌-◌, ◌*◌, ◌/◌, ◌%◌, ◌<◌, ◌≤◌, ◌≡◌, arith, ltb, ◌==◌, if◌then◌else◌}
use scst_qla2xxx.Base.Words.{u16}

unfoldable pub calc_iocbs_32 : ℕ → ℕ
calc_iocbs_32 dsds =
    if ltb 3 dsds
    then (let iocbs = u16 (1 + (dsds - 3) / 7) in
        if (dsds - 3) % 7 == 0 then iocbs else u16 (iocbs + 1))
    else 1

unfoldable pub calc_iocbs_64 : ℕ → ℕ
calc_iocbs_64 dsds =
    if ltb 2 dsds
    then (let iocbs = u16 (1 + (dsds - 2) / 5) in
        if (dsds - 2) % 5 == 0 then iocbs else u16 (iocbs + 1))
    else 1

unfoldable pub calc_iocbs_24xx : ℕ → ℕ
calc_iocbs_24xx dsds =
    if ltb 1 dsds
    then (let iocbs = u16 (1 + (dsds - 1) / 5) in
        if (dsds - 1) % 5 == 0 then iocbs else u16 (iocbs + 1))
    else 1

-- QLA_DSDS_PER_IOCB is 37.
unfoldable pub calc_dsd_lists : ℕ → ℕ
calc_dsd_lists dsds =
    let dsd_lists = u16 (dsds / 37) in if dsds % 37 == 0 then dsd_lists else u16 (dsd_lists + 1)

-- For a `uint16_t` count the additions do not wrap, and the result is a rounded-up quotient.
pub calc_iocbs_32_lem : (dsds : ℕ) → dsds < 65536 → calc_iocbs_32 dsds ≡ 1 + (dsds + 6 - 3) / 7
unfolding calc_iocbs_32
calc_iocbs_32_lem dsds h = ground arith

pub calc_iocbs_64_lem : (dsds : ℕ) → dsds < 65536 → calc_iocbs_64 dsds ≡ 1 + (dsds + 4 - 2) / 5
unfolding calc_iocbs_64
calc_iocbs_64_lem dsds h = ground arith

pub calc_iocbs_24xx_lem : (dsds : ℕ) → dsds < 65536 → calc_iocbs_24xx dsds ≡ 1 + (dsds + 4 - 1) / 5
unfolding calc_iocbs_24xx
calc_iocbs_24xx_lem dsds h = ground arith

-- For a count of 16 bits, the DSD lists that are counted hold every descriptor, and one list less
-- would not.
calc_dsd_lists_lem :
    (dsds : ℕ)
    → dsds < 65536
    → (dsds ≤ 37 * calc_dsd_lists dsds) × (37 * calc_dsd_lists dsds < dsds + 37)
unfolding calc_dsd_lists
calc_dsd_lists_lem dsds h = ground arith
