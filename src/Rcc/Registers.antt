-- ===== src/Rcc/Registers.antt =====
-- bootloader/drivers/rcc.c: the addresses and the bits of the clock controller.
use stm32mp257_test_board.Prelude.{ℕ, ◌+◌, ◌*◌, Bool, not, bit_and, ltb, ◌==◌, if◌then◌else◌}
use stm32mp257_test_board.Io.{bit_mask}

abbrev pub rcc_base : ℕ
rcc_base = 0x44200000

abbrev pub rcc_cfgr_rst : ℕ
rcc_cfgr_rst = bit_mask 0

abbrev pub rcc_cfgr_en : ℕ
rcc_cfgr_en = bit_mask 1

-- The registers of a flexgen channel, and the status words for its half of the channels.
abbrev pub xbar_of : ℕ → ℕ
xbar_of channel = rcc_base + 0x1018 + 4 * channel

abbrev pub prediv_of : ℕ → ℕ
prediv_of channel = rcc_base + 0x1118 + 4 * channel

abbrev pub findiv_of : ℕ → ℕ
findiv_of channel = rcc_base + 0x1224 + 4 * channel

abbrev pub presr_of : ℕ → ℕ
presr_of channel = if ltb channel 32 then rcc_base + 0x1218 else rcc_base + 0x121C

abbrev pub finsr_of : ℕ → ℕ
finsr_of channel = if ltb channel 32 then rcc_base + 0x1324 else rcc_base + 0x1328

abbrev pub xbar_sel_mask : ℕ
xbar_sel_mask = 0xF

abbrev pub xbar_en : ℕ
xbar_en = bit_mask 6

abbrev pub xbar_sts : ℕ
xbar_sts = bit_mask 7

abbrev pub prediv_mask : ℕ
prediv_mask = 0x3FF

abbrev pub findiv_mask : ℕ
findiv_mask = 0x3F

abbrev pub findiv_en : ℕ
findiv_en = bit_mask 6

abbrev pub xbar_src_hsi_ker : ℕ
xbar_src_hsi_ker = 0x8

abbrev pub xbar_src_pll4 : ℕ
xbar_src_pll4 = 0x0

abbrev pub rcc_pll4cfgr1 : ℕ
rcc_pll4cfgr1 = rcc_base + 0x1360

abbrev pub rcc_ocensetr : ℕ
rcc_ocensetr = rcc_base + 0x49C

abbrev pub rcc_ocrdyr : ℕ
rcc_ocrdyr = rcc_base + 0x4A4

abbrev pub ocen_hseon : ℕ
ocen_hseon = bit_mask 8

abbrev pub ocrdy_hserdy : ℕ
ocrdy_hserdy = bit_mask 8

abbrev pub rcc_muxselcfgr : ℕ
rcc_muxselcfgr = rcc_base + 0x1000

-- `RCC_PLL2CFGRn`, by offset.
abbrev pub rcc_pll2 : ℕ → ℕ
rcc_pll2 offset = rcc_base + 0x590 + offset

abbrev pub pllen : ℕ
pllen = bit_mask 8

abbrev pub pllrdy : ℕ
pllrdy = bit_mask 24

abbrev pub ckrefst : ℕ
ckrefst = bit_mask 28

abbrev pub chgclkreq : ℕ
chgclkreq = 0x48800000

abbrev pub pll_freq1 : ℕ
pll_freq1 = 0x48800080

abbrev pub pll_freq2 : ℕ
pll_freq2 = 0x48800090

abbrev pub pll_enable : ℕ
pll_enable = 0x488000A0

abbrev pub div_timeout : ℕ
div_timeout = 1000000

-- A masked bit that is set, or clear.
abbrev pub is_set : ℕ → ℕ → Bool
is_set bit v = not (bit_and v bit == 0)

abbrev pub is_clear : ℕ → ℕ → Bool
is_clear bit v = bit_and v bit == 0
