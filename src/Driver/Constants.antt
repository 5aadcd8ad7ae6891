-- ===== src/Driver/Constants.antt =====
-- VoodooI2C/VoodooI2C/VoodooI2CController/VoodooI2CControllerConstants.hpp: the registers, and the
-- positions of the bits that the driver tests one at a time.
use voodoo_i2c.Base.{ℕ}

-- Registers.
abbrev pub dw_ic_con : ℕ
dw_ic_con = 0x0

abbrev pub dw_ic_tar : ℕ
dw_ic_tar = 0x4

abbrev pub dw_ic_data_cmd : ℕ
dw_ic_data_cmd = 0x10

abbrev pub dw_ic_ss_scl_hcnt : ℕ
dw_ic_ss_scl_hcnt = 0x14

abbrev pub dw_ic_ss_scl_lcnt : ℕ
dw_ic_ss_scl_lcnt = 0x18

abbrev pub dw_ic_fs_scl_hcnt : ℕ
dw_ic_fs_scl_hcnt = 0x1c

abbrev pub dw_ic_fs_scl_lcnt : ℕ
dw_ic_fs_scl_lcnt = 0x20

abbrev pub dw_ic_intr_stat : ℕ
dw_ic_intr_stat = 0x2c

abbrev pub dw_ic_intr_mask : ℕ
dw_ic_intr_mask = 0x30

abbrev pub dw_ic_raw_intr_stat : ℕ
dw_ic_raw_intr_stat = 0x34

abbrev pub dw_ic_rx_tl : ℕ
dw_ic_rx_tl = 0x38

abbrev pub dw_ic_tx_tl : ℕ
dw_ic_tx_tl = 0x3c

abbrev pub dw_ic_clr_intr : ℕ
dw_ic_clr_intr = 0x40

abbrev pub dw_ic_clr_rx_under : ℕ
dw_ic_clr_rx_under = 0x44

abbrev pub dw_ic_clr_rx_over : ℕ
dw_ic_clr_rx_over = 0x48

abbrev pub dw_ic_clr_tx_over : ℕ
dw_ic_clr_tx_over = 0x4c

abbrev pub dw_ic_clr_rd_req : ℕ
dw_ic_clr_rd_req = 0x50

abbrev pub dw_ic_clr_tx_abrt : ℕ
dw_ic_clr_tx_abrt = 0x54

abbrev pub dw_ic_clr_rx_done : ℕ
dw_ic_clr_rx_done = 0x58

abbrev pub dw_ic_clr_activity : ℕ
dw_ic_clr_activity = 0x5c

abbrev pub dw_ic_clr_stop_det : ℕ
dw_ic_clr_stop_det = 0x60

abbrev pub dw_ic_clr_start_det : ℕ
dw_ic_clr_start_det = 0x64

abbrev pub dw_ic_clr_gen_call : ℕ
dw_ic_clr_gen_call = 0x68

abbrev pub dw_ic_enable : ℕ
dw_ic_enable = 0x6c

abbrev pub dw_ic_status : ℕ
dw_ic_status = 0x70

abbrev pub dw_ic_txflr : ℕ
dw_ic_txflr = 0x74

abbrev pub dw_ic_rxflr : ℕ
dw_ic_rxflr = 0x78

abbrev pub dw_ic_sda_hold : ℕ
dw_ic_sda_hold = 0x7c

abbrev pub dw_ic_tx_abrt_source : ℕ
dw_ic_tx_abrt_source = 0x80

abbrev pub dw_ic_enable_status : ℕ
dw_ic_enable_status = 0x9c

abbrev pub dw_ic_comp_param_1 : ℕ
dw_ic_comp_param_1 = 0xf4

abbrev pub dw_ic_comp_version : ℕ
dw_ic_comp_version = 0xf8

abbrev pub dw_ic_sda_hold_min_vers : ℕ
dw_ic_sda_hold_min_vers = 0x3131312a

abbrev pub dw_ic_comp_type : ℕ
dw_ic_comp_type = 0xfc

abbrev pub dw_ic_comp_type_value : ℕ
dw_ic_comp_type_value = 0x44570140

-- Interrupt bits, by position.
abbrev pub rx_under : ℕ
rx_under = 0

abbrev pub rx_over : ℕ
rx_over = 1

abbrev pub rx_full : ℕ
rx_full = 2

abbrev pub tx_over : ℕ
tx_over = 3

abbrev pub tx_empty : ℕ
tx_empty = 4

abbrev pub rd_req : ℕ
rd_req = 5

abbrev pub tx_abrt : ℕ
tx_abrt = 6

abbrev pub rx_done : ℕ
rx_done = 7

abbrev pub activity : ℕ
activity = 8

abbrev pub stop_det : ℕ
stop_det = 9

abbrev pub start_det : ℕ
start_det = 10

abbrev pub gen_call : ℕ
gen_call = 11

-- RX_FULL, TX_EMPTY, TX_ABRT and STOP_DET.
abbrev pub dw_ic_intr_default_mask : ℕ
dw_ic_intr_default_mask = 0x254

abbrev pub dw_ic_err_tx_abrt : ℕ
dw_ic_err_tx_abrt = 0x1

abbrev pub status_idle : ℕ
status_idle = 0x0

-- STATUS_WRITE_IN_PROGRESS and STATUS_READ_IN_PROGRESS, by position.
abbrev pub write_in_progress : ℕ
write_in_progress = 0

abbrev pub read_in_progress : ℕ
read_in_progress = 1

-- The flags of a message, by position.
abbrev pub i2c_m_rd : ℕ
i2c_m_rd = 0

abbrev pub i2c_m_ten : ℕ
i2c_m_ten = 4

-- DW_IC_CON_10BITADDR_MASTER, DW_IC_CON_RESTART_EN and DW_IC_CON_BUS_CLEAR_CTRL, by position.
abbrev pub con_10bitaddr_master : ℕ
con_10bitaddr_master = 4

abbrev pub con_restart_en : ℕ
con_restart_en = 5

abbrev pub con_bus_clear_ctrl : ℕ
con_bus_clear_ctrl = 11

-- DW_IC_CON_MASTER | DW_IC_CON_SLAVE_DISABLE | DW_IC_CON_RESTART_EN | DW_IC_CON_SPEED_FAST
abbrev pub con_default : ℕ
con_default = 0x65

abbrev pub dw_ic_tar_10bitaddr_master : ℕ
dw_ic_tar_10bitaddr_master = 0x1000

-- DW_IC_STATUS_ACTIVITY, by position.
abbrev pub status_activity : ℕ
status_activity = 0

abbrev pub timeout : ℕ
timeout = 20

abbrev pub dw_ic_sda_hold_rx_shift : ℕ
dw_ic_sda_hold_rx_shift = 16

-- The sum of the I2C_FUNC_ bits that the driver announces.
abbrev pub functionality_bits : ℕ
functionality_bits = 0x0c7e0003
