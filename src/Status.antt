-- ===== src/Status.antt =====
-- Return values of include/JUB_SDK_COMM.h and include/JUB_SDK_DEV.h.
use jubiter_sdk_c.Common.{ℕ}

abbrev pub jubr_error : ℕ
jubr_error = 0x00000001

abbrev pub jubr_arguments_bad : ℕ
jubr_arguments_bad = 0x00000003

abbrev pub jubr_memory_null_ptr : ℕ
jubr_memory_null_ptr = 0x00000005

abbrev pub jubr_buffer_too_small : ℕ
jubr_buffer_too_small = 0x0000000A

abbrev pub jubr_error_args : ℕ
jubr_error_args = 0x00000066

abbrev pub jubr_transmit_device_error : ℕ
jubr_transmit_device_error = 0x00000062

abbrev pub jubr_device_pin_error : ℕ
jubr_device_pin_error = 0x00000064

abbrev pub jubr_pin_locked : ℕ
jubr_pin_locked = 0x00000067

abbrev pub jubr_transact_timeout : ℕ
jubr_transact_timeout = 0x00001002

abbrev pub jubr_unknown_cos_error : ℕ
jubr_unknown_cos_error = 0x40000000

abbrev pub jubr_host_memory : ℕ
jubr_host_memory = 0x00000002

abbrev pub jubr_invalid_memory_ptr : ℕ
jubr_invalid_memory_ptr = 0x00000008

abbrev pub jubr_repeat_memory_ptr : ℕ
jubr_repeat_memory_ptr = 0x00000009

abbrev pub jubr_init_device_lib_error : ℕ
jubr_init_device_lib_error = 0x00000060

abbrev pub jubr_connect_device_error : ℕ
jubr_connect_device_error = 0x00000061

abbrev pub jubr_not_connect_device : ℕ
jubr_not_connect_device = 0x00000063

abbrev pub jubr_bt_bond_failed : ℕ
jubr_bt_bond_failed = 0x00001005

abbrev pub jubr_impl_not_support : ℕ
jubr_impl_not_support = 0x00000004

abbrev pub jubr_context_not_satisfied : ℕ
jubr_context_not_satisfied = 0x00000006

abbrev pub jubr_qrc20_wrong_format : ℕ
jubr_qrc20_wrong_format = 0x0000000C

abbrev pub jubr_user_cancel : ℕ
jubr_user_cancel = 0x00000065
