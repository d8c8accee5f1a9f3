-- ===== src/Host.antt =====
-- The host functions of host.c, and the table of them. The addresses of the thunks are the linker's,
-- so they are an argument.
use templeos_loader.Datetime.{CDateStruct, Tm, timespec_to_CDateStruct_local}
use templeos_loader.Prelude.{ℕ, ℤ, Option, CString, text, str_eq, if◌then◌else◌}

pub record Thunks : Type 0 where
  pub host_get_api_version : ℕ
  pub host_get_env : ℕ
  pub host_get_local_time : ℕ
  pub host_inject_statically_linked_symbols : ℕ

-- The chain of `strcmp`, with NULL as 0.
unfoldable pub host_get_api_by_name : Thunks → CString → ℕ
host_get_api_by_name thunks name =
    if str_eq name (text "HostGetApiVersion")
    then thunks.host_get_api_version
    else if str_eq name (text "HostGetEnv")
    then thunks.host_get_env
    else if str_eq name (text "HostGetLocalTime")
    then thunks.host_get_local_time
    else if str_eq name (text "HostInjectStaticallyLinkedSymbols")
    then thunks.host_inject_statically_linked_symbols
    else 0

abbrev pub host_get_api_version : ℕ
host_get_api_version = 0x00030000

-- `clock` is what `clock_gettime` gives, in seconds and nanoseconds.
unfoldable pub host_get_local_time : (ℤ → Option Tm) → ℤ × ℤ → CDateStruct
host_get_local_time localtime_r clock = timespec_to_CDateStruct_local localtime_r clock.0 clock.1
