-- ===== src/P4Util.antt =====
-- control_plane/p4_util.h and p4_util.cpp: loading what the P4 compiler has made.
use scion_int_p.Prelude.{ℕ, ◌+◌, ◌-◌, Bytes, Option, none, some}
use scion_int_p.Outcome.{Outcome, ok, throw, runtime_error}
use scion_int_p.P4Runtime.{P4Info}

-- The rest of `loadP4Info`: `opened` is the number of open descriptors, which `close` lowers.
finish_load : Option P4Info → ℕ → Outcome P4Info × ℕ
finish_load none opened = (throw (runtime_error "Invalid P4 Info"), opened - 1)
finish_load (some p4info) opened = (ok p4info, opened)

-- `file` is what the name stands for, if it can be opened; `parse` is protobuf's `TextFormat::Parse`.
unfoldable pub load_p4_info : (Bytes → Option P4Info) → Option Bytes → ℕ → Outcome P4Info × ℕ
unfolding finish_load
load_p4_info parse none opened = (throw (runtime_error "File not found"), opened)
load_p4_info parse (some text) opened = finish_load (parse text) (opened + 1)

unfoldable pub load_device_config : Option Bytes → Outcome Bytes
load_device_config none = throw (runtime_error "File not found")
load_device_config (some bytes) = ok bytes
