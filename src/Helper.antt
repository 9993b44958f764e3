-- ===== src/Helper.antt =====
-- crates/dns-helper/src/main.rs: the commands of the helper.
pub mod Attach
pub mod Run
pub mod Lifecycle
pub mod Unrestored
pub mod Owned
pub mod Safety
mod Examples
use detour.Prelude.{Option, Text, none, parse_uint, some, ℕ}

-- Our own uid, unless one is given by argument or by the environment.
abbrev pub or_else : Option ℕ → Option ℕ → Option ℕ
or_else (some a) b = some a
or_else none b = b

abbrev or_uid : Option ℕ → ℕ → ℕ
or_uid none uid = uid
or_uid (some a) uid = a

abbrev parsed : Option Text → Option ℕ
parsed none = none
parsed (some t) = parse_uint 4294967295 t

-- The argument, the variables PKEXEC_UID and SUDO_UID, and `getuid`.
unfoldable pub invoking_uid : Option ℕ → Option Text → Option Text → ℕ → ℕ
unfolding parse_uint
invoking_uid explicit pkexec sudo own =
    or_uid (or_else explicit (or_else (parsed pkexec) (parsed sudo))) own
