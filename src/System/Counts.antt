-- ===== src/System/Counts.antt =====
-- Src/IACore/imp/cpp/IACore.cpp and Src/IACore/inc/IACore/SocketOps.hpp: the counts of
-- initializations. A count is an `i32`: it is kept as its bit pattern, a number below 2 ^ 32 that wraps
-- around, and compared as a signed number. The law is in Counts/Balance.
pub mod Balance
use iacore.Base.{ℕ, ◌+◌, ◌-◌, ◌%◌, ◌^◌, ◌&&◌, Bool, true, false, List, [], ◌∷◌, ltb, if◌then◌else◌}

abbrev pub count_mod : ℕ
count_mod = 2 ^ 32

-- The order of two counts as signed numbers, of which the first is not negative.
unfoldable pub is_above : ℕ → ℕ → Bool
is_above n count = ltb n count && ltb count (2 ^ 31)

pub data LibraryCall : Type 0 where
  logger_initialize logger_terminate : LibraryCall

-- `initialize`, `terminate` and `is_initialized` of IACore.
unfoldable pub initialize : ℕ → ℕ × List LibraryCall
unfolding is_above
initialize count =
    let g_core_init_count = (count + 1) % count_mod in
    if is_above 1 g_core_init_count
    then (g_core_init_count, [])
    else (g_core_init_count, logger_initialize ∷ [])

unfoldable pub terminate : ℕ → ℕ × List LibraryCall
unfolding is_above
terminate count =
    let g_core_init_count = (count + count_mod - 1) % count_mod in
    if is_above 0 g_core_init_count
    then (g_core_init_count, [])
    else (g_core_init_count, logger_terminate ∷ [])

unfoldable pub is_initialized : ℕ → Bool
unfolding is_above
is_initialized g_core_init_count = is_above 0 g_core_init_count

-- Those of SocketOps, on a Unix system.
pub initialize_sockets : ℕ → ℕ
initialize_sockets s_init_count = (s_init_count + 1) % count_mod

pub terminate_sockets : ℕ → ℕ
terminate_sockets s_init_count = (s_init_count + count_mod - 1) % count_mod
