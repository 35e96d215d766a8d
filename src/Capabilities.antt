-- ===== src/Capabilities.antt =====
-- libs/libkerrighed/libcapability.c, and the bits of libs/include/capability.h. A word of
-- capabilities, a C int, is its bits: a number below 2 ^ 32.
use kerrighed_tools.Base.{ℕ, ◌%◌, ◌-◌, Bool, not, ℤ, pos, negsuc, ◌==◌}
use kerrighed_tools.Base.Bits.{shl, word_and}
use kerrighed_tools.Kernel.{
  World, M, ◌>>=◌, return, Answer, Caps, call_kerrighed_services, set_cap, get_cap, set_pid_cap,
  get_pid_cap, set_father_cap, get_father_cap, get_supported_cap,
}

abbrev pub cap_change_kerrighed_cap : ℕ
cap_change_kerrighed_cap = 0

abbrev pub cap_size : ℕ
cap_size = 12

unfoldable pub cap_raised : ℕ → ℕ → Bool
cap_raised cap_vector cap = not (word_and 32 cap_vector (shl cap) == 0)

-- A long or an int as the bits of an int.
abbrev pub word_of : ℤ → ℕ
word_of (pos n) = n % 4294967296
word_of (negsuc n) = 4294967295 - n % 4294967296

module _ (w : World) where
  unfoldable pub capset : Caps → M ℤ
  capset new_caps = do r ← call_kerrighed_services w (set_cap new_caps); return r.ret

  -- What the kernel writes comes with the result, here and below.
  unfoldable pub capget : M Answer
  capget = call_kerrighed_services w get_cap

  unfoldable pub pid_capset : ℤ → Caps → M ℤ
  pid_capset pid new_caps = do
    r ← call_kerrighed_services w (set_pid_cap pid new_caps)
    return r.ret

  unfoldable pub pid_capget : ℤ → M Answer
  pid_capget pid = call_kerrighed_services w (get_pid_cap pid)

  unfoldable pub cap_get_supported : M Answer
  cap_get_supported = call_kerrighed_services w get_supported_cap

  unfoldable pub father_capset : Caps → M ℤ
  father_capset new_caps = do r ← call_kerrighed_services w (set_father_cap new_caps); return r.ret

  unfoldable pub father_capget : M Answer
  father_capget = call_kerrighed_services w get_father_cap
