-- ===== src/Brightness/Backlight/Modify.antt =====
-- modifyState: the clamp, and the sums for which the source gives no result.
use tjtools.Common.{ltb, if◌then◌else◌, ℕ, suc, ◌+◌, ◌-◌, ◌≤◌, ◌<◌, ◌^◌, ◌≡◌, arith, min}
use tjtools.Common.Int.{ℤ, pos, negsuc, IsInt, pos_part}
use tjtools.Brightness.Backlight.{Io, BacklightContext, set, modify_state, undefined}

-- The brightness that a change leads to, in unbounded numbers.
abbrev pub clamped_sum : ℕ → ℕ → ℤ → ℕ
clamped_sum max current (pos n) = min max (current + n)
clamped_sum max current (negsuc n) = current - suc n

-- A maximum that is an int, and a change that is one. A sum that is an int is clamped to the range
-- and applied by `set`; a larger one is undefined, and so is what the daemon does from there.
pub modify_state_cases :
    (io : Io) (value : ℤ) (ctx : BacklightContext)
    → ctx.current_brightness ≤ ctx.max_brightness
    → ctx.max_brightness < 2 ^ 31
    → IsInt value
    → modify_state io value ctx ≡ (
        if ltb (ctx.current_brightness + pos_part value) (2 ^ 31)
        then set io (clamped_sum ctx.max_brightness ctx.current_brightness value) ctx
        else (undefined, ctx))
unfolding modify_state set
modify_state_cases io (pos n) ctx h b i = ground arith
modify_state_cases io (negsuc n) ctx h b i = ground arith
