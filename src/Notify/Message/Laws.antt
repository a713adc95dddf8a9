-- ===== src/Notify/Message/Laws.antt =====
-- The delay of a retry.
use Prim.Native.Nat.{min}
use native.Mathlib.Nat.{pow-le-pow_right}
use dbs_monitor.Prelude.{ℕ, suc, ◌-◌, ◌*◌, ◌^◌, ◌≤◌, ◌<◌, ◌≡◌, some, arith, second}
use dbs_monitor.Notify.Message.{retry_delay}

-- No failure up to the 34th makes the shift overflow.
no_overflow : (n : ℕ) → n ≤ 33 → second * 2 ^ n < 2 ^ 63
no_overflow n h = let bound : 2 ^ n ≤ 2 ^ 33 = pow-le-pow_right (omega arith) h in omega arith

-- After failure n + 1, for n up to 33, the delay is one second doubled n times, cut at the cap.
pub retry_delay_lem :
    (n cap_ns : ℕ) → n ≤ 33 → retry_delay (suc n) cap_ns ≡ some (min cap_ns (second * 2 ^ n))
unfolding retry_delay
retry_delay_lem n cap_ns h =
    let e : suc n - 1 ≡ n = omega arith in rw e (ground (arith, no_overflow n h))
