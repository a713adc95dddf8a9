-- ===== src/Collect/Backoff/Laws.antt =====
-- The backoff in closed form, and its bounds.
use Prim.Native.Nat.{min}
use native.Mathlib.Nat.{pow-suc, mul_comm}
use dbs_monitor.Prelude.{
  ℕ, zero, suc, ◌*◌, ◌^◌, ◌≤◌, ◌≡◌, ◌⊎◌, refl, false, true, arith, ltb, if◌then◌else◌, Bool-cases,
  inl, inr, ap,
}
use dbs_monitor.Metric.Task.{TaskKind, is_probe_task}
use dbs_monitor.Collect.Backoff.{backoff_cap, double_backoff, failure_backoff}

pow_two_pos : (n : ℕ) → 1 ≤ 2 ^ n
pow_two_pos zero = omega arith
pow_two_pos (suc n) = rw (pow-suc 2 n) (omega (arith, pow_two_pos n))

le-mul_pos : (b k : ℕ) → 1 ≤ k → b ≤ b * k
le-mul_pos b k h = grind arith

-- What the loop and the cut-off after it give.
double_backoff_capped :
    (n b : ℕ)
    → (if ltb backoff_cap (double_backoff n b) then backoff_cap else double_backoff n b)
      ≡ min backoff_cap (b * 2 ^ n)
unfolding double_backoff
double_backoff_capped zero b = ground arith
double_backoff_capped (suc n) b = elim (Bool-cases (ltb b backoff_cap)) [
  | inl below ↦
      rw (pow-suc 2 n)
        (ground (arith, double_backoff_capped n (b * 2), ap (λ (t : ℕ). t * 2 ^ n) (mul_comm b 2)))
  | inr above ↦ ground (arith, le-mul_pos b (2 ^ suc n) (pow_two_pos (suc n)))
]

-- After `n + 1` failures in a row a task other than a probe waits its interval, doubled `n` times,
-- but never more than 60 seconds.
pub failure_backoff_lem :
    (kind : TaskKind) (interval n : ℕ)
    → is_probe_task kind ≡ false
    → failure_backoff kind interval (suc n) ≡ min backoff_cap (interval * 2 ^ n)
unfolding failure_backoff
failure_backoff_lem kind interval n h = ground (arith, double_backoff_capped n interval)

failure_backoff_none :
    (kind : TaskKind) (interval failures : ℕ)
    → (is_probe_task kind ≡ true) ⊎ (failures ≡ 0)
    → failure_backoff kind interval failures ≡ 0
unfolding failure_backoff
failure_backoff_none kind interval failures h = ground arith

-- Another failure never shortens the wait, and no wait exceeds 60 seconds.
pub failure_backoff_mono :
    (kind : TaskKind) (interval failures : ℕ)
    → (failure_backoff kind interval failures ≤ failure_backoff kind interval (suc failures))
      × (failure_backoff kind interval failures ≤ backoff_cap)
failure_backoff_mono kind interval zero =
    omega (arith, failure_backoff_none kind interval 0 (inr refl))
failure_backoff_mono kind interval (suc n) = elim (Bool-cases (is_probe_task kind)) [
  | inl is_probe ↦ omega (
    arith,
    failure_backoff_none kind interval (suc n) (inl is_probe),
    failure_backoff_none kind interval (suc (suc n)) (inl is_probe),
  )
  | inr other ↦
      rw
        (failure_backoff_lem kind interval n other, failure_backoff_lem kind interval (suc n) other)
        (omega (arith, ap (λ (t : ℕ). interval * t) (pow-suc 2 n)))
]
