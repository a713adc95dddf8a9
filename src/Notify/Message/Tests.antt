-- ===== src/Notify/Message/Tests.antt =====
-- The delays of internal/notify/message.go, at concrete numbers of failures.
use Prim.Native.Nat.{min}
use dbs_monitor.Prelude.{◌*◌, ◌^◌, ◌≡◌, refl, none, some, arith, second, minute}
use dbs_monitor.Notify.Message.{retry_delay}
use dbs_monitor.Notify.Message.Laws.{retry_delay_lem}

-- From the 35th failure on the shift overflows an int64: the delay is a negative number, whatever the
-- cap is. The dispatcher stops after three failures.
overflows : retry_delay 35 minute ≡ none
unfolding retry_delay
overflows = refl

retry_delay_lem_example : retry_delay 3 minute ≡ some (min minute (second * 2 ^ 2))
retry_delay_lem_example = retry_delay_lem 2 minute (omega arith)
