-- ===== src/Disk/Table/Waiting.antt =====
-- The loop of Disk.WaitUntilAvailable (core/disk/disk.go).
use albius.Base.{
  ℕ, zero, suc, Bool, true, false, Option, none, some, Text, ℤ, atoi, trim_space, arith,
}
use albius.Machine.{Platform, Stat, present, absent, unreadable, pure, stat_path, not_number}
use albius.Machine.Bounds.{
  Bounded, Bounded-le, Bounded-pure, Bounded-fail, Bounded-observe, Bounded-bind,
}
use albius.Util.{output_of}
use albius.Util.Bounds.{Bounded-output_of}
use albius.Disk.Table.{
  counted, count_command, count_devices, disk_ready_at, disk_ready, wait_rounds, wait_for_disk,
}

module _ ⦃P : Platform⦄ where
  Bounded-counted : (out : Text) (n : Option ℤ) → Bounded 0 (counted out n)
  unfolding counted
  Bounded-counted out none = Bounded-fail (not_number out)
  Bounded-counted out (some n) = Bounded-pure n

  Bounded-count_devices : (path : Text) → Bounded 1 (count_devices path)
  unfolding count_devices
  Bounded-count_devices path =
      Bounded-bind (output_of (count_command path)) _ (Bounded-output_of _)
        (λ out. Bounded-counted out (atoi (trim_space out)))

  Bounded-disk_ready_at : (path : Text) (found : Stat) → Bounded 1 (disk_ready_at path found)
  unfolding disk_ready_at
  Bounded-disk_ready_at path absent = Bounded-le (pure false) (omega arith) (Bounded-pure false)
  Bounded-disk_ready_at path present =
      Bounded-bind (count_devices path) _ (Bounded-count_devices path) (λ n. Bounded-pure _)
  Bounded-disk_ready_at path (unreadable why) =
      Bounded-bind (count_devices path) _ (Bounded-count_devices path) (λ n. Bounded-pure _)

  Bounded-disk_ready : (path : Text) → Bounded 1 (disk_ready path)
  unfolding disk_ready stat_path
  Bounded-disk_ready path =
      Bounded-bind (stat_path path) _ (Bounded-observe _)
        (λ found. Bounded-disk_ready_at path found)

  Bounded-round :
      (n : ℕ) (path : Text) (ready : Bool)
      → Bounded n (wait_rounds n path)
      → Bounded n (elim ready [ true ↦ pure tt | false ↦ wait_rounds n path ])
  Bounded-round n path true h = Bounded-le (pure tt) (omega arith) (Bounded-pure tt)
  Bounded-round n path false h = h

  Bounded-wait_rounds : (n : ℕ) (path : Text) → Bounded n (wait_rounds n path)
  unfolding wait_rounds
  Bounded-wait_rounds zero path = Bounded-fail _
  Bounded-wait_rounds (suc n) path = Bounded-le _ (omega arith) (
      Bounded-bind (disk_ready path) _ (Bounded-disk_ready path)
        (λ ready. Bounded-round n path ready (Bounded-wait_rounds n path)))

  -- Whatever the machine answers, Disk.WaitUntilAvailable ends, and it runs at most 600 commands.
  pub wait_for_disk-Bounded : (path : Text) → Bounded 600 (wait_for_disk path)
  unfolding wait_for_disk
  wait_for_disk-Bounded path = Bounded-wait_rounds 600 path
