-- ===== src/Disk/Label/Waiting.antt =====
-- The loop of Partition.WaitUntilAvailable (core/disk/partition.go).
use albius.Base.{
  ℕ, zero, suc, ◌<◌, ◌≡◌, ◌≢◌, list_beq, true, false, Text, [], ==_of_ne, list_eq, nat_eq,
}
use albius.Machine.{
  Platform, Error, present, absent, ok, err, World, pure, ◌>>=◌, attempt, observe, stat_path,
}
use albius.Machine.Polling.{Waits, poll_until-Waits}
use albius.Disk.Types.{Partition}
use albius.Disk.Partition.{get_uuid_by_path}
use albius.Disk.Label.{check_uuid, partition_ready_at, partition_ready, wait_for_partition}

module _ ⦃P : Platform⦄ (part : Partition) where
  -- A round in which the partition is not there: its device is not, or, for a partition with a
  -- filesystem, lsblk prints no UUID, or it fails.
  pub data NotYet (w : World) : World → Type 0 where
    no_device :
        (s : P.State) → P.stat part.path w.state ≡ (absent, s) → NotYet w (record w { state = s })
    no_uuid :
        (s : P.State) (w' : World)
        → P.stat part.path w.state ≡ (present, s)
        → part.filesystem ≢ []
        → get_uuid_by_path part.path (record w { state = s }) ≡ (ok [], w')
        → NotYet w w'
    no_answer :
        (s : P.State) (w' : World) (e : Error)
        → P.stat part.path w.state ≡ (present, s)
        → part.filesystem ≢ []
        → get_uuid_by_path part.path (record w { state = s }) ≡ (err e, w')
        → NotYet w w'

  -- A round in which it is there: its device is, and, if it has a filesystem, lsblk prints its UUID.
  pub data IsThere (w : World) : World → Type 0 where
    unformatted :
        (s : P.State)
        → P.stat part.path w.state ≡ (present, s)
        → part.filesystem ≡ []
        → IsThere w (record w { state = s })
    formatted :
        (s : P.State) (w' : World) (uuid : Text)
        → P.stat part.path w.state ≡ (present, s)
        → part.filesystem ≢ []
        → uuid ≢ []
        → get_uuid_by_path part.path (record w { state = s }) ≡ (ok uuid, w')
        → IsThere w w'

  -- Rounds in which the partition is not there, from one world to another
  abbrev pub Rounds : ℕ → World → World → Type 0
  Rounds zero w w' = w ≡ w'
  Rounds (suc k) w w' = (w1 : World) × NotYet w w1 × Rounds k w1 w'

  partition_ready-NotYet : (w w' : World) → NotYet w w' → partition_ready part w ≡ (ok false, w')
  unfolding partition_ready partition_ready_at check_uuid stat_path observe attempt ◌>>=◌ pure
      list_beq
  partition_ready-NotYet w _ (NotYet.no_device s h) = rw h
  partition_ready-NotYet w w' (NotYet.no_uuid s _ h f u) = rw (h, ==_of_ne part.filesystem [] f, u)
  partition_ready-NotYet w w' (NotYet.no_answer s _ e h f u) =
      rw (h, ==_of_ne part.filesystem [] f, u)

  partition_ready-IsThere : (w w' : World) → IsThere w w' → partition_ready part w ≡ (ok true, w')
  unfolding partition_ready partition_ready_at check_uuid stat_path observe attempt ◌>>=◌ pure
      list_beq
  partition_ready-IsThere w _ (IsThere.unformatted s h f) = rw (h, f)
  partition_ready-IsThere w w' (IsThere.formatted s _ uuid h f n u) =
      rw (h, ==_of_ne part.filesystem [] f, u, ==_of_ne uuid [] n)

  Rounds-Waits : (k : ℕ) (w w' : World) → Rounds k w w' → Waits k (partition_ready part) w w'
  Rounds-Waits zero w w' h = h
  Rounds-Waits (suc k) w w' (w1, round, rest) =
      (w1, partition_ready-NotYet w w1 round, Rounds-Waits k w1 w' rest)

  -- Partition.WaitUntilAvailable returns after the first round in which the partition is there,
  -- that is, its device is and, if it has a filesystem, lsblk prints its UUID; it leaves the world
  -- of this round, however many rounds it was not there, as long as they are fewer than the model
  -- makes.
  pub wait_for_partition-IsThere :
      (k : ℕ) (w w1 w2 : World)
      → k < P.patience
      → Rounds k w w1
      → IsThere w1 w2
      → wait_for_partition part w ≡ (ok tt, w2)
  unfolding wait_for_partition
  wait_for_partition-IsThere k w w1 w2 lt rounds there =
      poll_until-Waits P.patience k (partition_ready part) w w1 w2 lt (Rounds-Waits k w w1 rounds)
        (partition_ready-IsThere w1 w2 there)
