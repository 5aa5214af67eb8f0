-- ===== src/Inventory.antt =====
-- internal/inventory/collect.go: hardware observations, their bounds, and the newer of two.
use sshm.Prelude.{
  ℕ, ℤ, pos, ltb_ℤ, max_ℤ, Bool, true, not, ◌&&◌, ◌||◌, List, Option, none, some, Discrete,
  ℕ_discrete, if◌then◌else◌, ltb, length, every, elements,
}
use sshm.Text.{Text, ◌==◌, codes}
unfoldable use sshm.Text.{len}

pub record Disk : Type 0 where
  pub id : Text
  pub parent : Text
  pub model : Text
  pub kind : Text
  pub filesystem : Text
  pub mounts : Option (List Text)
  pub total : ℕ
  pub free : Option ℕ

pub record Snapshot : Type 0 where
  pub attempted_at : ℤ
  pub refresh_failed : Bool
  pub checked_at : ℤ
  pub status : Text
  pub platform : Text
  pub os : Text
  pub arch : Text
  pub cpu : Text
  pub cores : ℤ
  pub threads : ℤ
  pub memory_total : ℕ
  pub memory_available : Option ℕ
  pub disks : Option (List Disk)
  pub notes : Option (List Text)

unfoldable pub Disk-discrete : Discrete Disk
Disk-discrete = hlevel ℕ_discrete

unfoldable pub Snapshot-discrete : Discrete Snapshot
Snapshot-discrete = hlevel (ℕ_discrete, Disk-discrete)

-- A pointer of nil is `none`. `now_plus_day` is time.Now().Add(24*time.Hour).UnixMilli().
valid_disk : Disk → Bool
unfolding len
valid_disk d =
    not (
      ltb 1024 (len d.id)
      || ltb 512 (len d.model)
      || ltb 1024 (len d.parent)
      || ltb 128 (length (elements d.mounts))
      || ltb 32 (len d.kind)
      || ltb 64 (len d.filesystem))
    && every (λ m. not (ltb 4096 (len m))) (elements d.mounts)

within_bounds : ℤ → Snapshot → Bool
unfolding len
within_bounds now_plus_day s = not (
    ltb_ℤ s.attempted_at (pos 0)
    || ltb_ℤ now_plus_day s.attempted_at
    || ltb_ℤ s.checked_at (pos 0)
    || ltb_ℤ now_plus_day s.checked_at
    || ltb 256 (length (elements s.disks))
    || ltb 16 (length (elements s.notes))
    || ltb 512 (len s.os)
    || ltb 512 (len s.cpu)
    || ltb 64 (len s.arch)
    || ltb_ℤ s.cores (pos 0)
    || ltb_ℤ s.threads (pos 0))

unfoldable pub valid : ℤ → Option Snapshot → Bool
unfolding within_bounds valid_disk
valid now_plus_day none = true
valid now_plus_day (some s) =
    within_bounds now_plus_day s
    && (s.status == codes "ok" || s.status == codes "partial" || s.status == codes "unavailable")
    && every valid_disk (elements s.disks)

abbrev pub sampled_at : Snapshot → ℤ
sampled_at s = max_ℤ s.checked_at s.attempted_at

-- Newer
unfoldable pub newer : Option Snapshot → Option Snapshot → Option Snapshot
newer none b = b
newer (some a) none = some a
newer (some a) (some b) =
    if not (ltb_ℤ (sampled_at a) (sampled_at b))
    then some a
    else if b.status == codes "unavailable" && not (a.status == codes "unavailable")
    then some (record a { attempted_at = sampled_at b; refresh_failed = true })
    else some b
