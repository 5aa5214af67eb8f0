-- ===== src/Vault/Observed/Laws.antt =====
-- Joining observations of a server: their times, and their hardware samples.
use sshm.Prelude.{◌≤ℤ◌, Option, none, some, ◌≡◌, refl, arith}
use sshm.Text.{Text, codes}
use sshm.Text.Order.{text_ltb_irrefl}
use sshm.Inventory.{Snapshot, newer, sampled_at}
use sshm.Vault.{Activity}
use sshm.Vault.Observed.{merge_activity, overtakes, takes_platform}

abbrev unavailable : Text
unavailable = codes "unavailable"

newer_idem : (a : Option Snapshot) → newer a a ≡ a
unfolding newer
newer_idem none = refl
newer_idem (some a) = ground arith

-- An observation joined with itself is itself.
pub merge_activity_idem : (a : Activity) → merge_activity a a ≡ a
unfolding merge_activity overtakes takes_platform
merge_activity_idem a = ground (
  arith,
  newer_idem a.hardware,
  text_ltb_irrefl a.status,
  text_ltb_irrefl a.platform,
  text_ltb_irrefl a.ssh_error,
  text_ltb_irrefl a.sshm_version,
)

-- The first sample, if there is one, is met by one that is not older.
abbrev pub IsNotOlder : Option Snapshot → Option Snapshot → Type 0
IsNotOlder none c = Unit
IsNotOlder (some a) none = ⊥
IsNotOlder (some a) (some c) = sampled_at a ≤ℤ sampled_at c
