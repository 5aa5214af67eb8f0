-- ===== src/Vault/Observed.antt =====
-- internal/cloudsync/activity.go: observations of two devices are joined field by field.
pub mod Laws
use sshm.Prelude.{
  ℤ, pos, ltb_ℤ, eq_ℤ, max_ℤ, Bool, true, false, ◌&&◌, ◌||◌, not, [], none, if◌then◌else◌, nat_eq,
  pos_part, neg_part, ◌+◌, is_nil,
}
use sshm.Text.{Text}
unfoldable use sshm.Text.Order.{text_ltb}
unfoldable use sshm.Inventory.{newer}
use sshm.Vault.{Activity}

-- Activity{}
abbrev pub zero_activity : Activity
zero_activity = record {
  hardware = none;
  sshm_status = [];
  sshm_version = [];
  sshm_checked_at = pos 0;
  ssh_checked_at = pos 0;
  ssh_error = [];
  status = [];
  platform = [];
  last_connected = pos 0;
  last_seen = pos 0;
  checked_at = pos 0;
}

-- The later of two observations, a tie going to the greater text.
unfoldable pub overtakes : ℤ → Text → ℤ → Text → Bool
overtakes at a bt b = ltb_ℤ at bt || (eq_ℤ bt at && text_ltb a b)

takes_platform : Activity → Activity → Bool
unfolding overtakes
takes_platform a b =
    not (is_nil b.platform)
    && (is_nil a.platform || overtakes a.checked_at a.platform b.checked_at b.platform)

-- mergeActivity. CheckedAt is set last, so each test reads the old one.
unfoldable pub merge_activity : Activity → Activity → Activity
unfolding overtakes takes_platform
merge_activity a b =
    let ssh = overtakes a.ssh_checked_at a.ssh_error b.ssh_checked_at b.ssh_error in
    let sshm = overtakes a.sshm_checked_at a.sshm_version b.sshm_checked_at b.sshm_version in
    record {
      hardware = newer a.hardware b.hardware;
      sshm_status = if sshm then b.sshm_status else a.sshm_status;
      sshm_version = if sshm then b.sshm_version else a.sshm_version;
      sshm_checked_at = if sshm then b.sshm_checked_at else a.sshm_checked_at;
      ssh_checked_at = if ssh then b.ssh_checked_at else a.ssh_checked_at;
      ssh_error = if ssh then b.ssh_error else a.ssh_error;
      status = if overtakes a.checked_at a.status b.checked_at b.status then b.status else a.status;
      platform = if takes_platform a b then b.platform else a.platform;
      last_connected = max_ℤ a.last_connected b.last_connected;
      last_seen = max_ℤ a.last_seen b.last_seen;
      checked_at = max_ℤ a.checked_at b.checked_at;
    }
