-- ===== src/Cleanup.antt =====
-- internal/cleanup/cleanup.go: the review of unused servers, and the removal of those selected in
-- internal/commands/cleanup.go.
pub mod Review
pub mod Removal
use sshm.Prelude.{
  ℕ, ◌*◌, ◌/◌, ℤ, pos, negsuc, sub_ℕ, wrap_int64, leb, ltb_ℤ, Bool, true, false, not, ◌&&◌, ◌||◌,
  List, [], ◌∷◌, ◌++◌, Option, none, some, if◌then◌else◌, is_nil,
}
use mathlib.Core.List.{map}
use sshm.Text.{Text, ◌==◌}
unfoldable use sshm.Text.{text_eq}
unfoldable use sshm.Text.Sort.{sort_by, sort_strings}
use sshm.Map.{Map, is_some}
unfoldable use sshm.Map.{get, put, remove, keys}
use sshm.Map.Keys.{member}
unfoldable use sshm.Map.Keys.{set_of}
use sshm.Result.{Result, ok, err, ◌>>=◌, ◌>>◌, fail_if}
use sshm.Time.{Time, Duration, zero_time, is_zero, after, day}
unfoldable use sshm.Time.{add, sub}
use sshm.Config.{Server, Config}
unfoldable use sshm.Config.References.{cleanup_protection_reasons}

pub data Reason : Type 0 where
  idle never_used identity_changed history_unknown : Reason

abbrev pub is_history_unknown : Reason → Bool
is_history_unknown history_unknown = true
is_history_unknown _ = false

pub record Entry : Type 0 where
  pub alias : Text
  pub platform : Text
  pub description : Text
  pub created_at : Option Time
  pub identity_changed_at : Option Time
  pub last_used : Option Time
  pub last_seen : Option Time
  pub last_checked : Option Time
  pub last_status : Text
  pub idle_days : ℕ
  pub reason : Reason
  pub protection_reasons : List Text

pub record Report : Type 0 where
  pub generated_at : Time
  pub older_than_days : ℤ
  pub candidates : List Entry
  pub unknown : List Entry
  pub protected : List Entry

-- optionalTime
abbrev optional_time : Time → Option Time
optional_time value = if is_zero value then none else some value

-- wholeDays
unfoldable pub whole_days : Duration → ℕ
whole_days (pos duration) = duration / day
whole_days (negsuc duration) = 0

unfoldable pub entry_of : Text → Server → Reason → ℕ → Entry
entry_of alias server reason idle_days = record {
  alias = alias;
  platform = server.platform;
  description = server.description;
  created_at = optional_time server.created_at;
  identity_changed_at = optional_time server.identity_changed_at;
  last_used = optional_time server.last_used;
  last_seen = optional_time server.last_seen;
  last_checked = optional_time server.last_checked;
  last_status = server.last_status;
  idle_days = idle_days;
  reason = reason;
  protection_reasons = [];
}

-- classify; `none` is an entry that is not eligible.
unfoldable pub classify : Text → Server → Time → Time → Option Entry
unfolding entry_of whole_days sub
classify alias server now cutoff =
    let changed = after server.identity_changed_at server.created_at in
    let baseline = if changed then server.identity_changed_at else server.created_at in
    let unused_reason = if changed then identity_changed else never_used in
    if is_zero server.last_used && is_zero baseline
    then some (entry_of alias server history_unknown 0)
    else if is_zero server.last_used
    then (if after baseline cutoff
        then none
        else some (entry_of alias server unused_reason (whole_days (sub now baseline))))
    else if not (after server.last_used cutoff)
    then some (entry_of alias server idle (whole_days (sub now server.last_used)))
    else none

-- if olderThanDays < 1 { olderThanDays = 90 }
abbrev pub review_days : ℤ → ℤ
review_days days = if ltb_ℤ days (pos 1) then pos 90 else days

-- now.Add(-time.Duration(olderThanDays) * 24 * time.Hour), on 64-bit durations.
unfoldable pub cutoff_of : Time → ℤ → Time
unfolding add
cutoff_of now (pos days) = add now (wrap_int64 (sub_ℕ 0 (days * day)))
cutoff_of now (negsuc days) = now

-- Where the body of the loop appends the entry.
unfoldable pub file_entry : Bool → Entry → Report → Report
file_entry include_unknown entry report =
    if not (is_nil entry.protection_reasons)
    then record report { protected = report.protected ++ (entry ∷ []) }
    else if is_history_unknown entry.reason && not include_unknown
    then record report { unknown = report.unknown ++ (entry ∷ []) }
    else record report { candidates = report.candidates ++ (entry ∷ []) }

review_eligible : Config → Bool → Text → Option Entry → Report → Report
unfolding file_entry
review_eligible cfg include_unknown alias none report = report
review_eligible cfg include_unknown alias (some entry) report =
    file_entry include_unknown
      (record entry { protection_reasons = cleanup_protection_reasons (some cfg) alias }) report

review_server : Config → Bool → Time → Time → Text → Option Server → Report → Report
unfolding review_eligible
review_server cfg include_unknown now cutoff alias none report = report
review_server cfg include_unknown now cutoff alias (some server) report =
    review_eligible cfg include_unknown alias (classify alias server now cutoff) report

review_servers : Config → Bool → Time → Time → Map (Option Server) → Report → Report
unfolding review_server
review_servers cfg include_unknown now cutoff [] report = report
review_servers cfg include_unknown now cutoff ((alias, server) ∷ m) report =
    review_servers cfg include_unknown now cutoff m
      (review_server cfg include_unknown now cutoff alias server report)

empty_report : Time → ℤ → Report
empty_report now days = record {
  generated_at = now;
  older_than_days = days;
  candidates = [];
  unknown = [];
  protected = [];
}

sorted_report : Report → Report
sorted_report report = record report {
  candidates = sort_by (λ (e : Entry). e.alias) report.candidates;
  unknown = sort_by (λ (e : Entry). e.alias) report.unknown;
  protected = sort_by (λ (e : Entry). e.alias) report.protected;
}

-- Review
unfoldable pub review : Option Config → Time → ℤ → Bool → Report
unfolding review_servers empty_report sorted_report cutoff_of classify sort_by
review none now older_than_days include_unknown = empty_report now (review_days older_than_days)
review (some cfg) now older_than_days include_unknown =
    let days = review_days older_than_days in
    sorted_report (
      review_servers cfg include_unknown now (cutoff_of now days) cfg.servers
        (empty_report now days))

pub data CleanupError : Type 0 where
  no_longer_exists : Text → CleanupError
  became_protected : Text → List Text → CleanupError
  not_a_candidate : Text → CleanupError
  backup_failed : CleanupError

-- One turn of the loop of removeCleanupServers over the selection.
check_selected : Config → List Text → Text → Result CleanupError (Unit {0})
check_selected cfg eligible alias = do
  fail_if (not (is_some (get alias cfg.servers))) (no_longer_exists alias)
  let reasons = cleanup_protection_reasons (some cfg) alias
  fail_if (not (is_nil reasons)) (became_protected alias reasons)
  fail_if (not (member alias eligible)) (not_a_candidate alias)

check_all : Config → List Text → List Text → Result CleanupError (Unit {0})
unfolding check_selected
check_all cfg eligible [] = ok tt
check_all cfg eligible (alias ∷ selected) = do
  check_selected cfg eligible alias
  check_all cfg eligible selected

-- for alias := range selected { delete(cfg.Servers, alias) }
unfoldable pub remove_all : List Text → Map (Option Server) → Map (Option Server)
remove_all [] m = m
remove_all (alias ∷ selected) m = remove_all selected (remove alias m)

write_backup : Option Text → Result CleanupError Text
write_backup none = err backup_failed
write_backup (some path) = ok path

-- The callback of removeCleanupServers: the new document, the names removed, and the backup's
-- path. `backup` is what writing the backup file returned.
unfoldable pub remove_cleanup_servers :
    Option Text → Time → List Text → ℤ → Config → Result CleanupError (Config × List Text × Text)
unfolding check_all remove_all write_backup
remove_cleanup_servers backup now aliases older_than_days cfg = do
  let selected = keys {0} (set_of tt aliases)
  let report = review (some cfg) now older_than_days true
  check_all cfg (map (λ (e : Entry). e.alias) report.candidates) selected
  path ← write_backup backup
  ok (record cfg { servers = remove_all selected cfg.servers }, sort_strings selected, path)
