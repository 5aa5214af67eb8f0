-- ===== src/Cleanup/Review.antt =====
-- The candidates of a review against an independent description of an unused server.
use mathlib.Core.List.{map, map-append}
use mathlib.Core.List.{append-nil, append_assoc}
use sshm.Prelude.{
  ℕ, ◌*◌, ◌≤◌, ℤ, pos, Bool, true, false, not, ◌&&◌, List, [], ◌∷◌, ◌++◌, Option, none, some, ◌≡◌,
  refl, sym, ap, ◌∙◌, arith, if◌then◌else◌, is_nil,
}
use sshm.Text.{Text}
use sshm.Text.Sort.{sort_strings, map-sort_by}
use sshm.Map.{Map, get}
use sshm.Map.Laws.{IsOrdered}
use sshm.Map.Keys.{member, keys_where, holds, member-keys_where, member-sort_strings}
unfoldable use sshm.Prelude.{◌-ℤ◌, ◌+ℤ◌}
use sshm.Time.{Time, is_zero, after, day, add}
use sshm.Config.{Server, Config}
use sshm.Config.References.{cleanup_protection_reasons}
use sshm.Cleanup.{
  Entry, Report, entry_of, classify, file_entry, review_eligible, review_server, review_servers,
  cutoff_of, review_days, review, is_history_unknown, empty_report, sorted_report,
}

-- The last known use of a server: the last login, else the later of its creation and the last
-- change of its identity; the zero time if nothing is known.
abbrev pub last_activity : Server → Time
last_activity s =
    if is_zero s.last_used
    then (if after s.identity_changed_at s.created_at then s.identity_changed_at else s.created_at)
    else s.last_used

-- Not used since the cutoff; where no use is known, as the caller chose.
abbrev pub is_unused : Bool → Time → Server → Bool
is_unused include_unknown cutoff s =
    if is_zero (last_activity s) then include_unknown else not (after (last_activity s) cutoff)

abbrev pub is_candidate : Config → Bool → Time → Text → Option Server → Bool
is_candidate cfg include_unknown cutoff alias none = false
is_candidate cfg include_unknown cutoff alias (some s) =
    is_nil (cleanup_protection_reasons (some cfg) alias) && is_unused include_unknown cutoff s

abbrev pub aliases : List Entry → List Text
aliases = map (λ (e : Entry). e.alias)

abbrev Classified : Text → Server → Time → Option Entry → Type 0
Classified alias s cutoff none = is_unused true cutoff s ≡ false
Classified alias s cutoff (some e) =
    (e.alias ≡ alias)
    × (is_history_unknown e.reason ≡ is_zero (last_activity s))
    × (is_unused true cutoff s ≡ true)

classify-Classified :
    (alias : Text) (s : Server) (now cutoff : Time) (o : Option Entry)
    → classify alias s now cutoff ≡ o
    → Classified alias s cutoff o
unfolding classify entry_of
classify-Classified alias s now cutoff none h = ground arith
classify-Classified alias s now cutoff (some e) h = (ground arith, ground arith, ground arith)

module _ (cfg : Config) (include_unknown : Bool) (now cutoff : Time) where
  file_entry-candidates :
      (alias : Text) (e : Entry) (report : Report)
      → aliases
          (file_entry include_unknown
            (record e { protection_reasons = cleanup_protection_reasons (some cfg) alias })
            report).candidates
        ≡ aliases report.candidates
          ++ (if is_nil (cleanup_protection_reasons (some cfg) alias)
                && not (is_history_unknown e.reason && not include_unknown)
              then e.alias ∷ []
              else [])
  unfolding file_entry
  file_entry-candidates alias e report =
      let filed = record e { protection_reasons = cleanup_protection_reasons (some cfg) alias } in
      ground (
        arith,
        append-nil (aliases report.candidates),
        map-append (λ (x : Entry). x.alias) report.candidates (filed ∷ []),
      )

  review_server-candidates :
      (alias : Text) (server : Option Server) (report : Report)
      → aliases (review_server cfg include_unknown now cutoff alias server report).candidates
        ≡ aliases report.candidates
          ++ (if is_candidate cfg include_unknown cutoff alias server then alias ∷ [] else [])
  unfolding review_server
  review_server-candidates alias none report = sym (append-nil (aliases report.candidates))
  review_server-candidates alias (some s) report =
      go (classify alias s now cutoff) (classify-Classified alias s now cutoff _ refl)
    where
      go :
          (o : Option Entry)
          → Classified alias s cutoff o
          → aliases (review_eligible cfg include_unknown alias o report).candidates
            ≡ aliases report.candidates
              ++ (if is_candidate cfg include_unknown cutoff alias (some s) then alias ∷ [] else [])
      go none c = ground (arith, append-nil (aliases report.candidates))
      go (some e) c =
          file_entry-candidates alias e report
          ∙ ap (◌++◌ (aliases report.candidates)) (ground arith)

  review_servers-candidates :
      (m : Map (Option Server)) (report : Report)
      → aliases (review_servers cfg include_unknown now cutoff m report).candidates
        ≡ aliases report.candidates ++ keys_where (is_candidate cfg include_unknown cutoff) m
  unfolding review_servers keys_where
  review_servers-candidates [] report = sym (append-nil (aliases report.candidates))
  review_servers-candidates ((alias, server) ∷ m) report =
      review_servers-candidates m (review_server cfg include_unknown now cutoff alias server report)
      ∙ rw (review_server-candidates alias server report) (
          rw append_assoc (
            ap (◌++◌ (aliases report.candidates))
              (taken (is_candidate cfg include_unknown cutoff alias server) alias _)))
    where
      taken :
          (b : Bool) (a : Text) (l : List Text)
          → (if b then a ∷ [] else []) ++ l ≡ (if b then a ∷ l else l)
      taken true a l = refl
      taken false a l = refl

aliases-review :
    (cfg : Config) (now : Time) (days : ℤ) (include_unknown : Bool)
    → aliases (review (some cfg) now days include_unknown).candidates
      ≡ sort_strings (
          keys_where
            (is_candidate cfg include_unknown (cutoff_of now (review_days days)))
            cfg.servers)
aliases-review cfg now days include_unknown =
    unfold review sorted_report empty_report in
    map-sort_by (λ (e : Entry). e.alias) _
    ∙ ap sort_strings (
        review_servers-candidates cfg include_unknown now (cutoff_of now (review_days days))
          cfg.servers (empty_report now (review_days days)))

-- A server is a candidate of the review exactly when nothing protects it and it has been unused
-- since the cutoff, a server of unknown history counting as the caller chose.
pub member-review :
    (cfg : Config) (now : Time) (days : ℤ) (include_unknown : Bool) (alias : Text)
    → IsOrdered cfg.servers
    → member alias (aliases (review (some cfg) now days include_unknown).candidates)
      ≡ holds
          (is_candidate cfg include_unknown (cutoff_of now (review_days days)))
          alias
          (get alias cfg.servers)
member-review cfg now days include_unknown alias o =
    rw (aliases-review cfg now days include_unknown)
      (member-sort_strings alias _ ∙ member-keys_where _ alias cfg.servers o)

-- For 1 to 106751 days the cutoff is that many days before now.
pub cutoff_of_days :
    (now : Time) (days : ℕ) → days ≤ 106751 → cutoff_of now (pos days) ≡ now -ℤ pos (days * day)
unfolding cutoff_of add ◌-ℤ◌ ◌+ℤ◌
cutoff_of_days now days h = ground arith
