-- ===== src/Tests/Documents.antt =====
-- The configuration document: removal, references, cleanup.
use sshm.Prelude.{
  ◌*◌, ℤ, pos, true, false, [], ◌∷◌, none, some, ◌≡◌, ◌↔◌, refl, arith, if◌then◌else◌, false, ◌-ℤ◌,
}
use sshm.Text.{Text, codes, trim_space, text_eq, join}
use sshm.Text.Order.{text_ltb}
use sshm.Text.Sort.{sort_strings}
use sshm.Map.{is_some, get, put, remove, keys}
use sshm.Map.Keys.{member, holds, keys_where, set_of}
use sshm.Result.{ok, err}
use sshm.Time.{day}
use sshm.Config.References.{
  jumps_through, in_use, check_server_removal, remove_server, projects_using_server,
  servers_using_proxy_jump, cleanup_protection_reasons,
}
use sshm.Config.References.Removal.{
  IsClosed, remove_server-IsClosed, check_server_removal_iff, removed_from,
}
use sshm.Cleanup.{remove_cleanup_servers, review}
use sshm.Config.References.Protection.{IsFree}
use sshm.Cleanup.Removal.{remove_cleanup_servers-IsFree, remove_cleanup_servers_effect}
use sshm.Cleanup.{cutoff_of, review_days}
use sshm.Cleanup.Review.{is_candidate, aliases, member-review, cutoff_of_days}
use sshm.Tests.Data.{office, office-IsClosed, attic, attic-IsClosed}

removal_of_gateway :
    remove_server office (codes "gw") ≡ err (in_use (codes "gw") (codes "web" ∷ []))
unfolding remove_server check_server_removal servers_using_proxy_jump trim_space keys_where get
    text_eq sort_strings
removal_of_gateway = refl

reasons_for_web :
    cleanup_protection_reasons (some office) (codes "web")
    ≡ codes "default server" ∷ codes "used by projects: site" ∷ []
unfolding cleanup_protection_reasons projects_using_server servers_using_proxy_jump trim_space
    keys_where get text_eq sort_strings join
reasons_for_web = refl

removal_of_web : remove_server office (codes "web") ≡ ok (removed_from office (codes "web"))
unfolding remove_server check_server_removal servers_using_proxy_jump trim_space keys_where get
    text_eq sort_strings
removal_of_web = refl

remove_server-IsClosed_example : IsClosed (removed_from office (codes "web"))
remove_server-IsClosed_example =
    remove_server-IsClosed office (codes "web") office-IsClosed removal_of_web

check_server_removal_iff_example : (check_server_removal (some office) (codes "web") ≡ ok tt) ↔ (
    (is_some (get (codes "web") office.servers) ≡ true)
    × ((name : Text) → holds (jumps_through (codes "web")) name (get name office.servers) ≡ false))
check_server_removal_iff_example =
    check_server_removal_iff office (codes "web") office-IsClosed.servers_ordered

-- A thousand days after the zero time.
abbrev now : ℤ
now = pos (1000 * day)

cleanup_of_old :
    remove_cleanup_servers (some (codes "b")) now (codes "old" ∷ codes "old" ∷ []) (pos 90) attic
    ≡ ok (office, codes "old" ∷ [], codes "b")
unfolding remove_cleanup_servers review cleanup_protection_reasons projects_using_server
    servers_using_proxy_jump trim_space keys_where get put remove keys set_of text_eq text_ltb
    sort_strings join
cleanup_of_old = refl

remove_cleanup_servers-IsFree_example : IsFree office (codes "old")
unfolding text_eq
remove_cleanup_servers-IsFree_example =
    remove_cleanup_servers-IsFree (some (codes "b")) now (codes "old" ∷ codes "old" ∷ []) (pos 90)
      attic attic-IsClosed.servers_ordered cleanup_of_old (codes "old")
      attic-IsClosed.projects_ordered refl

remove_cleanup_servers_effect_example :
    ((j : Text)
      → get j office.servers
        ≡ (if member j (codes "old" ∷ codes "old" ∷ []) then none else get j attic.servers))
    × ((j : Text)
        → member j (codes "old" ∷ codes "old" ∷ []) ≡ true
        → holds
            (is_candidate attic true (cutoff_of now (review_days (pos 90))))
            j
            (get j attic.servers)
          ≡ true)
    × ((j : Text) → member j (codes "old" ∷ []) ≡ member j (codes "old" ∷ codes "old" ∷ []))
    × (office.projects ≡ attic.projects)
    × (office.default ≡ attic.default)
    × (some (codes "b") ≡ some (codes "b"))
remove_cleanup_servers_effect_example =
    remove_cleanup_servers_effect (some (codes "b")) now (codes "old" ∷ codes "old" ∷ []) (pos 90)
      attic attic-IsClosed.servers_ordered cleanup_of_old

member-review_example :
    member (codes "old") (aliases (review (some attic) now (pos 90) false).candidates)
    ≡ holds
        (is_candidate attic false (cutoff_of now (review_days (pos 90))))
        (codes "old")
        (get (codes "old") attic.servers)
member-review_example =
    member-review attic now (pos 90) false (codes "old") attic-IsClosed.servers_ordered

cutoff_of_days_example : cutoff_of now (pos 90) ≡ now -ℤ pos (90 * day)
cutoff_of_days_example = cutoff_of_days now 90 (omega arith)
