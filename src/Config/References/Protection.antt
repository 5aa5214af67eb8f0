-- ===== src/Config/References/Protection.antt =====
-- What the protection reasons of a server say: nothing refers to one that has none.
use sshm.Prelude.{
  true, false, not, ◌&&◌, List, [], ◌∷◌, ◌++◌, some, ◌≡◌, refl, sym, ◌∙◌, arith, is_nil,
}
use sshm.Text.{Text, ◌==◌}
use sshm.Map.{get}
use sshm.Map.Laws.{IsOrdered}
use sshm.Map.Keys.{holds}
use sshm.Config.{Server, Config}
use sshm.Config.References.{
  project_uses, jumps_through, projects_using_server, servers_using_proxy_jump,
  cleanup_protection_reasons, used_by, reasons_for,
}
use sshm.Config.References.Removal.{member-servers_using_proxy_jump, member-projects_using_server}

-- Nothing in the document refers to the server.
pub record IsFree (cfg : Config) (alias : Text) : Type 0 where
  pub not_default : (cfg.default == alias) ≡ false
  pub no_project : (name : Text) → holds (project_uses alias) name (get name cfg.projects) ≡ false
  pub no_jump : (name : Text) → holds (jumps_through alias) name (get name cfg.servers) ≡ false

used_by-nil : (label : Text) (l : List Text) → is_nil (used_by label l) ≡ is_nil l
unfolding used_by
used_by-nil label [] = refl
used_by-nil label (a ∷ l) = refl

is_nil-append {ℓ} : {A : Type ℓ} (a b : List A) → is_nil (a ++ b) ≡ (is_nil a && is_nil b)
is_nil-append [] b = refl
is_nil-append (x ∷ a) b = refl

eq_nil {ℓ} : {A : Type ℓ} (l : List A) → is_nil l ≡ true → l ≡ []
eq_nil [] h = refl
eq_nil (a ∷ l) h = cc

-- An unprotected server is one that was not marked, and that nothing refers to.
pub reasons-nil :
    (cfg : Config) (alias : Text) (s : Server)
    → get alias cfg.servers ≡ some (some s)
    → is_nil (cleanup_protection_reasons (some cfg) alias) ≡ (
        not s.cleanup_protected
        && (not (cfg.default == alias)
            && (is_nil (projects_using_server (some cfg) alias)
                && is_nil (servers_using_proxy_jump (some cfg) alias))))
unfolding cleanup_protection_reasons reasons_for
reasons-nil cfg alias s e = rw (e, reasons_for) (simp (is_nil-append, used_by-nil) (ground arith))

pub unprotected-IsFree :
    (cfg : Config) (alias : Text) (s : Server)
    → IsOrdered cfg.servers
    → IsOrdered cfg.projects
    → get alias cfg.servers ≡ some (some s)
    → is_nil (cleanup_protection_reasons (some cfg) alias) ≡ true
    → IsFree cfg alias
unprotected-IsFree cfg alias s os op e h =
    let parts = sym (reasons-nil cfg alias s e) ∙ h in
    record {
      not_default = ground (arith, parts);
      no_project = λ name.
          sym (member-projects_using_server cfg alias name op)
          ∙ rw (eq_nil (projects_using_server (some cfg) alias) (ground (arith, parts)));
      no_jump = λ name.
          sym (member-servers_using_proxy_jump cfg alias name os)
          ∙ rw (eq_nil (servers_using_proxy_jump (some cfg) alias) (ground (arith, parts)));
    }
