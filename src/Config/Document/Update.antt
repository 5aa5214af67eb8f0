-- ===== src/Config/Document/Update.antt =====
-- The transaction of internal/config/update.go: all of it happens on the file that was read, or nothing.
use sshm.Prelude.{
  ℤ, pos, ltb_ℤ, ◌≤ℤ◌, Bool, true, false, Option, some, ◌≡◌, refl, arith, ap, ◌∙◌, Bool-cases, inl,
  inr, ◌⊎◌, not,
}
use sshm.Text.{Text, ◌==◌, text_eq_iff}
use sshm.Result.{Result, ok, err, fail_if, bind-eq-ok, ◌>>=◌}
use sshm.Config.{Config, current_version}
use sshm.Config.Bindings.{Sidecars, apply_cloud_bindings}
use sshm.Config.Document.{
  Bytes, Format, FileRead, missing, unreadable, content, ConfigError, callback_failed, io_failed,
  ProjectError, checked_version, decoded, decode_config, validate_projects, Writing,
  as_config_error, unchanged, at_current, save_checks, replaced, save_if_unchanged, Change,
  source_of, start_config, run_change, save_changed, update_config,
}

-- No document that this build cannot read.
abbrev pub IsReadable : Config → Type 0
IsReadable cfg = cfg.version ≤ℤ pos current_version

decode_config-at_current :
    (t : Format) (cfg : Config)
    → t.unmarshal (t.encode (at_current cfg)) ≡ some (at_current cfg)
    → IsReadable cfg
    → decode_config t (t.encode (at_current cfg)) ≡ ok (at_current cfg)
unfolding decode_config decoded checked_version
decode_config-at_current t cfg law h =
    ap decoded law ∙ read (Bool-cases (ltb_ℤ cfg.version (pos 5)))
  where
    below : (v : ℤ) → v ≤ℤ pos 5 → ltb_ℤ (pos 5) v ≡ false
    below v h = ground (arith, h)

    read :
        ((ltb_ℤ cfg.version (pos 5) ≡ true) ⊎ (ltb_ℤ cfg.version (pos 5) ≡ false))
        → checked_version (at_current cfg) ≡ ok (at_current cfg)
    read (inl e) = rw e refl
    read (inr e) = rw (e, below cfg.version h, e) refl

-- The second read was the first one.
unchanged-same :
    (t : Format) (now first : FileRead) (cfg : Config) (u : Unit {0})
    → start_config t first ≡ ok cfg
    → unchanged now (some first) ≡ ok u
    → now ≡ first
unfolding unchanged
unchanged-same t (content b) (content b') cfg u s h = elim (Bool-cases (b == b')) [
  | inl e ↦ ap content ((text_eq_iff b b').0 e)
  | inr e ↦ cc (rw e at h)
]
unchanged-same t (content b) missing cfg u s h = cc h
unchanged-same t (content b) unreadable cfg u s h = cc h
unchanged-same t missing (content b) cfg u s h = cc h
unchanged-same t missing missing cfg u s h = refl
unchanged-same t missing unreadable cfg u s h = cc s
unchanged-same t unreadable first cfg u s h = cc h

run_change-eq-ok :
    (change : Change) (cfg : Config) (b : Bytes) (new : Config)
    → run_change change cfg b ≡ ok new
    → change cfg b ≡ ok new
run_change-eq-ok change cfg b new h = go (change cfg b) h
  where
    go :
        (r : Result Text Config)
        → elim r as (λ r. Result ConfigError Config) [
          | err e ↦ err (callback_failed e)
          | ok n ↦ ok n
        ]
          ≡ ok new
        → r ≡ ok new
    go (err e) h = cc h
    go (ok n) h = cc h

sound_lem :
    (r : Result ProjectError (Unit {0})) (u : Unit {0}) → as_config_error r ≡ ok u → r ≡ ok tt
sound_lem (err e) u h = cc h
sound_lem (ok u') u h = refl

-- What an update made, by its outcome; `others` is what the file holds without it.
abbrev pub Updated :
    (Text → Bool)
    → Format
    → Sidecars
    → Option Bytes
    → Change
    → FileRead
    → FileRead
    → FileRead × Result ConfigError (Unit {0})
    → Type 0
Updated secret t f bindings change first others (after, err e) = after ≡ others
Updated secret t f bindings change first others (after, ok u) =
    (old : Config) × (new : Config) × (b : Bytes) × (others ≡ first)
    × (start_config t first ≡ ok old)
    × (change (apply_cloud_bindings f bindings old) (source_of first) ≡ ok new)
    × (validate_projects secret new ≡ ok tt)
    × (after ≡ content b)
    × (decode_config t b ≡ ok (at_current new))

-- An update that succeeds found the file as it had read it, and leaves a file that decodes to what the
-- callback made of the document, at the current version, with sound projects. One that fails, for
-- whatever reason, leaves what other programs wrote. The callback makes no document of a later version,
-- and TOML reads back the documents that it makes.
pub update_config-Updated :
    (secret : Text → Bool) (t : Format) (f : Sidecars) (bindings : Option Bytes) (change : Change)
    (w : Writing) (first : FileRead)
    → ((c : Config) (b : Bytes) (new : Config) → change c b ≡ ok new → IsReadable new)
    → ((c : Config) (b : Bytes) (new : Config)
        → change c b ≡ ok new
        → t.unmarshal (t.encode (at_current new)) ≡ some (at_current new))
    → Updated secret t f bindings change first w.reread
        (update_config secret t f bindings change w first)
unfolding update_config save_changed save_if_unchanged save_checks
update_config-Updated secret t f bindings change w first readable law =
    outcome
      (start_config t first >>= λ cfg.
        run_change change (apply_cloud_bindings f bindings cfg) (source_of first))
      refl
  where
    saved :
        (new : Config)
        → (start_config t first >>= λ cfg.
            run_change change (apply_cloud_bindings f bindings cfg) (source_of first))
          ≡ ok new
        → (checks : Result ConfigError (Unit {0})) → save_checks secret w new (some first) ≡ checks
        → Updated secret t f bindings change first w.reread
            (replaced w.reread (t.encode (at_current new)) checks)
    saved new h (err e) c = refl
    saved new h (ok u) c =
        let start = bind-eq-ok (start_config t first) _ h in
        let ran =
          run_change-eq-ok change (apply_cloud_bindings f bindings start.0) (source_of first) new
            start.2 in
        let sound = bind-eq-ok (as_config_error (validate_projects secret new)) _ c in
        let staged = bind-eq-ok (fail_if (not w.staged) io_failed) _ sound.2 in
        let same = bind-eq-ok (unchanged w.reread (some first)) _ staged.2 in
        (
          start.0,
          new,
          t.encode (at_current new),
          unchanged-same t w.reread first start.0 same.0 start.1 same.1,
          start.1,
          ran,
          sound_lem (validate_projects secret new) sound.0 sound.1,
          refl,
          decode_config-at_current t new
              (law (apply_cloud_bindings f bindings start.0) (source_of first) new ran)
              (readable (apply_cloud_bindings f bindings start.0) (source_of first) new ran),
        )

    outcome :
        (made : Result ConfigError Config)
        → (start_config t first >>= λ cfg.
            run_change change (apply_cloud_bindings f bindings cfg) (source_of first))
          ≡ made
        → Updated secret t f bindings change first w.reread (save_changed secret t w first made)
    outcome (err e) h = refl
    outcome (ok new) h = saved new h (save_checks secret w new (some first)) refl
