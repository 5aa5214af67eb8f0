-- ===== src/Jobs/Journal.antt =====
-- What the journal of internal/cloudsync/jobs.go keeps of the jobs that were executed.
use sshm.Prelude.{
  ℤ, ◌≤ℤ◌, true, List, [], ◌∷◌, some, ◌≡◌, ◌≢◌, refl, arith, ap, ◌∙◌, Bool-cases, inl, inr, ◌⊎◌,
  -ℤ_parts,
}
use sshm.Text.{Text, ◌==◌, text_eq_iff}
use sshm.Map.{Map, get, put}
use sshm.Map.Laws.{get-put, IsOrdered, Above}
use sshm.Jobs.{Job, JobRecord, week_ms, is_stale, prune}

abbrev pub Log : Type 0
Log = List (Text × Job)

-- The journal holds the job under its key, with its expiry.
abbrev pub Present : Map JobRecord → Text → Job → Type 0
Present m key j = (rec : JobRecord) × (get key m ≡ some rec) × (rec.expires ≡ j.expires)

-- What was executed is in the journal still, or has expired by then.
abbrev pub IsKept : ℤ → Map JobRecord → Log → Type 0
IsKept h m [] = Unit
IsKept h m ((key, j) ∷ log) = (Present m key j ⊎ (j.expires ≤ℤ h)) × IsKept h m log

abbrev pub Fresh : Text → Log → Type 0
Fresh key [] = Unit
Fresh key ((k, j) ∷ log) = (k ≢ key) × Fresh key log

-- Each key stands once.
abbrev pub IsOnce : Log → Type 0
IsOnce [] = Unit
IsOnce ((key, j) ∷ log) = Fresh key log × IsOnce log

pub IsKept-put :
    (h : ℤ) (m : Map JobRecord) (key : Text) (rec : JobRecord) (log : Log)
    → ((old : JobRecord) → get key m ≡ some old → rec.expires ≡ old.expires)
    → IsKept h m log
    → IsKept h (put key rec m) log
IsKept-put h m key rec [] same k = tt
IsKept-put h m key rec ((i, j) ∷ log) same (here, k) =
    (from here, IsKept-put h m key rec log same k)
  where
    from : Present m i j ⊎ (j.expires ≤ℤ h) → Present (put key rec m) i j ⊎ (j.expires ≤ℤ h)
    from (inr late) = inr late
    from (inl (old, found, e)) = elim (Bool-cases (key == i)) [
      | inl eq ↦ inl (
        rec,
        rw (get-put i key rec m, eq) refl,
        same old (rw ((text_eq_iff key i).0 eq) found) ∙ e,
      )
      | inr ne ↦ inl (old, rw (get-put i key rec m, ne) found, e)
    ]

prune-Above : (k : Text) (now : ℤ) (m : Map JobRecord) → Above k m → Above k (prune now m)
unfolding prune
prune-Above k now [] a = tt
prune-Above k now ((j, r) ∷ m) a = elim (Bool-cases (is_stale now r)) [
  | inl old ↦ rw old (prune-Above k now m a.1)
  | inr new ↦ rw new (a.0, prune-Above k now m a.1)
]

pub prune-IsOrdered : (now : ℤ) (m : Map JobRecord) → IsOrdered m → IsOrdered (prune now m)
unfolding prune
prune-IsOrdered now [] o = tt
prune-IsOrdered now ((j, r) ∷ m) o = elim (Bool-cases (is_stale now r)) [
  | inl old ↦ rw old (prune-IsOrdered now m o.1)
  | inr new ↦ rw new (prune-Above j now m o.0, prune-IsOrdered now m o.1)
]

get-prune :
    (key : Text) (now : ℤ) (m : Map JobRecord) (rec : JobRecord)
    → IsOrdered m
    → get key m ≡ some rec
    → (is_stale now rec ≡ true) ⊎ (get key (prune now m) ≡ some rec)
unfolding get prune
get-prune key now [] rec ordered found = cc found
get-prune key now ((j, r) ∷ m) rec ordered found = elim (Bool-cases (j == key)) [
  | inl eq ↦
      let same : r ≡ rec = ground (arith, found, eq) in
      elim (Bool-cases (is_stale now r)) [
        | inl old ↦ inl (rw (← same) old)
        | inr new ↦ inr (rw (new, eq) (ap some same))
      ]
  | inr ne ↦
      let found' : get key m ≡ some rec = rw ne at found in
      elim (get-prune key now m rec ordered.1 found') [
        | inl old ↦ inl old
        | inr kept ↦ inr (elim (Bool-cases (is_stale now r)) [
          | inl old ↦ rw old kept
          | inr new ↦ rw (new, ne) kept
        ])
      ]
]

stale_before : (now : ℤ) (rec : JobRecord) → is_stale now rec ≡ true → rec.expires ≤ℤ now
unfolding is_stale
stale_before now rec h = ground (arith, -ℤ_parts now week_ms)

pub IsKept-prune :
    (h now : ℤ) (m : Map JobRecord) (log : Log)
    → h ≤ℤ now
    → IsOrdered m
    → IsKept h m log
    → IsKept now (prune now m) log
IsKept-prune h now m [] le o k = tt
IsKept-prune h now m ((i, j) ∷ log) le o (here, k) = (from here, IsKept-prune h now m log le o k)
  where
    from : Present m i j ⊎ (j.expires ≤ℤ h) → Present (prune now m) i j ⊎ (j.expires ≤ℤ now)
    from (inr late) = inr (omega (arith, late, le))
    from (inl (old, found, e)) = elim (get-prune i now m old o found) [
      | inl stale ↦ inr (rw (← e) (stale_before now old stale))
      | inr kept ↦ inl (old, kept, e)
    ]

pub IsKept-later :
    (h now : ℤ) (m : Map JobRecord) (log : Log) → h ≤ℤ now → IsKept h m log → IsKept now m log
IsKept-later h now m [] le k = tt
IsKept-later h now m ((i, j) ∷ log) le (inl p, k) = (inl p, IsKept-later h now m log le k)
IsKept-later h now m ((i, j) ∷ log) le (inr late, k) =
    (inr (omega (arith, late, le)), IsKept-later h now m log le k)
