-- ===== src/Transfer/Resume.antt =====
-- A copy of internal/mcp/transfer_core.go replaces its target as a whole, and one that stops can be
-- resumed.
use sshm.Prelude.{
  ℕ, Bool, true, false, [], ◌++◌, Option, none, some, if◌then◌else◌, nat_eq, length, ◌≡◌, refl,
  arith, ap, sym, ◌∙◌, append_assoc, append_nil, Bool-cases, ◌⊎◌, inl, inr,
}
use sshm.Text.{Text}
use sshm.Result.{Result, ok, err, ◌>>◌, bind-eq-ok}
use sshm.Transfer.{
  Bytes, CopyError, Reads, eof, Options, TransferResult, Files, Outside, offset_of, opened_part,
  bytes_of, size_of, copy_loop, verify, settle_copy, finish_copy, run_copy, before_loop, copy,
}
use sshm.Transfer.Copy.{
  IsSourceOf, IsPartOf, delivered, ends, longer, copy_loop-ok, copy_loop-IsPartOf,
}

settle_copy-err :
    (size offset copied : ℕ) (part : Bytes) (target : Option Bytes) (r : Result CopyError Text)
    {e : CopyError}
    → (settle_copy size offset part copied target r).1 ≡ err e
    → (settle_copy size offset part copied target r).0
      ≡ record { part = some part; target = target }
unfolding settle_copy
settle_copy-err size offset copied part target (err _) h = refl
settle_copy-err size offset copied part target (ok _) h = cc h

settle_copy-ok :
    (size offset copied : ℕ) (part : Bytes) (target : Option Bytes) (r : Result CopyError Text)
    {res : TransferResult}
    → (settle_copy size offset part copied target r).1 ≡ ok res
    → (sum : Text) × (r ≡ ok sum)
      × ((settle_copy size offset part copied target r).0
          ≡ record { part = none; target = some part })
unfolding settle_copy
settle_copy-ok size offset copied part target (err _) h = cc h
settle_copy-ok size offset copied part target (ok sum) h = (sum, refl, refl)

-- The file that is opened holds as many bytes as the offset, all of them kept from the partial file.
opened-length :
    (opts : Options) (size : ℕ) (part : Option Bytes)
    → length (opened_part (offset_of opts size part) part) ≡ offset_of opts size part
unfolding opened_part offset_of size_of
opened-length opts size none = ground arith
opened-length opts size (some bytes) = ground arith

IsPartOf-if :
    (b : Bool) (bytes content : Bytes)
    → IsPartOf bytes content
    → IsPartOf (if b then [] else bytes) content
IsPartOf-if true bytes content h = (content, refl)
IsPartOf-if false bytes content h = h

opened-IsPartOf :
    (opts : Options) (size : ℕ) (part : Option Bytes) (content : Bytes)
    → (opts.resume ≡ true → IsPartOf (bytes_of part) content)
    → IsPartOf (opened_part (offset_of opts size part) part) content
unfolding opened_part offset_of
opened-IsPartOf opts size part content h = elim (Bool-cases opts.resume) [
  | inl e ↦ IsPartOf-if (nat_eq (offset_of opts size part) 0) (bytes_of part) content (h e)
  | inr e ↦ rw e (content, refl)
]

run_copy-ok :
    (r : Result CopyError (Unit {0})) (files : Files)
    (copied : Files × Result CopyError TransferResult) {res : TransferResult}
    → (run_copy r files copied).1 ≡ ok res
    → run_copy r files copied ≡ copied
run_copy-ok (err e) files copied h = cc h
run_copy-ok (ok _) files copied h = refl

run_copy-err :
    (r : Result CopyError (Unit {0})) (files : Files) (size offset copied : ℕ) (part : Bytes)
    (v : Result CopyError Text) (content : Bytes) {e : CopyError}
    → IsPartOf part content
    → (run_copy r files (settle_copy size offset part copied files.target v)).1 ≡ err e
    → ((run_copy r files (settle_copy size offset part copied files.target v)).0.target
        ≡ files.target)
      × (((run_copy r files (settle_copy size offset part copied files.target v)).0.part
            ≡ files.part)
          ⊎ IsPartOf
              (bytes_of
                (run_copy r files (settle_copy size offset part copied files.target v)).0.part)
              content)
run_copy-err (err _) files size offset copied part v content after h = (refl, inl refl)
run_copy-err (ok _) files size offset copied part v content after h =
    rw (settle_copy-err size offset copied part files.target v h) (refl, inr after)

module _ (out : Outside) (opts : Options) (size : ℕ) (reads : ℕ → Reads) (files : Files)
    (content : Bytes) (source : IsSourceOf content reads)
    (kept : opts.resume ≡ true → IsPartOf (bytes_of files.part) content) where
  opened : Bytes
  opened = opened_part (offset_of opts size files.part) files.part

  source_at :
      (p : Bytes) (k : ℕ)
      → length p ≡ k
      → IsPartOf p content
      → (rest : Bytes) × (p ++ (delivered (reads k) ++ rest) ≡ content)
        × (ends (reads k) ≡ eof → rest ≡ [])
  source_at p k long (todo, whole) =
      let given = source p todo whole in
      rw (← long) (given.0, ap (λ x. p ++ x) given.1 ∙ whole, given.2)

  remaining :
      (rest : Bytes) × (opened ++ (delivered (reads (offset_of opts size files.part)) ++ rest)
        ≡ content)
      × (ends (reads (offset_of opts size files.part)) ≡ eof → rest ≡ [])
  unfolding opened
  remaining =
      source_at opened (offset_of opts size files.part) (opened-length opts size files.part)
        (opened-IsPartOf opts size files.part content kept)

  -- A copy that succeeds has put the whole content of its source in place of the target and left
  -- no partial file; one that resumes does so too, if the partial file was a beginning of the
  -- content.
  pub copy_succeeds :
      (res : TransferResult)
      → (copy out opts size reads files).1 ≡ ok res
      → (copy out opts size reads files).0 ≡ record { part = none; target = some content }
  unfolding copy finish_copy opened
  copy_succeeds res h =
      let loop = copy_loop (reads (offset_of opts size files.part)) (opened, 0) in
      let run =
        run_copy-ok (before_loop out) files
          (finish_copy out opts size (offset_of opts size files.part) files.target loop) h in
      let settled =
        settle_copy-ok size (offset_of opts size files.part) loop.0.1 loop.0.0 files.target
          (loop.1 >> verify out opts loop.0.0) (ap (λ x. x.1) (sym run) ∙ h) in
      let looped = bind-eq-ok loop.1 _ settled.1 in
      let all = copy_loop-ok (reads (offset_of opts size files.part)) opened 0 looped.1 in
      let left = remaining in
      let d = delivered (reads (offset_of opts size files.part)) in
      let whole =
        ap (λ x. opened ++ x) (sym (append_nil d))
        ∙ ap (λ x. opened ++ (d ++ x)) (sym (left.2 all.1))
        ∙ left.1 in
      ap (λ x. x.0) run
      ∙ settled.2
      ∙ ap {A = Bytes} {B = Files} (λ x. record { part = none; target = some x }) (all.0 ∙ whole)

  -- A copy that fails, from a source that delivers a given content, has left the target as it was,
  -- and the partial file is untouched or a beginning of that content, from which another copy can
  -- resume. A copy that does not resume may meet any partial file, one that resumes a beginning of
  -- the content.
  pub copy_fails :
      (e : CopyError)
      → (copy out opts size reads files).1 ≡ err e
      → ((copy out opts size reads files).0.target ≡ files.target)
        × (((copy out opts size reads files).0.part ≡ files.part)
            ⊎ IsPartOf (bytes_of (copy out opts size reads files).0.part) content)
  unfolding copy finish_copy opened
  copy_fails e h =
      let loop = copy_loop (reads (offset_of opts size files.part)) (opened, 0) in
      let part_of = copy_loop-IsPartOf (reads (offset_of opts size files.part)) opened 0 in
      let left = remaining in
      let whole = append_assoc opened _ left.0 ∙ left.1 in
      let more = longer loop.0.0 _ left.0 part_of in
      run_copy-err (before_loop out) files size (offset_of opts size files.part) loop.0.1 loop.0.0
        (loop.1 >> verify out opts loop.0.0) content (more.0, more.1 ∙ whole) h
