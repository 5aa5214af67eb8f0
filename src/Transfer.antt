-- ===== src/Transfer.antt =====
-- internal/mcp/transfer_core.go: the resumable copy of a file, and the table of transfer jobs.
pub mod Copy
pub mod Resume
pub mod Jobs
use sshm.Prelude.{
  ℕ, Bool, true, false, not, ◌&&◌, ◌||◌, List, [], ◌∷◌, ◌++◌, Option, none, some, if◌then◌else◌,
  is_nil, ltb, nat_eq, length, ◌+◌,
}
unfoldable use sshm.Prelude.{take}
use sshm.Text.{Text, ◌==◌}
unfoldable use sshm.Text.{trim_space, to_lower, text_eq}
use sshm.Map.{Map}
unfoldable use sshm.Map.{get, put}
use sshm.Result.{Result, ok, err, ◌>>=◌, ◌>>◌, fail_if}

abbrev pub Bytes : Type 0
Bytes = List ℕ

pub data CopyError : Type 0 where
  no_directory seek_failed open_failed cancelled write_failed short_write : CopyError
  read_failed close_failed hash_failed mismatch rename_failed : CopyError

-- One turn of the loop: whether the context is done, what Read gave, and how much of it Write wrote.
pub record Turn : Type 0 where
  pub done : Bool
  pub chunk : Bytes
  pub written : ℕ
  pub write_error : Bool

pub data Ending : Type 0 where
  eof broken : Ending

-- What a source gives from an offset on: turns, and with the last of them an end or an error.
pub data Reads : Type 0 where
  last : Turn → Ending → Reads
  next : Turn → Reads → Reads

pub record Options : Type 0 where
  pub resume : Bool
  pub expected_sha256 : Text

pub record TransferResult : Type 0 where
  pub bytes_copied : ℕ
  pub bytes_total : ℕ
  pub resumed_from : ℕ
  pub sha256 : Text

-- The partial file beside the target, and the target.
pub record Files : Type 0 where
  pub part : Option Bytes
  pub target : Option Bytes

-- The rest of what the copy meets: which calls fail, SHA-256, and the lowering of letters.
pub record Outside : Type 0 where
  pub mkdir_fails : Bool
  pub seek_fails : Bool
  pub open_fails : Bool
  pub close_fails : Bool
  pub hash_fails : Bool
  pub rename_fails : Bool
  pub digest : Bytes → Text
  pub lower : ℕ → ℕ

-- The offset at which a copy resumes.
size_of : Option Bytes → ℕ
size_of none = 0
size_of (some bytes) = length bytes

unfoldable pub offset_of : Options → ℕ → Option Bytes → ℕ
unfolding size_of
offset_of opts src_size part =
    if opts.resume && not (ltb src_size (size_of part)) then size_of part else 0

-- The partial file as the flags open it.
abbrev pub bytes_of : Option Bytes → Bytes
bytes_of none = []
bytes_of (some bytes) = bytes

unfoldable pub opened_part : ℕ → Option Bytes → Bytes
opened_part offset part = if nat_eq offset 0 then [] else bytes_of part

-- The part of a turn before Read's own error is looked at: the file and the count afterwards.
unfoldable pub one_turn : Turn → Bytes × ℕ → (Bytes × ℕ) × Result CopyError (Unit {0})
unfolding take
one_turn t (part, copied) =
    if t.done
    then ((part, copied), err cancelled)
    else if is_nil t.chunk
    then ((part, copied), ok tt)
    else (
      (part ++ take t.written t.chunk, copied + length (take t.written t.chunk)),
      if t.write_error
          then err write_failed
          else if nat_eq (length t.chunk) (length (take t.written t.chunk))
          then ok tt
          else err short_write,
    )

unfoldable pub ending : Ending → Result CopyError (Unit {0})
ending eof = ok tt
ending broken = err read_failed

-- The loop stops at the first error.
abbrev pub and_then :
    (Bytes × ℕ) × Result CopyError (Unit {0})
    → (Bytes × ℕ → (Bytes × ℕ) × Result CopyError (Unit {0}))
    → (Bytes × ℕ) × Result CopyError (Unit {0})
and_then (state, err e) f = (state, err e)
and_then (state, ok _) f = f state

unfoldable pub copy_loop : Reads → Bytes × ℕ → (Bytes × ℕ) × Result CopyError (Unit {0})
unfolding one_turn ending
copy_loop (last t end) state = and_then (one_turn t state) (λ s. (s, ending end))
copy_loop (next t rest) state = and_then (one_turn t state) (λ s. copy_loop rest s)

-- After the loop: Close, the hash and its comparison.
unfoldable pub verify : Outside → Options → Bytes → Result CopyError Text
verify out opts part = do
  fail_if out.close_fails close_failed
  fail_if out.hash_fails hash_failed
  let sum = out.digest part
  let want = trim_space (to_lower out.lower opts.expected_sha256)
  fail_if (not (is_nil want) && not (sum == want)) mismatch
  fail_if out.rename_fails rename_failed
  ok sum

-- The rename, which takes the place of the partial file.
unfoldable pub settle_copy :
    ℕ
    → ℕ
    → Bytes
    → ℕ
    → Option Bytes
    → Result CopyError Text
    → Files × Result CopyError TransferResult
settle_copy src_size offset part copied target (err e) =
    (record { part = some part; target = target }, err e)
settle_copy src_size offset part copied target (ok sum) = (
  record { part = none; target = some part },
  ok (record {
    bytes_copied = copied;
    bytes_total = src_size;
    resumed_from = offset;
    sha256 = sum;
  }),
)

unfoldable pub finish_copy :
    Outside
    → Options
    → ℕ
    → ℕ
    → Option Bytes
    → (Bytes × ℕ) × Result CopyError (Unit {0})
    → Files × Result CopyError TransferResult
unfolding verify settle_copy
finish_copy out opts src_size offset target ((part, copied), loop) =
    settle_copy src_size offset part copied target (loop >> verify out opts part)

-- What comes before the loop: the directory, the offset of the source, and the partial file.
unfoldable pub before_loop : Outside → Result CopyError (Unit {0})
before_loop out = do
  fail_if out.mkdir_fails no_directory
  fail_if out.seek_fails seek_failed
  fail_if out.open_fails open_failed

abbrev pub run_copy :
    Result CopyError (Unit {0})
    → Files
    → Files × Result CopyError TransferResult
    → Files × Result CopyError TransferResult
run_copy (err e) files copied = (files, err e)
run_copy (ok _) files copied = copied

-- copySeekableToAtomicFile; `reads` is what the source gives from each offset.
unfoldable pub copy :
    Outside → Options → ℕ → (ℕ → Reads) → Files → Files × Result CopyError TransferResult
unfolding offset_of opened_part copy_loop before_loop finish_copy
copy out opts src_size reads files =
    let offset = offset_of opts src_size files.part in
    run_copy (before_loop out) files (
      finish_copy out opts src_size offset files.target
        (copy_loop (reads offset) (opened_part offset files.part, 0)))
