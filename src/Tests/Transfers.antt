-- ===== src/Tests/Transfers.antt =====
-- A copy that is resumed, and one that is cut off.
use sshm.Prelude.{
  ℕ, true, false, [], ◌∷◌, none, some, ◌≡◌, ◌⊎◌, refl, sym, ap, ◌∙◌, length, drop, take,
  drop-length, append_nil,
}
use sshm.Text.{trim_space, to_lower, text_eq}
use sshm.Result.{ok, err}
use sshm.Transfer.{
  Bytes, Turn, eof, Reads, last, Options, Files, Outside, TransferResult, close_failed, offset_of,
  opened_part, one_turn, ending, copy_loop, verify, settle_copy, finish_copy, before_loop, copy,
  bytes_of,
}
use sshm.Transfer.Copy.{IsSourceOf, IsPartOf, delivered, ends}
use sshm.Transfer.Resume.{copy_succeeds, copy_fails}

abbrev content : Bytes
content = 1 ∷ 2 ∷ 3 ∷ []

abbrev whole_turn : Bytes → Turn
whole_turn bytes = record {
  done = false;
  chunk = bytes;
  written = length bytes;
  write_error = false;
}

-- The file from each offset on, in one turn.
from_offset : ℕ → Reads
unfolding drop
from_offset k = last (whole_turn (drop k content)) eof

from_offset-IsSourceOf : IsSourceOf content from_offset
unfolding from_offset delivered ends
from_offset-IsSourceOf done todo e =
    ([], append_nil _ ∙ ap (drop (length done)) (sym e) ∙ drop-length done todo, λ h. refl)

abbrev calm : Outside
calm = record {
  mkdir_fails = false;
  seek_fails = false;
  open_fails = false;
  close_fails = false;
  hash_fails = false;
  rename_fails = false;
  digest = λ bytes. bytes;
  lower = λ c. c;
}

abbrev resuming : Options
resuming = record { resume = true; expected_sha256 = [] }

abbrev half : Files
half = record { part = some (1 ∷ []); target = some (9 ∷ []) }

abbrev outcome : TransferResult
outcome = record { bytes_copied = 2; bytes_total = 3; resumed_from = 1; sha256 = content }

computing : Unit {0}
unfolding copy offset_of opened_part copy_loop one_turn ending verify settle_copy finish_copy
    before_loop from_offset drop take trim_space to_lower text_eq
computing = tt

resumed : (copy calm resuming 3 from_offset half).1 ≡ ok outcome
unfolding computing
resumed = refl

copy_succeeds_example :
    (copy calm resuming 3 from_offset half).0 ≡ record { part = none; target = some content }
copy_succeeds_example =
    copy_succeeds calm resuming 3 from_offset half content from_offset-IsSourceOf
      (λ h. (2 ∷ 3 ∷ [], refl)) outcome resumed

abbrev cut_off : Outside
cut_off = record calm { close_fails = true }

stopped : (copy cut_off resuming 3 from_offset half).1 ≡ err close_failed
unfolding computing
stopped = refl

copy_fails_example :
    ((copy cut_off resuming 3 from_offset half).0.target ≡ half.target)
    × (((copy cut_off resuming 3 from_offset half).0.part ≡ half.part)
        ⊎ IsPartOf (bytes_of (copy cut_off resuming 3 from_offset half).0.part) content)
copy_fails_example =
    copy_fails cut_off resuming 3 from_offset half content from_offset-IsSourceOf
      (λ h. (2 ∷ 3 ∷ [], refl)) close_failed stopped
