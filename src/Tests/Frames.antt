-- ===== src/Tests/Frames.antt =====
-- Two frames of a session, opened and sent again.
use sshm.Prelude.{pos, true, false, List, [], ◌∷◌, none, some, ◌≡◌, refl, arith}
use sshm.Text.{codes, text_eq, len}
use sshm.Result.{ok}
use sshm.Shell.{
  ShellOpen, ShellPayload, ShellFrame, Sealing, ShellCipher, seal, open_frame, next, frame_of,
  is_next, nonce, aad, big_endian, verify_shell, is_admissible, message, signed,
}
use sshm.Shell.Frames.{IsFaithful, AreCarried, AreRefused, seal_all, open_all, open_all-seal_all}

abbrev ready : ShellPayload
ready = record {
  diagnostics = none;
  type = codes "ready";
  content = [];
  target = [];
  credential = [];
  cols = pos 0;
  rows = pos 0;
}

-- One payload has a JSON here, and sealing leaves the bytes open.
abbrev sealing : Sealing
sealing = record {
  decimal = λ n. codes "7";
  decode = λ s. some s;
  encode = λ b. b;
  ed25519_verify = λ public text sig. true;
  derive = λ master label. label;
  write_payload = λ p. 1 ∷ 2 ∷ [];
  read_payload = λ b. some ready;
  gcm_seal = λ key n plain a. plain;
  gcm_open = λ key n b a. some b;
}

abbrev cipher : ShellCipher
cipher = record { key = 3 ∷ []; session = codes "session-1"; direction = codes "a2c"; seq = 0 }

abbrev frames : List ShellFrame
frames = frame_of sealing cipher ready ∷ frame_of sealing (next cipher) ready ∷ []

computing : Unit {0}
unfolding text_eq len seal open_frame is_next nonce aad big_endian seal_all open_all verify_shell
    is_admissible message signed
computing = tt

faithful : IsFaithful sealing
faithful = (λ key n plain a. refl, λ b. refl)

carried : AreCarried sealing (ready ∷ ready ∷ [])
unfolding computing
carried = ((refl, λ key n a. omega arith), ((refl, λ key n a. omega arith), tt))

sealed : seal_all sealing cipher (ready ∷ ready ∷ []) ≡ ok (next (next cipher), frames)
unfolding computing
sealed = refl

abbrev request : ShellOpen
request = record {
  lifetime = codes "connection";
  mode = codes "ssh";
  type = codes "open";
  device = codes "device-1";
  epoch = codes "epoch-1";
  session = codes "session-1";
  expires = pos 2000;
  signature = codes "sig";
}

-- A request is good until it expires.
admitted_test :
    (verify_shell sealing
        (codes "pub")
        request
        (codes "ann")
        (codes "device-1")
        (codes "epoch-1")
        (pos 1000)
      ≡ true)
    × (verify_shell sealing
          (codes "pub")
          request
          (codes "ann")
          (codes "device-1")
          (codes "epoch-1")
          (pos 2000)
        ≡ false)
unfolding computing
admitted_test = (refl, refl)

open_all-seal_all_example :
    (open_all sealing cipher frames ≡ ok (next (next cipher), ready ∷ ready ∷ []))
    × AreRefused sealing (next (next cipher)) frames
open_all-seal_all_example =
    open_all-seal_all sealing cipher (next (next cipher)) (ready ∷ ready ∷ []) frames faithful
      carried sealed
