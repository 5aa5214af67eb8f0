-- ===== src/Shell.antt =====
-- internal/cloudsync/shell.go: requests for a terminal, and the encrypted frames of one. JSON, base64,
-- Ed25519, HKDF and AES-GCM are the fields of `Sealing`; `decimal` is fmt's %d.
pub mod Frames
use sshm.Prelude.{
  ℕ, zero, suc, ◌+◌, ◌/◌, ◌%◌, ◌^◌, ℤ, pos, ltb_ℤ, Bool, true, false, not, ◌&&◌, ◌||◌, List, [],
  ◌∷◌, ◌++◌, Option, none, some, if◌then◌else◌, is_nil, ltb, leb, nat_eq, length,
}
unfoldable use sshm.Prelude.{◌+ℤ◌}
use sshm.Text.{Text, ◌==◌, codes}
unfoldable use sshm.Text.{text_eq, len}
use sshm.Result.{Result, ok, err, ◌>>=◌, fail_if}

abbrev pub Bytes : Type 0
Bytes = List ℕ

pub record ShellOpen : Type 0 where
  pub lifetime : Text
  pub mode : Text
  pub type : Text
  pub device : Text
  pub epoch : Text
  pub session : Text
  pub expires : ℤ
  pub signature : Text

pub record TerminalDiagnostics : Type 0 where
  pub stage : Text
  pub reason_code : Text
  pub ssh_authenticated : Bool
  pub pty_requested : Bool
  pub pty_granted : Bool
  pub suggested_action : Text

pub record ShellPayload : Type 0 where
  pub diagnostics : Option TerminalDiagnostics
  pub type : Text
  pub content : Text
  pub target : Text
  pub credential : Text
  pub cols : ℤ
  pub rows : ℤ

pub record ShellFrame : Type 0 where
  pub type : Text
  pub session : Text
  pub seq : ℕ
  pub ciphertext : Text

pub record Sealing : Type 0 where
  pub decimal : ℤ → Text
  pub decode : Text → Option Bytes
  pub encode : Bytes → Text
  pub ed25519_verify : Text → Text → Bytes → Bool
  pub derive : Bytes → Text → Bytes
  pub write_payload : ShellPayload → Bytes
  pub read_payload : Bytes → Option ShellPayload
  pub gcm_seal : Bytes → Bytes → Bytes → Text → Bytes
  pub gcm_open : Bytes → Bytes → Bytes → Text → Option Bytes

abbrev pub newline : Text
newline = 10 ∷ []

-- The parts that all three versions of the signed text share.
abbrev pub signed_head : Text → ShellOpen → Text
signed_head user r = user ++ 10 ∷ r.device ++ 10 ∷ r.epoch ++ 10 ∷ []

-- ShellOpen.Message
unfoldable pub message : Sealing → Text → ShellOpen → Text
unfolding text_eq
message k user r =
    if r.lifetime == codes "connection"
    then codes "sshm-shell-v3\n"
      ++ signed_head user r
      ++ r.session
      ++ 10 ∷ k.decimal r.expires
      ++ 10 ∷ r.mode
      ++ codes "\nconnection"
    else if r.mode == codes "ssh"
    then codes "sshm-shell-v2\n"
      ++ signed_head user r
      ++ r.session
      ++ 10 ∷ k.decimal r.expires
      ++ codes "\nssh"
    else codes "sshm-shell-v1\n" ++ signed_head user r ++ r.session ++ 10 ∷ k.decimal r.expires

unfoldable pub signed : Sealing → Text → Text → Option Bytes → Bool
signed k public text none = false
signed k public text (some sig) = k.ed25519_verify public text sig

-- The tests of VerifyShell before the signature; `now` in milliseconds.
unfoldable pub is_admissible : ShellOpen → Text → Text → ℤ → Bool
unfolding text_eq len ◌+ℤ◌
is_admissible r device epoch now =
    (is_nil r.lifetime || (r.lifetime == codes "connection"))
    && (is_nil r.mode || (r.mode == codes "ssh"))
    && (r.device == device)
    && (r.epoch == epoch)
    && ltb_ℤ now r.expires
    && not (ltb_ℤ (now +ℤ pos 900_000) r.expires)
    && not (ltb (len r.session) 8)
    && not (ltb 100 (len r.session))

-- Vault.VerifyShell, under the vault's public key.
unfoldable pub verify_shell : Sealing → Text → ShellOpen → Text → Text → Text → ℤ → Bool
unfolding is_admissible message signed
verify_shell k public r user device epoch now =
    is_admissible r device epoch now && signed k public (message k user r) (k.decode r.signature)

-- One direction of one session.
pub record ShellCipher : Type 0 where
  pub key : Bytes
  pub session : Text
  pub direction : Text
  pub seq : ℕ

pub data ShellError : Type 0 where
  invalid_key exhausted too_large invalid_sequence not_decoded not_authentic invalid_payload :
      ShellError

-- What NewShellCipher makes of a master key of 32 bytes.
abbrev pub cipher_for : Sealing → Bytes → Text → Text → Text → Text → Text → ShellCipher
cipher_for k master user device epoch session direction = record {
  key = k.derive master (
      codes "shell/"
      ++ user
      ++ codes "/"
      ++ device
      ++ codes "/"
      ++ epoch
      ++ codes "/"
      ++ session
      ++ codes "/"
      ++ direction);
  session = session;
  direction = direction;
  seq = 0;
}

-- NewShellCipher
unfoldable pub new_shell_cipher :
    Sealing → Bytes → Text → Text → Text → Text → Text → Result ShellError ShellCipher
unfolding text_eq
new_shell_cipher k master user device epoch session direction =
    if not (nat_eq (length master) 32)
      || not ((direction == codes "c2a") || (direction == codes "a2c"))
    then err invalid_key
    else ok (cipher_for k master user device epoch session direction)

-- binary.BigEndian.PutUint64, from the lowest byte on.
unfoldable pub big_endian : ℕ → ℕ → Bytes
big_endian zero n = []
big_endian (suc width) n = big_endian width (n / 256) ++ (n % 256) ∷ []

unfoldable pub nonce : ShellCipher → Bytes
unfolding big_endian
nonce c = 0 ∷ 0 ∷ 0 ∷ 0 ∷ big_endian 8 c.seq

unfoldable pub aad : Sealing → ShellCipher → Text
aad k c =
    codes "sshm-shell-frame-v1\n" ++ c.session ++ 10 ∷ c.direction ++ 10 ∷ k.decimal (pos c.seq)

abbrev pub next : ShellCipher → ShellCipher
next c = record c { seq = c.seq + 1 }

abbrev pub frame_of : Sealing → ShellCipher → ShellPayload → ShellFrame
frame_of k c p = record {
  type = codes "frame";
  session = c.session;
  seq = c.seq;
  ciphertext = k.encode (k.gcm_seal c.key (nonce c) (k.write_payload p) (aad k c));
}

-- ShellCipher.Seal
unfoldable pub seal :
    Sealing → ShellCipher → ShellPayload → Result ShellError (ShellCipher × ShellFrame)
unfolding nonce aad
seal k c p =
    if leb (2 ^ 32) c.seq
    then err exhausted
    else if ltb 32768 (length (k.write_payload p))
    then err too_large
    else ok (next c, frame_of k c p)

abbrev pub or_fail {ℓ} : {A : Type ℓ} → Option A → ShellError → Result ShellError A
or_fail none e = err e
or_fail (some a) e = ok a

-- f.Type != "frame" || f.Session != c.session || f.Seq != c.seq || f.Seq >= 1<<32 || len(f.Ciphertext) > 60000
unfoldable pub is_next : ShellCipher → ShellFrame → Bool
unfolding text_eq len
is_next c f =
    (f.type == codes "frame")
    && (f.session == c.session)
    && nat_eq f.seq c.seq
    && not (leb (2 ^ 32) f.seq)
    && not (ltb 60000 (len f.ciphertext))

-- ShellCipher.Open; on an error the cipher stays as it was.
unfoldable pub open_frame :
    Sealing → ShellCipher → ShellFrame → Result ShellError (ShellCipher × ShellPayload)
unfolding is_next nonce aad
open_frame k c f = do
  _ ← fail_if (not (is_next c f)) invalid_sequence
  b ← or_fail (k.decode f.ciphertext) not_decoded
  plain ← or_fail (k.gcm_open c.key (nonce c) b (aad k c)) not_authentic
  _ ← fail_if (ltb 32768 (length plain)) invalid_payload
  p ← or_fail (k.read_payload plain) invalid_payload
  ok (next c, p)
