-- ===== src/Shell/Frames.antt =====
-- The stream of frames of internal/cloudsync/shell.go.
use sshm.Prelude.{
  ℕ, ◌+◌, ◌^◌, ◌≤◌, ◌<◌, Bool, true, false, not, ◌&&◌, List, [], ◌∷◌, some, ◌≡◌, refl, arith, ap,
  sym, ◌∙◌, if◌then◌else◌, nat_eq, leb, ltb, length, and-eq-true, not-eq-false, nat_eq_iff,
}
use sshm.Text.{Text, ◌==◌, len, codes}
use sshm.Map.Laws.{text_eq_refl}
use sshm.Result.{Result, ok, err, ◌>>=◌, fail_if, fail_if-eq-ok, bind-eq-ok}
use sshm.Shell.{
  Bytes, ShellPayload, ShellFrame, Sealing, ShellCipher, ShellError, exhausted, too_large,
  invalid_sequence, not_decoded, not_authentic, invalid_payload, nonce, aad, next, seal, or_fail,
  frame_of, is_next, open_frame,
}

-- AES-GCM and base64 give back what they were given.
abbrev pub IsFaithful : Sealing → Type 0
IsFaithful k =
    ((key n plain : Bytes) (a : Text) → k.gcm_open key n (k.gcm_seal key n plain a) a ≡ some plain)
    × ((b : Bytes) → k.decode (k.encode b) ≡ some b)

-- JSON reads the payload back, and its ciphertext is no longer than a frame may be.
abbrev pub IsCarried : Sealing → ShellPayload → Type 0
IsCarried k p =
    (k.read_payload (k.write_payload p) ≡ some p)
    × ((key n : Bytes) (a : Text) → len (k.encode (k.gcm_seal key n (k.write_payload p) a)) ≤ 60000)

abbrev pub AreCarried : Sealing → List ShellPayload → Type 0
AreCarried k [] = Unit
AreCarried k (p ∷ ps) = IsCarried k p × AreCarried k ps

-- The frames of a list of payloads, and the payloads of a list of frames.
unfoldable pub seal_all :
    Sealing → ShellCipher → List ShellPayload → Result ShellError (ShellCipher × List ShellFrame)
unfolding seal
seal_all k c [] = ok (c, [])
seal_all k c (p ∷ ps) = do
  first ← seal k c p
  rest ← seal_all k first.0 ps
  ok (rest.0, first.1 ∷ rest.1)

unfoldable pub open_all :
    Sealing → ShellCipher → List ShellFrame → Result ShellError (ShellCipher × List ShellPayload)
unfolding open_frame
open_all k c [] = ok (c, [])
open_all k c (f ∷ fs) = do
  first ← open_frame k c f
  rest ← open_all k first.0 fs
  ok (rest.0, first.1 ∷ rest.1)

is_next-frame_of :
    (k : Sealing) (c : ShellCipher) (p : ShellPayload)
    → IsCarried k p
    → leb (2 ^ 32) c.seq ≡ false
    → is_next c (frame_of k c p) ≡ true
unfolding is_next
is_next-frame_of k c p carried e =
    rw
      (
        text_eq_refl,
        same c.seq,
        e,
        small (len (frame_of k c p).ciphertext) (carried.1 c.key (nonce c) (aad k c)),
      )
      refl
  where
    same : (n : ℕ) → nat_eq n n ≡ true
    same n = ground arith

    small : (n : ℕ) → n ≤ 60000 → ltb 60000 n ≡ false
    small n h = ground (arith, h)

open_frame-frame_of :
    (k : Sealing) (c : ShellCipher) (p : ShellPayload)
    → IsFaithful k
    → IsCarried k p
    → leb (2 ^ 32) c.seq ≡ false
    → ltb 32768 (length (k.write_payload p)) ≡ false
    → open_frame k c (frame_of k c p) ≡ ok (next c, p)
unfolding open_frame
open_frame-frame_of k c p faith carried e h =
    rw
      (
        is_next-frame_of k c p carried e,
        faith.1 (k.gcm_seal c.key (nonce c) (k.write_payload p) (aad k c)),
        faith.0 c.key (nonce c) (k.write_payload p) (aad k c),
        h,
        carried.0,
      )
      refl

seal-eq-ok :
    (k : Sealing) (c d : ShellCipher) (p : ShellPayload) (f : ShellFrame)
    → seal k c p ≡ ok (d, f)
    → (leb (2 ^ 32) c.seq ≡ false)
      × (ltb 32768 (length (k.write_payload p)) ≡ false)
      × (d ≡ next c)
      × (f ≡ frame_of k c p)
unfolding seal
seal-eq-ok k c d p f h = go (leb (2 ^ 32) c.seq) (ltb 32768 (length (k.write_payload p))) h
  where
    go :
        (x y : Bool)
        → ◌≡◌ {A = Result ShellError (ShellCipher × ShellFrame)}
            (if x then err exhausted else if y then err too_large else ok (next c, frame_of k c p))
            (ok (d, f))
        → (x ≡ false) × (y ≡ false) × (d ≡ next c) × (f ≡ frame_of k c p)
    go false false h = (refl, refl, cc h, cc h)
    go false true h = cc h
    go true y h = cc h

opened_lem :
    (k : Sealing) (c d : ShellCipher) (ps : List ShellPayload) (fs : List ShellFrame)
    → IsFaithful k
    → AreCarried k ps
    → seal_all k c ps ≡ ok (d, fs)
    → open_all k c fs ≡ ok (d, ps)
unfolding seal_all open_all
opened_lem k c d [] fs faith carried h =
    let none_left : fs ≡ [] = cc h in let same : c ≡ d = cc h in rw (none_left, same) refl
opened_lem k c d (p ∷ ps) fs faith carried h =
    let first = bind-eq-ok (seal k c p) _ h in
    let rest = bind-eq-ok (seal_all k first.0.0 ps) _ first.2 in
    let sealed = seal-eq-ok k c first.0.0 p first.0.1 first.1 in
    let opened =
      ap (open_frame k c) sealed.3
      ∙ open_frame-frame_of k c p faith carried.0 sealed.0 sealed.1
      ∙ ap (λ x. ok (x, p)) (sym sealed.2) in
    let frames : fs ≡ first.0.1 ∷ rest.0.1 = cc rest.2 in
    let last : d ≡ rest.0.0 = cc rest.2 in
    rw (frames, last, opened, opened_lem k first.0.0 rest.0.0 ps rest.0.1 faith carried.1 rest.1)
      refl

pub open_frame-seq :
    (k : Sealing) (c d : ShellCipher) (f : ShellFrame) (p : ShellPayload)
    → open_frame k c f ≡ ok (d, p)
    → (f.seq ≡ c.seq) × (d ≡ next c)
unfolding open_frame is_next
open_frame-seq k c d f p h =
    let first = bind-eq-ok (fail_if (not (is_next c f)) invalid_sequence) _ h in
    let b = bind-eq-ok (or_fail (k.decode f.ciphertext) not_decoded) _ first.2 in
    let plain =
      bind-eq-ok (or_fail (k.gcm_open c.key (nonce c) b.0 (aad k c)) not_authentic) _ b.2 in
    let small = bind-eq-ok (fail_if (ltb 32768 (length plain.0)) invalid_payload) _ plain.2 in
    let read = bind-eq-ok (or_fail (k.read_payload plain.0) invalid_payload) _ small.2 in
    let tests = and-eq-true _ _ (not-eq-false _ (fail_if-eq-ok _ _ first.0 first.1)) in
    let shape = and-eq-true _ _ (and-eq-true _ _ tests.0).0 in
    ((nat_eq_iff f.seq c.seq).0 shape.1, cc read.2)

-- A frame whose number has passed is refused.
open_frame-old :
    (k : Sealing) (d : ShellCipher) (f : ShellFrame)
    → f.seq < d.seq
    → open_frame k d f ≡ err invalid_sequence
unfolding open_frame is_next
open_frame-old k d f h =
    rw
      (
        not_now f.seq d.seq h,
        never (f.type == codes "frame" && f.session == d.session) (not (leb (2 ^ 32) f.seq))
            (not (ltb 60000 (len f.ciphertext))),
      )
      refl
  where
    not_now : (m n : ℕ) → m < n → nat_eq m n ≡ false
    not_now m n h = ground (arith, h)

    never : (x y z : Bool) → (x && false && y && z) ≡ false
    never true y z = refl
    never false y z = refl

abbrev pub AreRefused : Sealing → ShellCipher → List ShellFrame → Type 0
AreRefused k d [] = Unit
AreRefused k d (f ∷ fs) = (open_frame k d f ≡ err invalid_sequence) × AreRefused k d fs

open_all-AreRefused :
    (k : Sealing) (c d : ShellCipher) (fs : List ShellFrame) (ps : List ShellPayload)
    → open_all k c fs ≡ ok (d, ps)
    → (c.seq ≤ d.seq) × AreRefused k d fs
unfolding open_all
open_all-AreRefused k c d [] ps h = let same : c ≡ d = cc h in (rw (sym same) (omega arith), tt)
open_all-AreRefused k c d (f ∷ fs) ps h =
    let first = bind-eq-ok (open_frame k c f) _ h in
    let rest = bind-eq-ok (open_all k first.0.0 fs) _ first.2 in
    let last : d ≡ rest.0.0 = cc rest.2 in
    let seq = open_frame-seq k c first.0.0 f first.0.1 first.1 in
    let later =
      open_all-AreRefused k first.0.0 d fs rest.0.1
        (rest.1 ∙ ap (λ x. ok (x, rest.0.1)) (sym last)) in
    let step : first.0.0.seq ≡ c.seq + 1 = ap (λ x. x.seq) seq.1 in
    let passed : c.seq + 1 ≤ d.seq = rw (sym step) later.0 in
    let old : f.seq < d.seq = rw seq.0 (omega (arith, passed)) in
    (omega (arith, passed), (open_frame-old k d f old, later.1))

-- Whatever list of payloads is sealed, the other end of the direction opens the frames to the same list,
-- and both ends are then at the same place. None of the
-- frames is accepted there again. AES-GCM, base64 and JSON give back what they were given, and
-- no ciphertext is longer than a frame may be.
pub open_all-seal_all :
    (k : Sealing) (c d : ShellCipher) (ps : List ShellPayload) (fs : List ShellFrame)
    → IsFaithful k
    → AreCarried k ps
    → seal_all k c ps ≡ ok (d, fs)
    → (open_all k c fs ≡ ok (d, ps)) × AreRefused k d fs
open_all-seal_all k c d ps fs faith carried h =
    let opened = opened_lem k c d ps fs faith carried h in
    (opened, (open_all-AreRefused k c d fs ps opened).1)
