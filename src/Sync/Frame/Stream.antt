-- ===== src/Sync/Frame/Stream.antt =====
-- What is written as frames is read back. internal/mesh/sync/frame.go
use agentic_stats.Prelude.{
  ℕ, suc, ◌≤◌, ◌≡◌, refl, sym, ap, ap₂, subst, ◌∙◌, false, inl, inr, Option, none, some, List, [],
  ◌∷◌, ◌++◌, arith, ltb, ltb-eq_false, length, take, drop, length-append, append_assoc, Bool-cases,
}
use agentic_stats.Source.{Bytes}
use agentic_stats.Source.Lines.{take_prefix, drop_prefix}
use agentic_stats.Cursor.{put_uint, uint_from}
use agentic_stats.Cursor.Codec.{length-put_uint, uint_from-put_uint}
use agentic_stats.Sync.Message.{Message}
use agentic_stats.Sync.Frame.{
  Json, FrameError, end_of_file, too_large, Written, refused, wrote, max_message_bytes, write_body,
  write_marshalled, write_frame, then_write, read_full, decoded, read_body, after_header,
  read_frame, read_on, read_frames, write_frames,
}

read_full-append : (s t : Bytes) (n : ℕ) → length s ≡ n → read_full n (s ++ t) ≡ inl (s, t)
unfolding read_full
read_full-append s t n h =
    let fits : ltb (length (s ++ t)) n ≡ false =
      ltb-eq_false (length (s ++ t)) n (omega (arith, h, length-append s t)) in
    rw fits (
      ap₂ (λ x y. inl (x, y)) (ap (λ k. take k (s ++ t)) (sym h) ∙ take_prefix s t)
        (ap (λ k. drop k (s ++ t)) (sym h) ∙ drop_prefix s t))

-- What was marshalled is unmarshalled to the same.
abbrev pub IsFaithful : Json → Type 0
IsFaithful json = (m : Message) (b : Bytes) → json.marshal m ≡ some b → json.unmarshal b ≡ some m

bytes_of : Written → Bytes
bytes_of (refused e) = []
bytes_of (wrote s) = s

-- A frame that was written has a body within the limit behind its length.
write_body-wrote :
    (body frame : Bytes)
    → write_body body ≡ wrote frame
    → (length body ≤ max_message_bytes) × (put_uint 4 (length body) ++ body ≡ frame)
unfolding write_body bytes_of
write_body-wrote body frame h = elim (Bool-cases (ltb max_message_bytes (length body))) [
  | inl b ↦ let no : refused (too_large (length body)) ≡ wrote frame = rw b at (h) in cc
  | inr b ↦
      let w : wrote (put_uint 4 (length body) ++ body) ≡ wrote frame = rw b at (h) in
      (ground arith, ap bytes_of w)
]

write_marshalled-wrote :
    (o : Option Bytes) (frame : Bytes)
    → write_marshalled o ≡ wrote frame
    → (body : Bytes) × (o ≡ some body)
      × (length body ≤ max_message_bytes)
      × (put_uint 4 (length body) ++ body ≡ frame)
unfolding write_marshalled
write_marshalled-wrote none frame h = cc
write_marshalled-wrote (some body) frame h =
    let (le, e) = write_body-wrote body frame h in (body, refl, le, e)

read_frame-write_frame :
    (json : Json) (m : Message) (frame rest : Bytes)
    → IsFaithful json
    → write_frame json m ≡ wrote frame
    → read_frame json (frame ++ rest) ≡ inl (m, rest)
unfolding write_frame read_frame after_header read_body decoded
read_frame-write_frame json m frame rest f h =
    let (body, e, le, q) = write_marshalled-wrote (json.marshal m) frame h in
    let n = length body in
    let split : frame ++ rest ≡ put_uint 4 n ++ (body ++ rest) =
      ap (λ x. x ++ rest) (sym q) ∙ append_assoc (put_uint 4 n) body rest in
    let size : uint_from 0 (put_uint 4 n) ≡ n = uint_from-put_uint 4 n (omega arith) in
    let small : ltb max_message_bytes n ≡ false = ltb-eq_false max_message_bytes n le in
    rw
      (
        split,
        read_full-append (put_uint 4 n) (body ++ rest) 4 (length-put_uint 4 n),
        size,
        small,
        read_full-append body rest n refl,
        f m body e,
      )
      refl

then_write-wrote :
    (w v : Written) (stream : Bytes)
    → then_write w v ≡ wrote stream
    → (a : Bytes) × (b : Bytes) × (w ≡ wrote a) × (v ≡ wrote b) × (a ++ b ≡ stream)
unfolding then_write bytes_of
then_write-wrote (refused e) v stream h = cc
then_write-wrote (wrote a) (refused e) stream h = cc
then_write-wrote (wrote a) (wrote b) stream h = (a, b, refl, refl, ap bytes_of h)

-- A sequence of messages, each within the limit, written one frame behind the other, is read back
-- as that sequence and then the end of file, with fuel of one more than the messages.
pub read_frames-write_frames :
    (json : Json) (ms : List Message) (stream : Bytes)
    → IsFaithful json
    → write_frames json ms ≡ wrote stream
    → read_frames (suc (length ms)) json stream ≡ (ms, some end_of_file)
unfolding write_frames read_frames read_on bytes_of read_frame after_header read_full
read_frames-write_frames json [] stream f h =
    subst (λ s. read_frames 1 json s ≡ ([], some end_of_file)) (ap bytes_of h) refl
read_frames-write_frames json (m ∷ ms) stream f h =
    let (a, b, wa, wb, q) = then_write-wrote (write_frame json m) (write_frames json ms) stream h in
    let first = read_frame-write_frame json m a b f wa in
    let later = read_frames-write_frames json ms b f wb in
    let fuel = suc (length ms) in
    subst (λ s. read_frames (suc fuel) json s ≡ (m ∷ ms, some end_of_file)) q
      (ap (read_on (read_frames fuel json)) first
        ∙ ap (λ (r : List Message × Option FrameError). (m ∷ r.0, r.1)) later)
