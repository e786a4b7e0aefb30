-- ===== src/Sync/Frame.antt =====
-- Length-prefixed frames. internal/mesh/sync/frame.go
pub mod Stream
use agentic_stats.Prelude.{
  ℕ, zero, suc, ◌+◌, ◌*◌, ◌≤◌, ◌<◌, ◌≡◌, refl, sym, ap, ◌∙◌, Bool, true, false, inl, inr, ◌↔◌, ◌⊎◌,
  Option, none, some, List, [], ◌∷◌, ◌++◌, arith, if◌then◌else◌, ltb, ltb-eq_false, lt→ltb, length,
  is_empty, take, drop, length-append, append_assoc, Bool-cases, Option-cases, All,
}
use agentic_stats.Source.{Bytes}
use agentic_stats.Source.Lines.{take_prefix, drop_prefix}
use agentic_stats.Cursor.{put_uint, uint_from}
use agentic_stats.Cursor.Codec.{length-put_uint, uint_from-put_uint}
use agentic_stats.Sync.Message.{Message}

abbrev pub frame_header_bytes : ℕ
frame_header_bytes = 4

abbrev pub max_message_bytes : ℕ
max_message_bytes = 67108864

-- json.Marshal and json.Unmarshal of messages; `none` is an error.
pub record Json : Type 0 where
  pub marshal : Message → Option Bytes
  pub unmarshal : Bytes → Option Message

pub data FrameError : Type 0 where
  encode_failed decode_failed : FrameError
  -- io.EOF and io.ErrUnexpectedEOF of io.ReadFull, in front of a frame or inside one.
  end_of_file cut_short : FrameError
  too_large : ℕ → FrameError

-- The bytes that a writer is given, or the error.
pub data Written : Type 0 where
  refused : FrameError → Written
  wrote : Bytes → Written

unfoldable pub write_body : Bytes → Written
write_body body =
    if ltb max_message_bytes (length body)
    then refused (too_large (length body))
    else wrote (put_uint frame_header_bytes (length body) ++ body)

unfoldable pub write_marshalled : Option Bytes → Written
write_marshalled none = refused encode_failed
write_marshalled (some body) = write_body body

unfoldable pub write_frame : Json → Message → Written
write_frame json m = write_marshalled (json.marshal m)

-- io.ReadFull of n bytes: they and the rest, or the error. Nothing is read for n = 0.
unfoldable pub read_full : ℕ → Bytes → (Bytes × Bytes) ⊎ FrameError
read_full n s =
    if ltb (length s) n
    then (if is_empty s then inr end_of_file else inr cut_short)
    else inl (take n s, drop n s)

-- A message and the bytes behind it.
abbrev pub ReadResult : Type 0
ReadResult = (Message × Bytes) ⊎ FrameError

unfoldable pub decoded : Option Message → Bytes → ReadResult
decoded none rest = inr decode_failed
decoded (some m) rest = inl (m, rest)

unfoldable pub read_body : Json → (Bytes × Bytes) ⊎ FrameError → ReadResult
read_body json (inr e) = inr e
read_body json (inl (body, rest)) = decoded (json.unmarshal body) rest

unfoldable pub after_header : Json → (Bytes × Bytes) ⊎ FrameError → ReadResult
after_header json (inr e) = inr e
after_header json (inl (header, rest)) =
    let size = uint_from 0 header in
    if ltb max_message_bytes size
    then inr (too_large size)
    else read_body json (read_full size rest)

unfoldable pub read_frame : Json → Bytes → ReadResult
read_frame json s = after_header json (read_full frame_header_bytes s)

-- The loop that reads frames until one cannot be read, on fuel; `none` is out of fuel.
unfoldable pub read_on :
    (Bytes → List Message × Option FrameError) → ReadResult → List Message × Option FrameError
read_on more (inr e) = ([], some e)
read_on more (inl (m, rest)) = let r = more rest in (m ∷ r.0, r.1)

unfoldable pub read_frames : ℕ → Json → Bytes → List Message × Option FrameError
read_frames zero json s = ([], none)
read_frames (suc fuel) json s = read_on (read_frames fuel json) (read_frame json s)

unfoldable pub then_write : Written → Written → Written
then_write (refused e) more = refused e
then_write (wrote frame) (refused e) = refused e
then_write (wrote frame) (wrote frames) = wrote (frame ++ frames)

-- What writing messages in turn gives, up to the first that is refused.
unfoldable pub write_frames : Json → List Message → Written
write_frames json [] = wrote []
write_frames json (m ∷ ms) = then_write (write_frame json m) (write_frames json ms)
