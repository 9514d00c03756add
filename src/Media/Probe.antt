-- ===== src/Media/Probe.antt =====
-- pkg/ffprobe/ffprobe.go: what is read from a video file. The program and the decoding of its output are outside.
use godlna.Base.{
  ℕ, ◌/◌, Text, codes, text_beq, List, [], ◌∷◌, Option, none, some, ltb, if◌then◌else◌, ℤ,
}

pub record Stream : Type 0 where
  pub codec_type : Text
  pub codec_name : Text
  pub sample_rate : ℕ
  pub channels : ℕ
  pub width : ℕ
  pub height : ℕ

-- The duration is in nanoseconds.
pub record Format : Type 0 where
  pub name : Text
  pub duration : ℤ
  pub size : ℕ
  pub bit_rate : ℕ

-- `UnmarshalJSON` of a decoded format: the rate is turned from bits into bytes.
unfoldable pub unmarshal_json : Format → Format
unmarshal_json a = record a { bit_rate = if ltb 8 a.bit_rate then a.bit_rate / 8 else a.bit_rate }

pub record Data : Type 0 where
  pub format : Format
  pub streams : List Stream

unfoldable pub first_stream : Text → List Stream → Option Stream
first_stream typ [] = none
first_stream typ (stream ∷ streams) =
    let rest = first_stream typ streams in
    if text_beq stream.codec_type typ then some stream else rest

unfoldable pub first_video_stream : Data → Option Stream
unfolding first_stream
first_video_stream d = first_stream (codes "video") d.streams

unfoldable pub first_audio_stream : Data → Option Stream
unfolding first_stream
first_audio_stream d = first_stream (codes "audio") d.streams
