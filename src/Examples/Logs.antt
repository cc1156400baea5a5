-- ===== src/Examples/Logs.antt =====
-- The theorem on docker_mcp, at a log of two frames and a header that is cut off.
use orchestra_threads.Prelude.{◌≡◌, refl, [], ◌∷◌, ◌++◌, map, arith}
use orchestra_threads.Text.{Text, strip, lstrip_by, rstrip_by, is_space, ◌==◌}
use orchestra_threads.Docker.Logs.{
  Bytes, join, decode_logs_output, decode_raw_stream, read_frames, read_frame, last_chunk,
  looks_like_raw_stream, has_stream_type,
}
use orchestra_threads.Docker.Frames.{Frame, stream, tail_chunk, decode_logs_output-stream}

-- The text of bytes below 128.
abbrev ascii : Bytes → Text
ascii bytes = bytes

abbrev out : Frame
out = record { stream_type = 1; payload = 32 ∷ 104 ∷ 105 ∷ [] }

abbrev error : Frame
error = record { stream_type = 2; payload = 10 ∷ 33 ∷ [] }

abbrev cut : Bytes
cut = 1 ∷ 0 ∷ []

two_frames : decode_logs_output ascii (stream (out ∷ error ∷ []) []) ≡ (104 ∷ 105 ∷ 10 ∷ 33 ∷ [])
unfolding decode_logs_output decode_raw_stream read_frames read_frame last_chunk
    looks_like_raw_stream has_stream_type strip lstrip_by rstrip_by is_space ◌==◌
two_frames = refl

decode_logs_output_example :
    decode_logs_output ascii (stream (out ∷ error ∷ []) cut)
    ≡ strip (join (map (λ g. ascii g.payload) (out ∷ error ∷ []) ++ tail_chunk ascii cut))
decode_logs_output_example =
    decode_logs_output-stream ascii out (error ∷ []) cut refl (omega arith, (omega arith, tt))
      (omega arith)
