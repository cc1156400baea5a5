-- ===== src/Docker/Logs.antt =====
-- core/docker_mcp/log_decode.py: the bytes of a container's log as a text. Bytes are numbers below
-- 256, and `bytes.decode("utf-8", errors="replace")` is the argument `decode`.
use orchestra_threads.Prelude.{
  ℕ, zero, suc, ◌+◌, ◌*◌, Bool, false, ◌&&◌, ◌||◌, List, [], ◌∷◌, ◌++◌, take, length, leb, ltb, eqb,
  if◌then◌else◌,
}
use orchestra_threads.Text.{Text, ◌==◌, strip}

abbrev pub Bytes : Type 0
Bytes = List ℕ

abbrev pub drop {ℓ} : {A : Type ℓ} → ℕ → List A → List A
drop zero xs = xs
drop (suc n) [] = []
drop (suc n) (x ∷ xs) = drop n xs

-- `raw_output[start : start + size]`
abbrev pub slice : Bytes → ℕ → ℕ → Bytes
slice raw_output start size = take size (drop start raw_output)

-- `int.from_bytes(_, byteorder="big")`, after the bytes that make `n`.
abbrev pub from_bytes : ℕ → Bytes → ℕ
from_bytes n [] = n
from_bytes n (b ∷ bs) = from_bytes (n * 256 + b) bs

-- `"".join`
abbrev pub join : List Text → Text
join [] = []
join (chunk ∷ chunks) = chunk ++ join chunks

-- `raw_output[0] in {1, 2}`
unfoldable pub has_stream_type : Bytes → Bool
has_stream_type [] = false
has_stream_type (stream_type ∷ bs) = eqb stream_type 1 || eqb stream_type 2

unfoldable pub looks_like_raw_stream : Bytes → Bool
looks_like_raw_stream raw_output =
    if ltb (length raw_output) 8
    then false
    else (has_stream_type raw_output && (slice raw_output 1 3 == (0 ∷ 0 ∷ 0 ∷ [])))

module _ (decode : Bytes → Text) where
  -- The new cursor, and the chunks with that of the frame.
  unfoldable pub read_frame : Bytes → ℕ → List Text → ℕ × List Text
  read_frame raw_output cursor chunks =
      let header_end = cursor + 8 in
      let frame_size = from_bytes 0 (slice raw_output (cursor + 4) 4) in
      let chunk = slice raw_output header_end frame_size in
      (header_end + frame_size, chunks ++ (decode chunk ∷ []))

  -- The loop of `_decode_raw_stream`: every round moves the cursor by 8 or more, so the length of
  -- the bytes is enough fuel.
  unfoldable pub read_frames : ℕ → Bytes → ℕ → List Text → ℕ × List Text
  read_frames zero raw_output cursor chunks = (cursor, chunks)
  read_frames (suc fuel) raw_output cursor chunks =
      let next = read_frame raw_output cursor chunks in
      let rest = read_frames fuel raw_output next.0 next.1 in
      if leb (cursor + 8) (length raw_output) then rest else (cursor, chunks)

  unfoldable pub last_chunk : Bytes → ℕ → List Text
  last_chunk raw_output cursor =
      if ltb cursor (length raw_output) then (decode (drop cursor raw_output) ∷ []) else []

  unfoldable pub decode_raw_stream : Bytes → Text
  decode_raw_stream raw_output =
      let read = read_frames (length raw_output) raw_output 0 [] in
      strip (join (read.1 ++ last_chunk raw_output read.0))

  unfoldable pub decode_logs_output : Bytes → Text
  decode_logs_output [] = []
  decode_logs_output (b ∷ bs) =
      if looks_like_raw_stream (b ∷ bs) then decode_raw_stream (b ∷ bs) else strip (decode (b ∷ bs))
