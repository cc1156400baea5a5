-- ===== src/Docker/Frames.antt =====
-- A log in Docker's raw stream format, and what core/docker_mcp/log_decode.py makes of it.
use Prim.Native.Nat.{◌/◌, ◌%◌}
use native.Mathlib.Numerals.{unary_clauses}
use mathlib.Core.List.{append-nil, append_assoc}
use orchestra_threads.Prelude.{
  ℕ, zero, suc, ◌+◌, ◌<◌, ◌≤◌, ◌≡◌, refl, ap, sym, ◌∙◌, true, false, ◌||◌, List, [], ◌∷◌, ◌++◌, map,
  take, length, length-append, All, leb, ltb, eqb, arith,
}
use orchestra_threads.Text.{Text, ◌==◌, strip}
use orchestra_threads.Docker.Logs.{
  Bytes, drop, slice, from_bytes, join, has_stream_type, looks_like_raw_stream, read_frame,
  read_frames, last_chunk, decode_raw_stream, decode_logs_output,
}

pub record Frame : Type 0 where
  pub stream_type : ℕ
  pub payload : Bytes

-- The standard output or the standard error.
abbrev pub IsOutput : Frame → Type 0
IsOutput f = (eqb f.stream_type 1 || eqb f.stream_type 2) ≡ true

-- The size is one that four bytes hold.
abbrev pub IsSized : Frame → Type 0
IsSized f = length f.payload < 4294967296

abbrev pub size_bytes : ℕ → Bytes
size_bytes n = (n / 16777216) % 256 ∷ (n / 65536) % 256 ∷ (n / 256) % 256 ∷ n % 256 ∷ []

-- The header of eight bytes and the payload, as Docker documents them.
abbrev pub encode : Frame → Bytes
encode f = f.stream_type ∷ 0 ∷ 0 ∷ 0 ∷ (size_bytes (length f.payload) ++ f.payload)

abbrev pub stream : List Frame → Bytes → Bytes
stream [] tail = tail
stream (f ∷ frames) tail = encode f ++ stream frames tail

from_bytes-size_bytes : (n : ℕ) → n < 4294967296 → from_bytes 0 (size_bytes n) ≡ n
from_bytes-size_bytes n h = omega arith

drop_add : (c k : ℕ) (xs : Bytes) → drop (c + k) xs ≡ drop k (drop c xs)
drop_add zero k xs = ap (λ n. drop n xs) (omega arith)
drop_add (suc c) zero [] = simp unary_clauses refl
drop_add (suc c) (suc k) [] = simp unary_clauses refl
drop_add (suc c) k (x ∷ xs) =
    ap (λ n. drop n (x ∷ xs)) {y = suc (c + k)} (omega arith) ∙ drop_add c k xs

length-drop : (c : ℕ) (xs : Bytes) → c ≤ length xs → c + length (drop c xs) ≡ length xs
length-drop zero xs h = omega arith
length-drop (suc c) [] h = omega arith
length-drop (suc c) (x ∷ xs) h = omega (arith, length-drop c xs (omega arith))

take-length : (xs ys : Bytes) → take (length xs) (xs ++ ys) ≡ xs
take-length [] ys = refl
take-length (x ∷ xs) ys = ap (λ t. x ∷ t) (take-length xs ys)

drop-length : (xs ys : Bytes) → drop (length xs) (xs ++ ys) ≡ ys
drop-length [] ys = refl
drop-length (x ∷ xs) ys = drop-length xs ys

header : (cursor : ℕ) (raw : Bytes) → cursor + 8 ≤ length raw → leb (cursor + 8) (length raw) ≡ true
header cursor raw h = ground arith

no_header :
    (cursor : ℕ) (raw : Bytes) → length raw < cursor + 8 → leb (cursor + 8) (length raw) ≡ false
no_header cursor raw h = ground arith

at_end : (cursor : ℕ) (raw : Bytes) → length raw ≤ cursor → ltb cursor (length raw) ≡ false
at_end cursor raw h = ground arith

before_end : (cursor : ℕ) (raw : Bytes) → cursor < length raw → ltb cursor (length raw) ≡ true
before_end cursor raw h = ground arith

module _ (decode : Bytes → Text) where
  -- What is left after the last frame.
  abbrev pub tail_chunk : Bytes → List Text
  tail_chunk [] = []
  tail_chunk (b ∷ bs) = decode (b ∷ bs) ∷ []

  header_size :
      (raw : Bytes) (cursor : ℕ) (f : Frame) (rest : Bytes)
      → drop cursor raw ≡ encode f ++ rest
      → IsSized f
      → from_bytes 0 (slice raw (cursor + 4) 4) ≡ length f.payload
  header_size raw cursor f rest h small =
      rw (drop_add cursor 4 raw, h) (from_bytes-size_bytes (length f.payload) small)

  frame_payload :
      (raw : Bytes) (cursor : ℕ) (f : Frame) (rest : Bytes)
      → drop cursor raw ≡ encode f ++ rest
      → slice raw (cursor + 8) (length f.payload) ≡ f.payload
  frame_payload raw cursor f rest h = rw (drop_add cursor 8 raw, h) (take-length f.payload rest)

  after_frame :
      (raw : Bytes) (cursor : ℕ) (f : Frame) (rest : Bytes)
      → drop cursor raw ≡ encode f ++ rest
      → drop (cursor + 8 + length f.payload) raw ≡ rest
  after_frame raw cursor f rest h =
      rw (drop_add (cursor + 8) (length f.payload) raw, drop_add cursor 8 raw, h)
        (drop-length f.payload rest)

  read_frame-encode :
      (raw : Bytes) (cursor : ℕ) (chunks : List Text) (f : Frame) (rest : Bytes)
      → drop cursor raw ≡ encode f ++ rest
      → IsSized f
      → read_frame decode raw cursor chunks
        ≡ (cursor + 8 + length f.payload, chunks ++ (decode f.payload ∷ []))
  unfolding read_frame
  read_frame-encode raw cursor chunks f rest h small =
      rw (header_size raw cursor f rest h small, frame_payload raw cursor f rest h) refl

  has_header :
      (raw : Bytes) (cursor : ℕ) (f : Frame) (rest : Bytes)
      → cursor ≤ length raw
      → drop cursor raw ≡ encode f ++ rest
      → cursor + 8 + length f.payload + length rest ≡ length raw
  has_header raw cursor f rest c h =
      omega (arith, length-drop cursor raw c, ap length h, length-append f.payload rest)

  read_frames-stream :
      (frames : List Frame) (tail raw : Bytes) (fuel cursor : ℕ) (chunks : List Text)
      → All IsSized frames
      → cursor ≤ length raw
      → drop cursor raw ≡ stream frames tail
      → length tail < 8
      → length (drop cursor raw) ≤ fuel
      → let read = read_frames decode fuel raw cursor chunks in
        (read.1 ≡ chunks ++ map (λ f. decode f.payload) frames)
        × (drop read.0 raw ≡ tail)
        × (read.0 ≤ length raw)
  unfolding read_frames
  read_frames-stream [] tail raw zero cursor chunks small c h t enough =
      (sym (append-nil chunks), h, c)
  read_frames-stream [] tail raw (suc fuel) cursor chunks small c h t enough =
      rw (no_header cursor raw (omega (arith, length-drop cursor raw c, ap length h)))
        (sym (append-nil chunks), h, c)
  read_frames-stream (f ∷ frames) tail raw zero cursor chunks small c h t enough =
      absurd
        (omega (arith, length-drop cursor raw c, has_header raw cursor f (stream frames tail) c h))
  read_frames-stream (f ∷ frames) tail raw (suc fuel) cursor chunks small c h t enough =
      let rest = stream frames tail in
      let size = has_header raw cursor f rest c h in
      let (all, left, inside) =
        read_frames-stream frames tail raw fuel (cursor + 8 + length f.payload)
          (chunks ++ (decode f.payload ∷ [])) small.1 (omega (arith, size))
          (after_frame raw cursor f rest h) t
          (omega
            (arith, size, length-drop cursor raw c, ap length (after_frame raw cursor f rest h))) in
      rw
        (
          header cursor raw (omega (arith, size)),
          read_frame-encode raw cursor chunks f rest h small.0,
        )
        (
          all ∙ append_assoc chunks (decode f.payload ∷ []) (map (λ g. decode g.payload) frames),
          left,
          inside,
        )

  last_chunk-drop :
      (raw tail : Bytes) (cursor : ℕ)
      → cursor ≤ length raw
      → drop cursor raw ≡ tail
      → last_chunk decode raw cursor ≡ tail_chunk tail
  unfolding last_chunk
  last_chunk-drop raw [] cursor c h =
      rw (at_end cursor raw (omega (arith, length-drop cursor raw c, ap length h))) refl
  last_chunk-drop raw (b ∷ bs) cursor c h =
      rw (before_end cursor raw (omega (arith, length-drop cursor raw c, ap length h)), h) refl

  looks-stream :
      (f : Frame) (rest : Bytes) → IsOutput f → looks_like_raw_stream (encode f ++ rest) ≡ true
  unfolding looks_like_raw_stream has_stream_type ◌==◌
  looks-stream f rest h = ground (arith, h)

  -- A log of one frame or more on the standard output or the standard error, each of less than
  -- 2 ^ 32 bytes, and of less than eight bytes after them (a header that is cut off), is decoded to
  -- the decoded payloads in their order, then the decoded remainder, without the space around.
  pub decode_logs_output-stream :
      (f : Frame) (frames : List Frame) (tail : Bytes)
      → IsOutput f
      → All IsSized (f ∷ frames)
      → length tail < 8
      → decode_logs_output decode (stream (f ∷ frames) tail)
        ≡ strip (join (map (λ g. decode g.payload) (f ∷ frames) ++ tail_chunk tail))
  unfolding decode_logs_output decode_raw_stream
  decode_logs_output-stream f frames tail kind small t =
      let raw = stream (f ∷ frames) tail in
      let (all, left, inside) =
        read_frames-stream (f ∷ frames) tail raw (length raw) 0 [] small (omega arith) refl t
          (omega arith) in
      rw
        (
          looks-stream f (stream frames tail) kind,
          all,
          last_chunk-drop raw tail (read_frames decode (length raw) raw 0 []).0 inside left,
        )
        refl
