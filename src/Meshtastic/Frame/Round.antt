-- ===== src/Meshtastic/Frame/Round.antt =====
-- What src/node/frame.ts writes, it reads back.
use mathlib.Core.List.{append-nil}
use hop_watch.Prelude.{
  ℕ, ◌+◌, ◌*◌, ◌/◌, ◌%◌, ◌≤◌, ◌≡◌, refl, ap, ◌∙◌, ◌≢◌, List, [], ◌∷◌, ◌++◌, length, take, drop, ltb,
  false, arith, take-append, drop-append, take-length, drop-length, length-append, All,
}
use hop_watch.Meshtastic.Frame.{
  start1, max_frame_len, frame, skip, took, body, next, push, parse_loop, parse_frames,
}
use hop_watch.Meshtastic.Frame.Stream.{parse_frames_lem, Resumes}

-- `(len >> 8) & 0xff` and `len & 0xff` hold the length.
frame-len : (n : ℕ) → n ≤ max_frame_len → n / 256 % 256 * 256 + n % 256 ≡ n
frame-len n h = omega arith

take-length_append : (p more : List ℕ) → take (length p) (p ++ more) ≡ p
take-length_append p more = take-append (length p) p more (omega arith) ∙ take-length p

drop-length_append : (p more : List ℕ) → drop (length p) (p ++ more) ≡ more
drop-length_append p more =
    drop-append (length p) p more (omega arith) ∙ ap (λ t. t ++ more) (drop-length p)

body-whole :
    (resume p more : List ℕ)
    → length p ≤ max_frame_len
    → body resume (length p) (p ++ more) ≡ took p more
unfolding body
body-whole resume p more h =
    let fits : ltb max_frame_len (length p) ≡ false = ground arith in
    let whole : ltb (length (p ++ more)) (length p) ≡ false =
      ground (arith, length-append p more) in
    rw (fits, whole, take-length_append, drop-length_append) refl

next-frame : (p more : List ℕ) → length p ≤ max_frame_len → next (frame p ++ more) ≡ took p more
unfolding next frame
next-frame p more h = rw (frame-len (length p) h) (body-whole _ p more h)

-- A frame at the head of the buffer is parsed first, whatever follows it.
parse_frames-frame :
    (p more : List ℕ)
    → length p ≤ max_frame_len
    → parse_frames (frame p ++ more) ≡ push p (parse_frames more)
parse_frames-frame p more h =
    parse_frames_lem (frame p ++ more)
    ∙ ap (Resumes parse_frames (frame p ++ more)) (next-frame p more h)

-- The bytes of several frames, one after the other, and then some more.
abbrev pub frames_then : List (List ℕ) → List ℕ → List ℕ
frames_then [] more = more
frames_then (p ∷ ps) more = frame p ++ frames_then ps more

parse_frames-frames_then :
    (ps : List (List ℕ)) (more : List ℕ)
    → All (λ p. length p ≤ max_frame_len) ps
    → parse_frames (frames_then ps more)
      ≡ record { frames = ps ++ (parse_frames more).frames; rest = (parse_frames more).rest }
parse_frames-frames_then [] more h = refl
parse_frames-frames_then (p ∷ ps) more (h, hs) =
    parse_frames-frame p (frames_then ps more) h ∙ ap (push p) (parse_frames-frames_then ps more hs)

next-skip : (a : ℕ) (bs : List ℕ) → a ≢ start1 → next (a ∷ bs) ≡ skip bs
unfolding next
next-skip a bs h = ground arith

parse_frames-skip : (a : ℕ) (bs : List ℕ) → a ≢ start1 → parse_frames (a ∷ bs) ≡ parse_frames bs
parse_frames-skip a bs h =
    parse_frames_lem (a ∷ bs) ∙ ap (Resumes parse_frames (a ∷ bs)) (next-skip a bs h)

parse_frames-nil : parse_frames [] ≡ record { frames = []; rest = [] }
unfolding parse_frames parse_loop
parse_frames-nil = refl

-- Bytes with no first magic byte among them.
abbrev pub IsNoise : List ℕ → Type 0
IsNoise = All (λ a. a ≢ start1)

-- Payloads within the size limit that are framed one after the other, behind any noise with no
-- first magic byte in it, are read back in order with nothing left over.
pub parse_frames_round :
    (noise : List ℕ) (ps : List (List ℕ))
    → IsNoise noise
    → All (λ p. length p ≤ max_frame_len) ps
    → parse_frames (noise ++ frames_then ps []) ≡ record { frames = ps; rest = [] }
parse_frames_round [] ps quiet h =
    parse_frames-frames_then ps [] h ∙ rw (parse_frames-nil, append-nil) refl
parse_frames_round (a ∷ noise) ps (quiet, q) h =
    parse_frames-skip a _ quiet ∙ parse_frames_round noise ps q h
