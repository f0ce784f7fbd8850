-- ===== src/Meshtastic/Frame.antt =====
-- Serial and TCP stream framing, src/node/frame.ts. A buffer is the list of its bytes (each below
-- 256, so that `(hi << 8) | lo` is `hi * 256 + lo`); `buf.slice(i)` is what is left of the list.
pub mod Round
pub mod Stream
pub mod Ends
mod Tests
use hop_watch.Prelude.{
  ℕ, zero, suc, ◌+◌, ◌*◌, ◌/◌, ◌%◌, List, [], ◌∷◌, ◌++◌, length, take, drop, ltb, ◌==◌,
  if◌then◌else◌,
}

abbrev pub start1 : ℕ
start1 = 0x94

abbrev pub start2 : ℕ
start2 = 0xc3

abbrev pub max_frame_len : ℕ
max_frame_len = 512

-- The header: two magic bytes and the length, high byte first.
pub frame : List ℕ → List ℕ
frame payload = start1 ∷ start2 ∷ (length payload / 256 % 256) ∷ (length payload % 256) ∷ payload

-- What one round of the loop of `parseFrames` does: leave by `break`, step over one byte by
-- `i++; continue`, or push a payload and step over the frame.
pub data Next : Type 0 where
  stop : Next
  skip : List ℕ → Next
  took : List ℕ → List ℕ → Next

-- The tests on the length, `ds` being the bytes after the header and `resume` those after byte i.
pub body : List ℕ → ℕ → List ℕ → Next
body resume len ds =
    if ltb max_frame_len len
    then skip resume
    else if ltb (length ds) len
    then stop
    else took (take len ds) (drop len ds)

pub header : List ℕ → List ℕ → Next
unfolding body
header resume (hi ∷ lo ∷ ds) = body resume (hi * 256 + lo) ds
header resume (hi ∷ []) = stop
header resume [] = stop

pub second : List ℕ → Next
unfolding header
second [] = stop
second (b ∷ cs) = if b == start2 then header (b ∷ cs) cs else skip (b ∷ cs)

pub next : List ℕ → Next
unfolding second
next [] = stop
next (a ∷ bs) = if a == start1 then second bs else skip bs

pub record Parsed : Type 0 where
  pub frames : List (List ℕ)
  pub rest : List ℕ

-- `frames.push(payload)` ahead of what the later rounds push.
abbrev pub push : List ℕ → Parsed → Parsed
push p r = record r { frames = p ∷ r.frames }

-- The `while` loop; each round takes a byte at least, so the buffer's length is fuel enough.
pub parse_loop : ℕ → List ℕ → Parsed
parse_loop zero buf = record { frames = []; rest = buf }
parse_loop (suc fuel) buf = elim (next buf) [
  | stop ↦ record { frames = []; rest = buf }
  | skip bs ↦ parse_loop fuel bs
  | took p bs ↦ push p (parse_loop fuel bs)
]

pub parse_frames : List ℕ → Parsed
parse_frames buf = parse_loop (length buf) buf
