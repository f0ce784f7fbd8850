-- ===== src/Meshtastic/Frame/Ends.antt =====
-- That the loop of src/node/frame.ts ends.
use hop_watch.Prelude.{ℕ, suc, ◌≤◌, ◌≡◌, ap, ◌∙◌, List, arith, length}
use hop_watch.Meshtastic.Frame.{next, stop, parse_loop, parse_frames}
use hop_watch.Meshtastic.Frame.Stream.{parse_frames_lem, parse_frames_ind, parse_loop_fuel}

parse_frames_stops : (buf : List ℕ) → next (parse_frames buf).rest ≡ stop
parse_frames_stops buf =
    parse_frames_ind (λ b. next (parse_frames b).rest ≡ stop) (λ b e. rw (parse_frames_lem b, e) e)
      (λ b bs e ih. rw (parse_frames_lem b, e) ih) (λ b p bs e le ih. rw (parse_frames_lem b, e) ih)
      (suc (length buf)) buf (omega arith)

-- With as many rounds as the buffer has bytes, or more, the loop gives the result of the parser and
-- has ended by its break: a further round on the remainder would wait for more bytes.
pub parse_loop_ends :
    (fuel : ℕ) (buf : List ℕ)
    → length buf ≤ fuel
    → (parse_loop fuel buf ≡ parse_frames buf) × (next (parse_loop fuel buf).rest ≡ stop)
unfolding parse_frames
parse_loop_ends fuel buf h =
    let e = parse_loop_fuel fuel (length buf) buf h (omega arith) in
    (e, ap (λ r. next r.rest) e ∙ parse_frames_stops buf)
