-- ===== src/Meshtastic/Frame/Tests.antt =====
-- Runs of the framing code, and the theorems at concrete buffers.
use hop_watch.Prelude.{◌≡◌, refl, [], ◌∷◌, ◌++◌, arith}
use hop_watch.Meshtastic.Frame.Ends.{parse_loop_ends}
use hop_watch.Meshtastic.Frame.{next, parse_loop, parse_frames, stop}
use hop_watch.Meshtastic.Frame.Round.{frames_then, parse_frames_round}
use hop_watch.Meshtastic.Frame.Stream.{then_parse, parse_frames-append}

-- A stray pair of magic bytes with an absurd length is stepped over.
bogus_length :
    parse_frames (0x94 ∷ 0xc3 ∷ 0xff ∷ 0xff ∷ 0x94 ∷ 0xc3 ∷ 0 ∷ 1 ∷ 7 ∷ [])
    ≡ record { frames = (7 ∷ []) ∷ []; rest = [] }
unfolding parse_frames parse_loop next
bogus_length = refl

-- A payload that has not arrived yet stays in the remainder.
partial_payload :
    parse_frames (1 ∷ 0x94 ∷ 0xc3 ∷ 0 ∷ 3 ∷ 7 ∷ 8 ∷ [])
    ≡ record { frames = []; rest = 0x94 ∷ 0xc3 ∷ 0 ∷ 3 ∷ 7 ∷ 8 ∷ [] }
unfolding parse_frames parse_loop next
partial_payload = refl

parse_frames_round_example :
    parse_frames ((1 ∷ 2 ∷ []) ++ frames_then ((7 ∷ 8 ∷ []) ∷ [] ∷ []) [])
    ≡ record { frames = (7 ∷ 8 ∷ []) ∷ [] ∷ []; rest = [] }
parse_frames_round_example =
    parse_frames_round (1 ∷ 2 ∷ []) ((7 ∷ 8 ∷ []) ∷ [] ∷ []) (omega arith) (omega arith)

parse_frames-append_example :
    parse_frames ((0x94 ∷ 0xc3 ∷ 0 ∷ []) ++ (1 ∷ 7 ∷ []))
    ≡ then_parse (parse_frames (0x94 ∷ 0xc3 ∷ 0 ∷ [])) (1 ∷ 7 ∷ [])
parse_frames-append_example = parse_frames-append (0x94 ∷ 0xc3 ∷ 0 ∷ []) (1 ∷ 7 ∷ [])

parse_loop_ends_example :
    (parse_loop 9 (1 ∷ 0x94 ∷ 0xc3 ∷ 0 ∷ 1 ∷ 7 ∷ 0x94 ∷ [])
      ≡ parse_frames (1 ∷ 0x94 ∷ 0xc3 ∷ 0 ∷ 1 ∷ 7 ∷ 0x94 ∷ []))
    × (next (parse_loop 9 (1 ∷ 0x94 ∷ 0xc3 ∷ 0 ∷ 1 ∷ 7 ∷ 0x94 ∷ [])).rest ≡ stop)
parse_loop_ends_example = parse_loop_ends 9 (1 ∷ 0x94 ∷ 0xc3 ∷ 0 ∷ 1 ∷ 7 ∷ 0x94 ∷ []) (omega arith)
