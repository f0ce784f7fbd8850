-- ===== src/Meshtastic/Frame/Stream.antt =====
-- The parser of src/node/frame.ts over a stream that arrives in chunks.
use hop_watch.Prelude.{
  ℕ, zero, suc, ◌+◌, ◌*◌, ◌≤◌, ◌<◌, ◌≡◌, refl, sym, ap, subst, ◌∙◌, inl, inr, false, List, [], ◌∷◌,
  ◌++◌, arith, ltb, ◌==◌, Bool-cases, length, length-append, length-take, length-drop, take-append,
  drop-append, All,
}
use hop_watch.Meshtastic.Frame.{
  start1, start2, max_frame_len, Next, stop, skip, took, body, header, second, next, Parsed, push,
  parse_loop, parse_frames,
}

-- A round that does not wait for more bytes does the same when more bytes follow.
abbrev Extends : List ℕ → Next → Next → Type 0
Extends ext stop n = Unit
Extends ext (skip bs) n = n ≡ skip (bs ++ ext)
Extends ext (took p bs) n = n ≡ took p (bs ++ ext)

body-Extends :
    (ext resume : List ℕ) (len : ℕ) (ds : List ℕ)
    → Extends ext (body resume len ds) (body (resume ++ ext) len (ds ++ ext))
unfolding body
body-Extends ext resume len ds = elim (Bool-cases (ltb max_frame_len len)) [
  | inl long ↦ rw long refl
  | inr fits ↦ elim (Bool-cases (ltb (length ds) len)) [
    | inl short ↦ rw (fits, short) tt
    | inr whole ↦
        rw (fits, whole)
          (let le : len ≤ length ds = ground arith in
            let whole' : ltb (length (ds ++ ext)) len ≡ false =
              ground (arith, length-append ds ext) in
            rw (whole', take-append len ds ext le, drop-append len ds ext le) refl)
  ]
]

header-Extends :
    (ext resume cs : List ℕ) → Extends ext (header resume cs) (header (resume ++ ext) (cs ++ ext))
unfolding header
header-Extends ext resume [] = tt
header-Extends ext resume (hi ∷ []) = tt
header-Extends ext resume (hi ∷ lo ∷ ds) = body-Extends ext resume (hi * 256 + lo) ds

second-Extends : (ext bs : List ℕ) → Extends ext (second bs) (second (bs ++ ext))
unfolding second
second-Extends ext [] = tt
second-Extends ext (b ∷ cs) = elim (Bool-cases (b == start2)) [
  | inl magic ↦ rw magic (header-Extends ext (b ∷ cs) cs)
  | inr other ↦ rw other refl
]

next-Extends : (ext buf : List ℕ) → Extends ext (next buf) (next (buf ++ ext))
unfolding next
next-Extends ext [] = tt
next-Extends ext (a ∷ bs) = elim (Bool-cases (a == start1)) [
  | inl magic ↦ rw magic (second-Extends ext bs)
  | inr other ↦ rw other refl
]

-- A round that goes on has taken a byte at least, and one that stops had less than a frame.
abbrev pub Progress : ℕ → Next → Type 0
Progress n stop = n < 4 + max_frame_len
Progress n (skip bs) = length bs < n
Progress n (took p bs) = (length bs < n) × (length p ≤ max_frame_len)

body-Progress :
    (n : ℕ) (resume : List ℕ) (len : ℕ) (ds : List ℕ)
    → length resume < n
    → n ≡ 4 + length ds
    → Progress n (body resume len ds)
unfolding body
body-Progress n resume len ds h e = elim (Bool-cases (ltb max_frame_len len)) [
  | inl long ↦ rw long h
  | inr fits ↦ elim (Bool-cases (ltb (length ds) len)) [
    | inl short ↦ rw (fits, short) (ground arith)
    | inr whole ↦
        rw (fits, whole) (omega (arith, length-drop len ds), ground (arith, length-take len ds))
  ]
]

pub next-Progress : (buf : List ℕ) → Progress (length buf) (next buf)
unfolding next second header
next-Progress [] = omega arith
next-Progress (a ∷ bs) = elim (Bool-cases (a == start1)) [
  | inr other ↦ rw other (omega arith)
  | inl magic ↦ rw magic (after bs)
]
  where
    tail :
        (n : ℕ) (resume cs : List ℕ)
        → length resume < n
        → n ≡ 2 + length cs
        → Progress n (header resume cs)
    tail n resume [] h e = omega arith
    tail n resume (hi ∷ []) h e = omega arith
    tail n resume (hi ∷ lo ∷ ds) h e = body-Progress n resume (hi * 256 + lo) ds h (omega arith)

    after : (bs : List ℕ) → Progress (suc (length bs)) (second bs)
    after [] = omega arith
    after (b ∷ cs) = elim (Bool-cases (b == start2)) [
      | inl is_magic ↦ rw is_magic (tail _ (b ∷ cs) cs (omega arith) (omega arith))
      | inr is_other ↦ rw is_other (omega arith)
    ]

-- What the parser makes of a buffer, once the first round is known.
abbrev pub Resumes : (List ℕ → Parsed) → List ℕ → Next → Parsed
Resumes go buf stop = record { frames = []; rest = buf }
Resumes go buf (skip bs) = go bs
Resumes go buf (took p bs) = push p (go bs)

parse_loop-suc :
    (f : ℕ) (buf : List ℕ) → parse_loop (suc f) buf ≡ Resumes (parse_loop f) buf (next buf)
unfolding parse_loop
parse_loop-suc f buf = split (next buf) refl
  where
    split :
        (n : Next) → next buf ≡ n → parse_loop (suc f) buf ≡ Resumes (parse_loop f) buf (next buf)
    split stop e = rw (e, parse_loop)
    split (skip bs) e = rw (e, parse_loop)
    split (took p bs) e = rw (e, parse_loop)

Resumes-cong :
    (go go' : List ℕ → Parsed) (k : ℕ) (buf : List ℕ) (n : Next)
    → Progress (suc k) n
    → ((bs : List ℕ) → length bs ≤ k → go bs ≡ go' bs)
    → Resumes go buf n ≡ Resumes go' buf n
Resumes-cong go go' k buf stop h e = refl
Resumes-cong go go' k buf (skip bs) h e = e bs (omega arith)
Resumes-cong go go' k buf (took p bs) h e = ap (push p) (e bs (omega arith))

parse_loop-nil : (f : ℕ) → parse_loop f [] ≡ record { frames = []; rest = [] }
unfolding parse_loop next
parse_loop-nil zero = refl
parse_loop-nil (suc f) = refl

-- Any fuel that reaches the buffer's length gives the same result.
pub parse_loop_fuel :
    (f g : ℕ) (buf : List ℕ) → length buf ≤ f → length buf ≤ g → parse_loop f buf ≡ parse_loop g buf
parse_loop_fuel f g [] h k = parse_loop-nil f ∙ sym (parse_loop-nil g)
parse_loop_fuel zero g (a ∷ bs) h k = absurd (omega arith)
parse_loop_fuel (suc f) zero (a ∷ bs) h k = absurd (omega arith)
parse_loop_fuel (suc f) (suc g) (a ∷ bs) h k =
    parse_loop-suc f (a ∷ bs)
    ∙ Resumes-cong (parse_loop f) (parse_loop g) (length bs) (a ∷ bs) (next (a ∷ bs))
        (next-Progress (a ∷ bs)) (λ cs le. parse_loop_fuel f g cs (omega arith) (omega arith))
    ∙ sym (parse_loop-suc g (a ∷ bs))

-- The parser as a recursion with no fuel: one round, then the parser on what it left.
pub parse_frames_lem : (buf : List ℕ) → parse_frames buf ≡ Resumes parse_frames buf (next buf)
unfolding parse_frames
parse_frames_lem [] = parse_loop-nil 0 ∙ unfold next in refl
parse_frames_lem (a ∷ bs) =
    parse_loop-suc (length bs) (a ∷ bs)
    ∙ Resumes-cong (parse_loop (length bs)) parse_frames (length bs) (a ∷ bs) (next (a ∷ bs))
        (next-Progress (a ∷ bs))
        (λ cs le. parse_loop_fuel (length bs) (length cs) cs le (omega arith))

-- Induction along the rounds of the parser.
pub parse_frames_ind {ℓ} :
    (P : List ℕ → Type ℓ)
    → ((buf : List ℕ) → next buf ≡ stop → P buf)
    → ((buf bs : List ℕ) → next buf ≡ skip bs → P bs → P buf)
    → ((buf p bs : List ℕ) → next buf ≡ took p bs → length p ≤ max_frame_len → P bs → P buf)
    → (k : ℕ) (buf : List ℕ) → length buf < k
    → P buf
parse_frames_ind P on_stop on_skip on_took zero buf h = elim h [ ]
parse_frames_ind P on_stop on_skip on_took (suc k) buf h =
    split (next buf) refl (next-Progress buf) (parse_frames_ind P on_stop on_skip on_took k)
  where
    split :
        (n : Next)
        → next buf ≡ n
        → Progress (length buf) n
        → ((bs : List ℕ) → length bs < k → P bs)
        → P buf
    split stop e g ih = on_stop buf e
    split (skip bs) e g ih = on_skip buf bs e (ih bs (omega arith))
    split (took p bs) e g ih = on_took buf p bs e g.1 (ih bs (omega arith))

-- Parsing what one chunk left over, followed by the next chunk.
abbrev pub then_parse : Parsed → List ℕ → Parsed
then_parse r more = record {
  frames = r.frames ++ (parse_frames (r.rest ++ more)).frames;
  rest = (parse_frames (r.rest ++ more)).rest;
}

-- However the stream is cut into chunks, the frames and the remainder are the same: parsing two
-- chunks at once gives the frames of the first, then the frames of its remainder joined to the
-- second chunk, and the remainder of that.
pub parse_frames-append :
    (buf more : List ℕ) → parse_frames (buf ++ more) ≡ then_parse (parse_frames buf) more
parse_frames-append buf more =
    parse_frames_ind (λ b. parse_frames (b ++ more) ≡ then_parse (parse_frames b) more)
      (λ b e.
        ap (λ r. then_parse r more) (sym (parse_frames_lem b ∙ ap (Resumes parse_frames b) e)))
      (λ b bs e ih.
        parse_frames_lem (b ++ more)
        ∙ ap (Resumes parse_frames (b ++ more))
            (subst (λ n. Extends more n (next (b ++ more))) e (next-Extends more b))
        ∙ ih
        ∙ ap (λ r. then_parse r more) (sym (parse_frames_lem b ∙ ap (Resumes parse_frames b) e)))
      (λ b p bs e le ih.
        parse_frames_lem (b ++ more)
        ∙ ap (Resumes parse_frames (b ++ more))
            (subst (λ n. Extends more n (next (b ++ more))) e (next-Extends more b))
        ∙ ap (push p) ih
        ∙ ap (λ r. then_parse r more) (sym (parse_frames_lem b ∙ ap (Resumes parse_frames b) e)))
      (suc (length buf)) buf (omega arith)

-- Between chunks the parser holds back less than one frame of the greatest size, and every payload
-- that it hands on is within the limit.
pub parse_frames_bounds :
    (buf : List ℕ)
    → (length (parse_frames buf).rest < 4 + max_frame_len)
      × All (λ p. length p ≤ max_frame_len) (parse_frames buf).frames
parse_frames_bounds buf =
    parse_frames_ind
      (λ b.
        (length (parse_frames b).rest < 4 + max_frame_len)
        × All (λ p. length p ≤ max_frame_len) (parse_frames b).frames)
      (λ b e. rw (parse_frames_lem b, e) (subst (Progress (length b)) e (next-Progress b), tt))
      (λ b bs e ih. rw (parse_frames_lem b, e) ih)
      (λ b p bs e le ih. rw (parse_frames_lem b, e) (ih.0, (le, ih.1))) (suc (length buf)) buf
      (omega arith)
