-- ===== src/Ingest/Pipeline/Spoof.antt =====
-- When src/ingest/pipeline.ts flags a node as spoofed.
use hop_watch.Prelude.{
  ℕ, String, ◌≡◌, refl, sym, ap, ◌∙◌, Bool, true, false, not, ◌&&◌, Option, none, some, List, [],
  ◌∷◌, ◌++◌, arith, str_eq, if◌then◌else◌, if-cases,
}
use mathlib.Core.List.{append_assoc, append-nil}
use hop_watch.Ingest.Pipeline.Statements.{find_row}
use hop_watch.Ingest.Pipeline.Identity.{
  check, apply_identity, record_changes, is_spoof, key_hex, changes_of, is_same_text, claims_mute,
}
use hop_watch.Ingest.Pipeline.Envelope.{Identity}
use hop_watch.Ingest.Pipeline.Nodes.{
  NodeRow, NodeTables, IdentityField, long_name, short_name, hw_model, role, public_key, firmware,
  SpoofFlag, update_node, is_node_row, fresh_node,
}

-- A key was known, the new one is there, and they differ.
abbrev pub key_changed : Option String → Option String → Bool
key_changed (some old) (some new) =
    not (str_eq old "") && (not (str_eq new "") && not (str_eq new old))
key_changed _ _ = false

abbrev pub flag_of : ℕ → ℕ → Option String → Option String → List SpoofFlag
flag_of id at old (some new) =
    record { node_id = id; old_key = old; new_key = new; created_at = at } ∷ []
flag_of id at old none = []

-- The flags that a list of changes raises.
spoof_flags : ℕ → ℕ → List (IdentityField × Option String × String) → List SpoofFlag
spoof_flags id at [] = []
spoof_flags id at ((field, old, new) ∷ rest) =
    (if is_spoof field old then flag_of id at old (some new) else []) ++ spoof_flags id at rest

flags_step :
    (b : Bool) (x y : NodeTables) (fs more : List SpoofFlag)
    → x.flags ≡ fs ++ more
    → y.flags ≡ fs
    → (if b then x else y).flags ≡ fs ++ (if b then more else [])
flags_step true x y fs more on off = on
flags_step false x y fs more on off = off ∙ sym (append-nil fs)

record_changes-flags :
    (id at : ℕ) (cs : List (IdentityField × Option String × String)) (t : NodeTables)
    → (record_changes id at cs t).flags ≡ t.flags ++ spoof_flags id at cs
unfolding record_changes spoof_flags update_node
record_changes-flags id at [] t = sym (append-nil t.flags)
record_changes-flags id at ((field, old, new) ∷ rest) t =
    record_changes-flags id at rest _
    ∙ ap (λ fs. fs ++ spoof_flags id at rest)
        (flags_step (is_spoof field old) _ _ t.flags (flag_of id at old (some new)) refl refl)
    ∙ append_assoc t.flags (if is_spoof field old then flag_of id at old (some new) else [])
        (spoof_flags id at rest)

spoof_flags-append :
    (id at : ℕ) (xs ys : List (IdentityField × Option String × String))
    → spoof_flags id at (xs ++ ys) ≡ spoof_flags id at xs ++ spoof_flags id at ys
unfolding spoof_flags
spoof_flags-append id at [] ys = refl
spoof_flags-append id at ((field, old, new) ∷ rest) ys =
    ap ((if is_spoof field old then flag_of id at old (some new) else []) ++◌)
      (spoof_flags-append id at rest ys)
    ∙ sym (
        append_assoc (if is_spoof field old then flag_of id at old (some new) else [])
          (spoof_flags id at rest) (spoof_flags id at ys))

-- Only a changed key raises one.
check_quiet :
    (id at : ℕ) (field : IdentityField) (old new : Option String)
    → ((o : Option String) → is_spoof field o ≡ false)
    → spoof_flags id at (check field old new) ≡ []
unfolding check spoof_flags
check_quiet id at field old none quiet = refl
check_quiet id at field old (some v) quiet =
    if-cases (λ cs. spoof_flags id at cs ≡ []) (not (str_eq v "") && not (is_same_text old v))
      (λ _. rw (quiet old) refl) (λ _. refl)

check_key :
    (id at : ℕ) (old new : Option String)
    → spoof_flags id at (check public_key old new)
      ≡ (if key_changed old new then flag_of id at old new else [])
unfolding check spoof_flags is_spoof is_same_text
check_key id at none none = refl
check_key id at (some o) none = refl
check_key id at none (some v) =
    if-cases (λ cs. spoof_flags id at cs ≡ []) (not (str_eq v "") && true) (λ _. refl) (λ _. refl)
check_key id at (some o) (some v) = ground arith

abbrev pub known_key : Option NodeRow → Option String
known_key none = none
known_key (some r) = r.public_key_hex

changes_of-flags :
    (id at : ℕ) (cur : NodeRow) (info : Identity)
    → let old = cur.public_key_hex in
      let new = key_hex info.public_key in
      spoof_flags id at (changes_of cur info)
      ≡ (if key_changed old new then flag_of id at old new else [])
unfolding changes_of is_spoof
changes_of-flags id at cur info =
    let quiet =
      λ (f : IdentityField) (o n : Option String) (q : (x : Option String) → is_spoof f x ≡ false).
        check_quiet id at f o n q in
    simp (
      spoof_flags-append,
      quiet long_name cur.long_name info.long_name (λ _. refl),
      quiet short_name cur.short_name info.short_name (λ _. refl),
      quiet hw_model cur.hw_model info.hw_model (λ _. refl),
      quiet role cur.role info.role (λ _. refl),
      quiet firmware cur.firmware_version info.firmware_version (λ _. refl),
      check_key,
      append-nil,
    )

-- An identity adds a flag exactly when the node's key was known and not blank, the identity has a key
-- that is not blank, and the two differ; it removes none.
pub apply_identity-flags :
    (id at : ℕ) (info : Identity) (t : NodeTables)
    → let old = known_key (find_row (is_node_row id) t.nodes) in
      let new = key_hex info.public_key in
      (apply_identity id at info t).flags
      ≡ t.flags ++ (if key_changed old new then flag_of id at old new else [])
unfolding apply_identity update_node fresh_node
apply_identity-flags id at info t =
    if-cases (λ (u : NodeTables). u.flags ≡ t.flags ++ raised (find_row (is_node_row id) t.nodes))
      (claims_mute info.role) (λ _. all_flags (find_row (is_node_row id) t.nodes))
      (λ _. all_flags (find_row (is_node_row id) t.nodes))
  where
    raised : Option NodeRow → List SpoofFlag
    raised o =
        if key_changed (known_key o) (key_hex info.public_key)
        then flag_of id at (known_key o) (key_hex info.public_key)
        else []

    all_flags :
        (o : Option NodeRow)
        → (record_changes id at
            (changes_of (elim o [ none ↦ fresh_node id at 0 0 | some r ↦ r ]) info)
            t).flags
          ≡ t.flags ++ raised o
    all_flags none =
        record_changes-flags id at (changes_of (fresh_node id at 0 0) info) t
        ∙ ap (t.flags ++◌) (changes_of-flags id at (fresh_node id at 0 0) info)
    all_flags (some r) =
        record_changes-flags id at (changes_of r info) t
        ∙ ap (t.flags ++◌) (changes_of-flags id at r info)
