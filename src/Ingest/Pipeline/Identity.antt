-- ===== src/Ingest/Pipeline/Identity.antt =====
-- A node's identity against what is known of it: applyIdentity of src/ingest/pipeline.ts.
use hop_watch.Prelude.{
  ℕ, ◌+◌, ◌-◌, ◌/◌, ◌%◌, String, Bool, true, false, not, ◌&&◌, ◌||◌, Option, none, some, List, [],
  ◌∷◌, ◌++◌, map, str_eq, leb, ◌==◌, if◌then◌else◌,
}
use Prim.Native.Char.{code}
use Prim.Native.String.{◌++◌ as str_append, slice}
use hop_watch.Ingest.Pipeline.Envelope.{Identity}
use hop_watch.Ingest.Pipeline.Statements.{coalesce, find_row, null_if_blank}
use hop_watch.Ingest.Pipeline.Nodes.{
  NodeRow, NodeTables, IdentityField, long_name, short_name, hw_model, role, public_key, firmware,
  is_node_row, fresh_node, update_node,
}

-- `Buffer.from(key).toString("hex")`.
hex_digit : ℕ → String
hex_digit n = slice "0123456789abcdef" n (n + 1)

unfoldable pub to_hex : List ℕ → String
unfolding hex_digit
to_hex [] = ""
to_hex (b ∷ bs) = str_append (str_append (hex_digit (b / 16)) (hex_digit (b % 16))) (to_hex bs)

unfoldable pub key_hex : Option (List ℕ) → Option String
unfolding to_hex
key_hex none = none
key_hex (some k) = some (to_hex k)

unfoldable pub is_same_text : Option String → String → Bool
is_same_text none v = false
is_same_text (some o) v = str_eq v o

-- What `check` adds to `changes`.
unfoldable pub check :
    IdentityField → Option String → Option String → List (IdentityField × Option String × String)
unfolding is_same_text
check field old none = []
check field old (some v) =
    if not (str_eq v "") && not (is_same_text old v) then (field, old, v) ∷ [] else []

unfoldable pub changes_of : NodeRow → Identity → List (IdentityField × Option String × String)
unfolding check key_hex
changes_of cur info =
    check long_name cur.long_name info.long_name
    ++ (check short_name cur.short_name info.short_name
        ++ (check hw_model cur.hw_model info.hw_model
            ++ (check role cur.role info.role
                ++ (check public_key cur.public_key_hex (key_hex info.public_key)
                    ++ check firmware cur.firmware_version info.firmware_version))))

-- `type === "public_key" && oldV`.
unfoldable pub is_spoof : IdentityField → Option String → Bool
is_spoof public_key (some o) = not (str_eq o "")
is_spoof _ _ = false

-- The loop over the changes.
unfoldable pub record_changes :
    ℕ → ℕ → List (IdentityField × Option String × String) → NodeTables → NodeTables
unfolding is_spoof update_node
record_changes id at [] t = t
record_changes id at ((field, old, new) ∷ rest) t =
    let t' : NodeTables = record t {
      identity_events =
          t.identity_events
          ++ record {
            node_id = id;
            event_type = field;
            old_value = old;
            new_value = new;
            observed_at = at;
          }
            ∷ [];
    } in
    let t'' : NodeTables =
      if is_spoof field old
      then update_node id (λ r. record r { spoof_flag_count = r.spoof_flag_count + 1 })
          (record t' {
            flags =
                t'.flags
                ++ record { node_id = id; old_key = old; new_key = new; created_at = at } ∷ [];
          })
      else t' in
    record_changes id at rest t''

unfoldable pub set_identity : Identity → NodeRow → NodeRow
unfolding null_if_blank key_hex
set_identity info r = record r {
  long_name = coalesce (null_if_blank info.long_name) r.long_name;
  short_name = coalesce (null_if_blank info.short_name) r.short_name;
  hw_model = coalesce (null_if_blank info.hw_model) r.hw_model;
  role = coalesce (null_if_blank info.role) r.role;
  public_key = coalesce info.public_key r.public_key;
  public_key_hex = coalesce (key_hex info.public_key) r.public_key_hex;
  is_licensed = coalesce info.is_licensed r.is_licensed;
}

-- `role.toUpperCase().includes("CLIENT_MUTE")`, for the letters of ASCII.
codes : String → List ℕ
codes String.[] = []
codes (String.◌∷◌ c s) = code c ∷ codes s

to_upper : ℕ → ℕ
to_upper c = if leb 97 c && leb c 122 then c - 32 else c

begins_with : List ℕ → List ℕ → Bool
begins_with [] s = true
begins_with (x ∷ xs) [] = false
begins_with (x ∷ xs) (y ∷ s) = x == y && begins_with xs s

includes : List ℕ → List ℕ → Bool
unfolding begins_with
includes w [] = begins_with w []
includes w (y ∷ s) = begins_with w (y ∷ s) || includes w s

unfoldable pub claims_mute : Option String → Bool
unfolding codes to_upper includes
claims_mute none = false
claims_mute (some r) = includes (codes "CLIENT_MUTE") (map to_upper (codes r))

unfoldable pub apply_identity : ℕ → ℕ → Identity → NodeTables → NodeTables
unfolding fresh_node changes_of record_changes update_node set_identity claims_mute
apply_identity id at info t =
    let cur : NodeRow = elim (find_row (is_node_row id) t.nodes) [
      | none ↦ fresh_node id at 0 0
      | some r ↦ r
    ] in
    let t' = update_node id (set_identity info) (record_changes id at (changes_of cur info) t) in
    if claims_mute info.role then update_node id (λ r. record r { role = info.role }) t' else t'
