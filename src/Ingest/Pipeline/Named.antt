-- ===== src/Ingest/Pipeline/Named.antt =====
-- What src/ingest/pipeline.ts makes of a node's names.
use hop_watch.Prelude.{
  ℕ, ◌+◌, String, ◌≡◌, refl, sym, ap, subst, true, Option, none, some, List, [], ◌∷◌, str_eq,
  str_eq_iff, if-cases,
}
use mathlib.Core.Bool.{false≢true}
use hop_watch.Ingest.Pipeline.Statements.Laws.{find_row-update_where, find_row-hit}
use hop_watch.Ingest.Pipeline.Identity.{
  apply_identity, record_changes, claims_mute, is_spoof, set_identity, changes_of,
}
use hop_watch.Ingest.Pipeline.Statements.{find_row, null_if_blank, coalesce}
use hop_watch.Ingest.Pipeline.Envelope.{Identity}
use hop_watch.Ingest.Pipeline.Nodes.{
  NodeRow, NodeTables, IdentityField, is_node_row, update_node, fresh_node,
}

abbrev Names4 : Type 0
Names4 = Option String × Option String × Option String × Option String

abbrev names_of : NodeRow → Names4
names_of r = (r.long_name, r.short_name, r.hw_model, r.role)

-- The row of a node, with these names.
abbrev Called : ℕ → Names4 → NodeTables → Type 0
Called id names t =
    (r : NodeRow) × (find_row (is_node_row id) t.nodes ≡ some r) × (names_of r ≡ names)

record_changes-Called :
    (id at : ℕ) (cs : List (IdentityField × Option String × String)) (t : NodeTables)
    (names : Names4)
    → Called id names t
    → Called id names (record_changes id at cs t)
unfolding record_changes update_node
record_changes-Called id at [] t names h = h
record_changes-Called id at ((field, old, new) ∷ rest) t names (r, e, n) =
    record_changes-Called id at rest _ names (
      if-cases (Called id names) (is_spoof field old)
        (λ _. (
          record r { spoof_flag_count = r.spoof_flag_count + 1 },
          find_row-update_where (is_node_row id)
              (λ x. record x { spoof_flag_count = x.spoof_flag_count + 1 }) t.nodes e
              (find_row-hit (is_node_row id) t.nodes e),
          n,
        ))
        (λ _. (r, e, n)))

claims_mute_named :
    (role : Option String)
    → claims_mute role ≡ true
    → (old : Option String) → coalesce (null_if_blank role) old ≡ role
unfolding null_if_blank claims_mute
claims_mute_named none h old = absurd (false≢true h)
claims_mute_named (some s) h old =
    if-cases (λ (o : Option String). coalesce o old ≡ some s) (str_eq s "")
      (λ blank.
        absurd
          (false≢true (subst (λ x. claims_mute (some x) ≡ true) ((str_eq_iff s "").0 blank) h)))
      (λ _. refl)

-- Of a node that is known, an identity sets each name that is not blank, and leaves it otherwise;
-- the update for muted clients changes nothing of that.
pub apply_identity-names :
    (id at : ℕ) (info : Identity) (t : NodeTables) {r : NodeRow}
    → find_row (is_node_row id) t.nodes ≡ some r
    → (r' : NodeRow) × (find_row (is_node_row id) (apply_identity id at info t).nodes ≡ some r')
      × (r'.long_name ≡ coalesce (null_if_blank info.long_name) r.long_name)
      × (r'.short_name ≡ coalesce (null_if_blank info.short_name) r.short_name)
      × (r'.hw_model ≡ coalesce (null_if_blank info.hw_model) r.hw_model)
      × (r'.role ≡ coalesce (null_if_blank info.role) r.role)
unfolding apply_identity update_node set_identity
apply_identity-names id at info t {r} e =
    let cur : NodeRow = elim (find_row (is_node_row id) t.nodes) [
      | none ↦ fresh_node id at 0 0
      | some x ↦ x
    ] in
    let (r1, e1, n1) =
      record_changes-Called id at (changes_of cur info) t (names_of r) (r, e, refl) in
    let mid = record_changes id at (changes_of cur info) t in
    let hit = find_row-hit (is_node_row id) mid.nodes e1 in
    let set = find_row-update_where (is_node_row id) (set_identity info) mid.nodes e1 hit in
    let long = ap (λ (n : Names4). coalesce (null_if_blank info.long_name) n.0) n1 in
    let short = ap (λ (n : Names4). coalesce (null_if_blank info.short_name) n.1) n1 in
    let model = ap (λ (n : Names4). coalesce (null_if_blank info.hw_model) n.2) n1 in
    let duty = ap (λ (n : Names4). coalesce (null_if_blank info.role) n.3) n1 in
    if-cases
      (λ (u : NodeTables).
        (x : NodeRow) × (find_row (is_node_row id) u.nodes ≡ some x)
        × (x.long_name ≡ coalesce (null_if_blank info.long_name) r.long_name)
        × (x.short_name ≡ coalesce (null_if_blank info.short_name) r.short_name)
        × (x.hw_model ≡ coalesce (null_if_blank info.hw_model) r.hw_model)
        × (x.role ≡ coalesce (null_if_blank info.role) r.role))
      (claims_mute info.role)
      (λ mute. (
        record (set_identity info r1) { role = info.role },
        find_row-update_where (is_node_row id) (λ x. record x { role = info.role })
            (update_node id (set_identity info) mid).nodes set hit,
        long,
        short,
        model,
        sym (claims_mute_named info.role mute r.role),
      ))
      (λ _. (set_identity info r1, set, long, short, model, duty))
