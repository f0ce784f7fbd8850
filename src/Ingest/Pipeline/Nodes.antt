-- ===== src/Ingest/Pipeline/Nodes.antt =====
-- The nodes, their identities and the gateways, as src/ingest/pipeline.ts writes them: upsertNode,
-- and markGateway.
use hop_watch.Prelude.{
  ℕ, ◌+◌, String, Bool, true, false, Option, none, some, List, ◌==◌, if◌then◌else◌,
}
use hop_watch.Ingest.Pipeline.Statements.{coalesce, one_if, update_where, upsert, greatest_time}

-- The columns that the pipeline reads or writes.
pub record NodeRow : Type 0 where
  pub node_id : ℕ
  pub long_name : Option String
  pub short_name : Option String
  pub hw_model : Option String
  pub role : Option String
  pub public_key : Option (List ℕ)
  pub public_key_hex : Option String
  pub is_licensed : Option Bool
  pub firmware_version : Option String
  pub first_seen_at : Option ℕ
  pub last_seen_at : Option ℕ
  pub last_position_at : Option ℕ
  pub is_gateway : Bool
  pub spoof_flag_count : ℕ
  pub total_packet_count : ℕ
  pub total_reception_count : ℕ
  pub region : Option String
  pub modem_preset : Option String
  pub has_default_channel : Option Bool
  pub reported_local_nodes : Option ℕ
  pub radio_profile_at : Option ℕ

pub record GatewayRow : Type 0 where
  pub gateway_id : ℕ
  pub first_seen_at : ℕ
  pub last_seen_at : ℕ
  pub active : Bool
  pub broker_id : String

-- The event types of `node_identity_events`.
pub data IdentityField : Type 0 where
  long_name short_name hw_model role public_key firmware : IdentityField

pub record IdentityEvent : Type 0 where
  pub node_id : ℕ
  pub event_type : IdentityField
  pub old_value : Option String
  pub new_value : String
  pub observed_at : ℕ

-- A `spoof_pubkey` flag; its message and its evidence quote both keys.
pub record SpoofFlag : Type 0 where
  pub node_id : ℕ
  pub old_key : Option String
  pub new_key : String
  pub created_at : ℕ

pub record NodeTables : Type 0 where
  pub nodes : List NodeRow
  pub gateways : List GatewayRow
  pub identity_events : List IdentityEvent
  pub flags : List SpoofFlag

-- A row with the columns of an `INSERT`, the others at their defaults.
unfoldable pub fresh_node : ℕ → ℕ → ℕ → ℕ → NodeRow
fresh_node id at packets heard = record {
  node_id = id;
  long_name = none;
  short_name = none;
  hw_model = none;
  role = none;
  public_key = none;
  public_key_hex = none;
  is_licensed = none;
  firmware_version = none;
  first_seen_at = some at;
  last_seen_at = some at;
  last_position_at = none;
  is_gateway = false;
  spoof_flag_count = 0;
  total_packet_count = packets;
  total_reception_count = heard;
  region = none;
  modem_preset = none;
  has_default_channel = none;
  reported_local_nodes = none;
  radio_profile_at = none;
}

abbrev pub is_node_row : ℕ → NodeRow → Bool
is_node_row id r = r.node_id == id

-- `UPDATE nodes SET … WHERE node_id=?`.
unfoldable pub update_node : ℕ → (NodeRow → NodeRow) → NodeTables → NodeTables
update_node id patch t = record t { nodes = update_where (is_node_row id) patch t.nodes }

unfoldable pub upsert_node : ℕ → ℕ → Bool → Bool → NodeTables → NodeTables
unfolding fresh_node greatest_time
upsert_node id seen_at incr_packet incr_reception t = record t {
  nodes =
      upsert (is_node_row id)
        (λ r. record r {
          last_seen_at = greatest_time (coalesce r.last_seen_at (some seen_at)) (some seen_at);
          total_packet_count = r.total_packet_count + one_if incr_packet;
          total_reception_count = r.total_reception_count + one_if incr_reception;
        })
        (fresh_node id seen_at (one_if incr_packet) (one_if incr_reception)) t.nodes;
}

-- `INSERT IGNORE INTO nodes (node_id, first_seen_at, last_seen_at)`.
unfoldable pub stub_node : ℕ → ℕ → NodeTables → NodeTables
unfolding fresh_node
stub_node seen_at id t = record t {
  nodes = upsert (is_node_row id) (λ r. r) (fresh_node id seen_at 0 0) t.nodes;
}

unfoldable pub mark_gateway : ℕ → String → ℕ → NodeTables → NodeTables
unfolding update_node
mark_gateway id broker seen_at t =
    if id == 0
    then t
    else update_node id (λ r. record r { is_gateway = true })
        (record t {
          gateways =
              upsert (λ g. g.gateway_id == id)
                (λ g. record g { last_seen_at = seen_at; active = true; broker_id = broker })
                (record {
                  gateway_id = id;
                  first_seen_at = seen_at;
                  last_seen_at = seen_at;
                  active = true;
                  broker_id = broker;
                })
                t.gateways;
        })
