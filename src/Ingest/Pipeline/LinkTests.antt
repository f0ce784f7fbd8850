-- ===== src/Ingest/Pipeline/LinkTests.antt =====
-- Links and identities of single nodes, and the theorems on them at concrete values.
use hop_watch.Prelude.{◌≡◌, refl, false, none, some, [], ◌∷◌, ◌++◌, if◌then◌else◌, length, All}
use hop_watch.Ingest.Pipeline.Named.{apply_identity-names}
use hop_watch.Ingest.Pipeline.Spoof.{key_changed, known_key, flag_of, apply_identity-flags}
use hop_watch.Ingest.Pipeline.Identity.{apply_identity, key_hex}
use hop_watch.Ingest.Pipeline.Linked.{
  IsLink, upsert_link-IsLink, SameDirect, upsert_link-SameDirect,
}
use hop_watch.Ingest.Pipeline.Statements.{find_row, coalesce, null_if_blank}
use hop_watch.Prelude.Int.{pos, negsuc}
use hop_watch.Meshtastic.Classify.{rf_direct, rf_relayed}
use hop_watch.Ingest.Pipeline.Envelope.{Identity}
use hop_watch.Ingest.Pipeline.Nodes.{NodeRow, NodeTables, is_node_row, update_node}
use hop_watch.Ingest.Pipeline.Links.{
  Heard, LinkRow, is_direct_class, upsert_link, link_values, is_link,
}

abbrev direct_heard : Heard
direct_heard = record {
  gateway_id = 1;
  node_id = 5;
  cls = rf_direct;
  rssi = some (negsuc 79);
  snr = some (pos 6);
  relay = none;
  at = 10;
}

abbrev relay_heard : Heard
relay_heard = record {
  gateway_id = 1;
  node_id = 5;
  cls = rf_relayed;
  rssi = some (negsuc 99);
  snr = none;
  relay = some 3;
  at = 20;
}

upsert_link-IsLink_example : All IsLink (upsert_link relay_heard (upsert_link direct_heard []))
upsert_link-IsLink_example =
    upsert_link-IsLink relay_heard (upsert_link direct_heard [])
      (upsert_link-IsLink direct_heard [] tt)

relay_heard-is_direct_class : is_direct_class relay_heard.cls ≡ false
unfolding is_direct_class
relay_heard-is_direct_class = refl

first_link : find_row (is_link 1 5) (upsert_link direct_heard []) ≡ some (link_values direct_heard)
unfolding upsert_link link_values
first_link = refl

upsert_link-SameDirect_example :
    (r : LinkRow) × (find_row (is_link 1 5) (upsert_link relay_heard (upsert_link direct_heard []))
      ≡ some r)
    × SameDirect r (link_values direct_heard)
upsert_link-SameDirect_example =
    upsert_link-SameDirect relay_heard (upsert_link direct_heard []) relay_heard-is_direct_class
      first_link

abbrev station : NodeRow
station = record {
  node_id = 5;
  long_name = some "Hilltop";
  short_name = none;
  hw_model = none;
  role = some "CLIENT";
  public_key = some (171 ∷ []);
  public_key_hex = some "ab";
  is_licensed = none;
  firmware_version = none;
  first_seen_at = none;
  last_seen_at = none;
  last_position_at = none;
  is_gateway = false;
  spoof_flag_count = 0;
  total_packet_count = 0;
  total_reception_count = 0;
  region = none;
  modem_preset = none;
  has_default_channel = none;
  reported_local_nodes = none;
  radio_profile_at = none;
}

abbrev known : NodeTables
known = record { nodes = station ∷ []; gateways = []; identity_events = []; flags = [] }

-- A blank name, and another key.
abbrev impostor : Identity
impostor = record {
  long_name = some "";
  short_name = some "HT";
  hw_model = none;
  role = some "client_mute";
  public_key = some (205 ∷ []);
  is_licensed = none;
  firmware_version = none;
}

flagged : length (apply_identity 5 30 impostor known).flags ≡ 1
unfolding apply_identity update_node
flagged = refl

apply_identity-flags_example :
    (apply_identity 5 30 impostor known).flags
    ≡ known.flags
      ++ (if key_changed
            (known_key (find_row (is_node_row 5) known.nodes))
            (key_hex impostor.public_key)
          then flag_of 5 30
              (known_key (find_row (is_node_row 5) known.nodes))
              (key_hex impostor.public_key)
          else [])
apply_identity-flags_example = apply_identity-flags 5 30 impostor known

apply_identity-names_example :
    (r' : NodeRow) × (find_row (is_node_row 5) (apply_identity 5 30 impostor known).nodes ≡ some r')
    × (r'.long_name ≡ coalesce (null_if_blank impostor.long_name) station.long_name)
    × (r'.short_name ≡ coalesce (null_if_blank impostor.short_name) station.short_name)
    × (r'.hw_model ≡ coalesce (null_if_blank impostor.hw_model) station.hw_model)
    × (r'.role ≡ coalesce (null_if_blank impostor.role) station.role)
apply_identity-names_example = apply_identity-names 5 30 impostor known refl
