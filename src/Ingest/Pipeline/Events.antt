-- ===== src/Ingest/Pipeline/Events.antt =====
-- The routes and the positions that src/ingest/pipeline.ts stores, as tables with a row to a packet at
-- most.
use hop_watch.Prelude.{
  ℕ, ◌≡◌, refl, sym, ap, Bool, ◌||◌, Option, none, some, List, [], ◌∷◌, ◌++◌, str_eq, ◌==◌,
  if-cases,
}
use hop_watch.Ingest.Pipeline.Written.{apply_items-WritesOnce}
use hop_watch.Ingest.Pipeline.Tally.{IsKeyed}
use hop_watch.Ingest.Pipeline.Apply.{commit_chunk, BatchItem, apply_items}
use hop_watch.Ingest.Pipeline.Db.{IngestDb, LiveEvt, insert_live_events}
use hop_watch.Ingest.Pipeline.Nodes.{NodeTables}
use hop_watch.Ingest.Pipeline.Steps.{backfill_channel}
use hop_watch.Ingest.Pipeline.Once.{EventTable, WritesOnce}
use hop_watch.Ingest.Pipeline.Decoded.{write_decoded, link_event_of, write_position, is_negative}
use hop_watch.Ingest.Pipeline.Side.{Source, SideTables, Written, PositionEvent, LinkEvent}
use hop_watch.Ingest.Pipeline.Envelope.{
  NormalizedEnvelope, IngestMeta, ParsedPayload, position, nodeinfo, telemetry, text, traceroute,
  sensor, keyverification, routing, neighborinfo, mapreport, raw,
}

-- What the payload of a packet is as a row of `link_events`.
unfoldable pub route_of : Source → ParsedPayload → Option LinkEvent
route_of s (traceroute tr) = some (link_event_of s tr)
route_of s _ = none

unfoldable pub position_of : Source → ParsedPayload → Option PositionEvent
position_of s (position fix) =
    some (record {
      node_id = s.node_id;
      fix = fix;
      observed_at = s.at;
      source_packet_id = s.packet_id;
    })
position_of s _ = none

-- A branch that writes neither table.
abbrev pub Neither : SideTables → Written → Type 0
Neither t w = (w.1.link_events ≡ t.link_events) × (w.1.position_events ≡ t.position_events)

pub write_decoded_routes :
    (s : Source) (p : ParsedPayload) (n : NodeTables) (t : SideTables)
    → route_of s p ≡ none
    → (write_decoded s p (n, t)).1.link_events ≡ t.link_events
unfolding write_decoded route_of
write_decoded_routes s (traceroute tr) n t e = absurd (cc)
write_decoded_routes s (position fix) n t e = refl
write_decoded_routes s (nodeinfo i) n t e = refl
write_decoded_routes s (telemetry m) n t e = refl
write_decoded_routes s (text b) n t e = refl
write_decoded_routes s (sensor k b) n t e = refl
write_decoded_routes s (keyverification nonce stage) n t e =
    if-cases (λ (w : Written). w.1.link_events ≡ t.link_events) (nonce == 0) (λ _. refl) (λ _. refl)
write_decoded_routes s (routing a) n t e =
    if-cases (λ (w : Written). w.1.link_events ≡ t.link_events)
      (a.request_id == 0 || is_negative a.error_code) (λ _. refl) (λ _. refl)
write_decoded_routes s (neighborinfo node nbs) n t e = refl
write_decoded_routes s (mapreport m) n t e = refl
write_decoded_routes s raw n t e = refl

pub write_decoded_positions :
    (s : Source) (p : ParsedPayload) (n : NodeTables) (t : SideTables)
    → position_of s p ≡ none
    → (write_decoded s p (n, t)).1.position_events ≡ t.position_events
unfolding write_decoded position_of
write_decoded_positions s (traceroute tr) n t e = refl
write_decoded_positions s (position fix) n t e = absurd (cc)
write_decoded_positions s (nodeinfo i) n t e = refl
write_decoded_positions s (telemetry m) n t e = refl
write_decoded_positions s (text b) n t e = refl
write_decoded_positions s (sensor k b) n t e = refl
write_decoded_positions s (keyverification nonce stage) n t e =
    if-cases (λ (w : Written). w.1.position_events ≡ t.position_events) (nonce == 0) (λ _. refl)
      (λ _. refl)
write_decoded_positions s (routing a) n t e =
    if-cases (λ (w : Written). w.1.position_events ≡ t.position_events)
      (a.request_id == 0 || is_negative a.error_code) (λ _. refl) (λ _. refl)
write_decoded_positions s (neighborinfo node nbs) n t e = refl
write_decoded_positions s (mapreport m) n t e = refl
write_decoded_positions s raw n t e = refl

pub write_decoded_route :
    (s : Source) (p : ParsedPayload) (n : NodeTables) (t : SideTables) {r : LinkEvent}
    → route_of s p ≡ some r
    → (write_decoded s p (n, t)).1.link_events ≡ t.link_events ++ r ∷ []
unfolding write_decoded route_of
write_decoded_route s (traceroute tr) n t e =
    ap (λ o. t.link_events ++ elim o [ none ↦ [] | some r ↦ r ∷ [] ]) e
write_decoded_route s (position fix) n t e = absurd (cc)
write_decoded_route s _ n t e = absurd (cc)

pub write_decoded_position :
    (s : Source) (p : ParsedPayload) (n : NodeTables) (t : SideTables) {r : PositionEvent}
    → position_of s p ≡ some r
    → (write_decoded s p (n, t)).1.position_events ≡ t.position_events ++ r ∷ []
unfolding write_decoded position_of write_position
write_decoded_position s (position fix) n t e =
    ap (λ o. t.position_events ++ elim o [ none ↦ [] | some r ↦ r ∷ [] ]) e
write_decoded_position s (traceroute tr) n t e = absurd (cc)
write_decoded_position s _ n t e = absurd (cc)

pub route_source :
    (s : Source) (p : ParsedPayload) {r : LinkEvent}
    → route_of s p ≡ some r
    → r.source_packet_id ≡ s.packet_id
unfolding route_of link_event_of
route_source s (traceroute tr) e =
    ap (λ o. elim o [ none ↦ 0 | some r ↦ r.source_packet_id ]) (sym e)
route_source s (position fix) e = absurd (cc)
route_source s _ e = absurd (cc)

pub position_source :
    (s : Source) (p : ParsedPayload) {r : PositionEvent}
    → position_of s p ≡ some r
    → r.source_packet_id ≡ s.packet_id
unfolding position_of
position_source s (position fix) e =
    ap (λ o. elim o [ none ↦ 0 | some r ↦ r.source_packet_id ]) (sym e)
position_source s (traceroute tr) e = absurd (cc)
position_source s _ e = absurd (cc)

pub backfill_events :
    (meta : IngestMeta) (env : NormalizedEnvelope) (now id : ℕ) (new : Bool) (db : IngestDb)
    → Neither db.side (db.nodes, (backfill_channel meta env now id new db).side)
unfolding backfill_channel
backfill_events meta env now id new db =
    if-cases (λ (d : IngestDb). Neither db.side (db.nodes, d.side))
      (new || str_eq env.channel_id "") (λ _. (refl, refl)) (λ _. (refl, refl))

abbrev pub routes : EventTable LinkEvent
routes = record {
  events = λ t. t.link_events;
  source_packet = λ r. r.source_packet_id;
  write = route_of;
  write_source = λ s p {r} e. route_source s p e;
  write_none = write_decoded_routes;
  write_some = λ s p n t {r} e. write_decoded_route s p n t e;
  backfill = λ meta env now id new db. (backfill_events meta env now id new db).0;
}

abbrev pub position_fixes : EventTable PositionEvent
position_fixes = record {
  events = λ t. t.position_events;
  source_packet = λ r. r.source_packet_id;
  write = position_of;
  write_source = λ s p {r} e. position_source s p e;
  write_none = write_decoded_positions;
  write_some = λ s p n t {r} e. write_decoded_position s p n t e;
  backfill = λ meta env now id new db. (backfill_events meta env now id new db).1;
}

-- Whatever copies of packets a chunk holds, and whether it commits, no packet has two routes or two
-- positions, and one whose side tables are not written has none, and the routes and positions name
-- packets with ids that have been given out. All this is so if it was so before, and if the
-- packets' ids were distinct and among those given out.
pub commit_chunk-WritesOnce :
    (unchanged : ℕ) (commits : Bool) (items : List BatchItem) (db : IngestDb)
    → IsKeyed db.tables
    → WritesOnce routes db.tables db.side
    → WritesOnce position_fixes db.tables db.side
    → let d = commit_chunk unchanged commits items db in
      WritesOnce routes d.tables d.side × WritesOnce position_fixes d.tables d.side
unfolding commit_chunk
commit_chunk-WritesOnce unchanged commits items db h r p =
    if-cases
      (λ (d : IngestDb).
        WritesOnce routes d.tables d.side × WritesOnce position_fixes d.tables d.side)
      commits
      (λ _.
        flushed (apply_items unchanged items (db, [])).1 _
          (apply_items-WritesOnce routes unchanged items db [] h r)
          (apply_items-WritesOnce position_fixes unchanged items db [] h p))
      (λ _. (r, p))
  where
    flushed :
        (evts : List LiveEvt) (d : IngestDb)
        → WritesOnce routes d.tables d.side
        → WritesOnce position_fixes d.tables d.side
        → WritesOnce routes (insert_live_events evts d).tables (insert_live_events evts d).side
          × WritesOnce position_fixes
              (insert_live_events evts d).tables
              (insert_live_events evts d).side
    flushed [] d r p = unfold insert_live_events in (r, p)
    flushed (e ∷ es) d r p = unfold insert_live_events in (r, p)
