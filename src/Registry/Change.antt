-- ===== src/Registry/Change.antt =====
-- What the operations on streams do to the registry, with no locks, loops or peer connections: the
-- specification of the methods of Node.
use webrtc_cdn.Prelude.{
  [], ◌∷◌, Map, ℕ, Bool, true, false, Option, none, some, Str, if◌then◌else◌, lookup, insert,
  delete, str_key, nat_key,
}
use webrtc_cdn.Machine.State.{WebrtcCdnNode, WrtcSource, update}
use webrtc_cdn.Messages.Client.{forget_source}
use webrtc_cdn.Peer.Api.{is_some}
use webrtc_cdn.Node.Sinks.{sinks_of}
use webrtc_cdn.Registry.{Registry, SinkName}

abbrev pub on_node : (WebrtcCdnNode → WebrtcCdnNode) → Registry → Registry
on_node f r = record r { node = f r.node }

abbrev pub without_source : Str → Registry → Registry
without_source sid = on_node (λ n. record n { sources = delete sid n.sources })

abbrev pub without_senders : Str → Registry → Registry
without_senders sid = on_node (λ n. record n { senders = delete sid n.senders })

abbrev pub without_relay : Str → Registry → Registry
without_relay sid = on_node (λ n. record n { relays = delete sid n.relays })

abbrev pub with_source : Str → ℕ → Registry → Registry
with_source sid p = on_node (λ n. record n { sources = insert sid p n.sources })

-- The stream has no source, and nobody is sent it.
abbrev pub forget_stream : Str → Registry → Registry
forget_stream sid r = without_senders sid (without_source sid r)

abbrev pub put_source : ℕ → WrtcSource → Registry → Registry
put_source p v r = record r { source_at = update r.source_at p v }

-- The handler of a source forgets its request.
abbrev pub forget_request : WrtcSource → Registry → Registry
forget_request v r = record r {
  handler_at =
      update r.handler_at v.connection (forget_source v.request_id (r.handler_at v.connection));
}

-- `close` of a source, as the node, the handler and the source itself see it.
unfoldable pub close_source : ℕ → Bool → Bool → Registry → Registry
close_source p notify deregister r =
    let v = r.source_at p in
    let marked = put_source p (record v { closed = true; peer_connection = none }) r in
    let told = if notify then forget_request v marked else marked in
    if v.closed then r else if deregister then forget_stream v.sid told else told

-- `onClose` of a source.
unfoldable pub lose_source : ℕ → Registry → Registry
lose_source p r =
    let v = r.source_at p in
    if v.closed
    then r
    else forget_stream v.sid (forget_request v (put_source p (record v { closed = true }) r))

-- The source of a stream, if there is one, closes for another one.
abbrev pub close_old : Option ℕ → Registry → Registry
close_old none r = r
close_old (some old) r = close_source old true false r

-- `registerSource`: the old source of the stream closes, the new one takes its place, and nobody is
-- sent the old one any more.
unfoldable pub replace_source : ℕ → Registry → Registry
replace_source p r =
    let sid = (r.source_at p).sid in
    let closed = close_old (lookup sid r.node.sources) r in
    without_senders sid (without_relay sid (with_source sid p closed))

abbrev pub put_sinks : Map Str (Map ℕ ℕ) → Registry → Registry
put_sinks m = on_node (λ n. record n { sinks = m })

-- `registerSink`: the sink is one of those of its stream.
unfoldable pub with_sink : ℕ → Registry → Registry
with_sink p r =
    let k = r.sink_name p in
    put_sinks (insert k.sid (insert k.sink_id p (sinks_of k.sid r.node)) r.node.sinks) r

-- A stream with these sinks left; with none, its relay goes too.
abbrev pub keep_sinks : Str → Map ℕ ℕ → Registry → Registry
keep_sinks sid [] r = without_relay sid (put_sinks (delete sid r.node.sinks) r)
keep_sinks sid (e ∷ g) r = put_sinks (insert sid (e ∷ g) r.node.sinks) r

abbrev pub leave_group : SinkName → Option (Map ℕ ℕ) → Registry → Registry
leave_group k none r = r
leave_group k (some g) r =
    if is_some (lookup k.sink_id g) then keep_sinks k.sid (delete k.sink_id g) r else r

-- `removeSink`
unfoldable pub without_sink : ℕ → Registry → Registry
without_sink p r = let k = r.sink_name p in leave_group k (lookup k.sid r.node.sinks) r
