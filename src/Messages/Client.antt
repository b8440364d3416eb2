-- ===== src/Messages/Client.antt =====
-- The `send…` methods of `Connection_Handler`. A handler is named by its pointer.
use webrtc_cdn.Prelude.{ℕ, ◌+◌, ◌-◌, ◌%◌, ◌^◌, [], Str, codes, insert, delete, str_key}
use webrtc_cdn.Signaling.{SignalingMessage}
use webrtc_cdn.Machine.State.{ConnectionHandler, to_client, emit, set_handler}
use webrtc_cdn.Machine.Op.{Op, handler_status, locked, change, ◌>>◌}

-- `REQUEST_TYPE_PUBLISH` and `REQUEST_TYPE_PLAY`
abbrev pub request_type_publish : ℕ
request_type_publish = 1

abbrev pub request_type_play : ℕ
request_type_play = 2

-- `c++` and `c--` on a uint32.
abbrev pub inc32 : ℕ → ℕ
inc32 c = (c + 1) % 2 ^ 32

abbrev pub dec32 : ℕ → ℕ
dec32 c = (c + 2 ^ 32 - 1) % 2 ^ 32

-- `send`: the text written is `serialize` of the message.
abbrev pub send : ℕ → SignalingMessage → Op
send h msg = change (emit (to_client h msg))

unfoldable pub error_message : Str → Str → Str → SignalingMessage
error_message code err_msg request_id = record {
  method = codes "ERROR";
  params =
      insert (codes "Request-ID") request_id
        (insert (codes "Error-Message") err_msg (insert (codes "Error-Code") code []));
  body = [];
}

unfoldable pub send_error_message : ℕ → Str → Str → Str → Op
unfolding error_message
send_error_message h code err_msg request_id = send h (error_message code err_msg request_id)

abbrev request_message : Str → Str → SignalingMessage
request_message method request_id = record {
  method = method;
  params = insert (codes "Request-ID") request_id [];
  body = [];
}

unfoldable pub ok_message : Str → SignalingMessage
ok_message = request_message (codes "OK")

unfoldable pub send_ok_message : ℕ → Str → Op
unfolding ok_message
send_ok_message h request_id = send h (ok_message request_id)

unfoldable pub standby_message : Str → SignalingMessage
standby_message = request_message (codes "STANDBY")

unfoldable pub send_standby_message : ℕ → Str → Op
unfolding standby_message
send_standby_message h request_id = send h (standby_message request_id)

abbrev stream_message : Str → Str → Str → Str → SignalingMessage
stream_message method req_id sid body = record {
  method = method;
  params = insert (codes "Stream-ID") sid (insert (codes "Request-ID") req_id []);
  body = body;
}

unfoldable pub send_offer : ℕ → Str → Str → Str → Op
send_offer h req_id sid offer = send h (stream_message (codes "OFFER") req_id sid offer)

unfoldable pub send_ice_candidate : ℕ → Str → Str → Str → Op
send_ice_candidate h req_id sid candidate =
    send h (stream_message (codes "CANDIDATE") req_id sid candidate)

-- The writes of `sendSourceClose` to the handler.
unfoldable pub forget_source : Str → ConnectionHandler → ConnectionHandler
forget_source req_id c = record c {
  sources = delete req_id c.sources;
  requests = delete req_id c.requests;
  request_count = dec32 c.request_count;
}

unfoldable pub close_message : Str → Str → SignalingMessage
close_message req_id sid = stream_message (codes "CLOSE") req_id sid []

-- `sendSourceClose`
unfoldable pub send_source_close : ℕ → Str → Str → Op
unfolding forget_source close_message
send_source_close h req_id sid = locked (handler_status h) do
  change (λ s. set_handler h (forget_source req_id (s.handler_at h)) s)
  send h (close_message req_id sid)
