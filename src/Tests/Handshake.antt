-- ===== src/Tests/Handshake.antt =====
-- Handshakes at concrete inputs.
use msrpce_dcerpc.Base.Text.{codes}
use msrpce_dcerpc.Base.{◌+◌, ◌<◌, Bytes, length, [], ◌∷◌, ok, err, ◌≡◌, refl, inr, arith, none}
use msrpce_dcerpc.Error
use msrpce_dcerpc.Auth.{packet_privacy}
use msrpce_dcerpc.Syntax.{encode_syntax}
use msrpce_dcerpc.Pdu.Bodies.{BindPdu, encode_bind}
use msrpce_dcerpc.Pdu.Packet.RoundTrip.{wire}
use msrpce_dcerpc.Bind.Context.{encode_syntaxes, bind_with_contexts}
use msrpce_dcerpc.Bind.Context.RoundTrip.{wire_contexts, encode_context_list_wire}
use msrpce_dcerpc.Bind.Ack.RoundTrip.{wire_ack}
use msrpce_dcerpc.Client.Receive.Queue.{Queue, queue_transport}
use msrpce_dcerpc.Client.Bind.{bind_with_contexts_inner, bind_with_auth_provider}
use msrpce_dcerpc.Client.Bind.Refused.{bind_with_auth_provider_refused}
use msrpce_dcerpc.Client.Bind.Handshake.{Answered, bind_with_contexts_inner-Answered}
use msrpce_dcerpc.Client.Bind.Exchange.{
  plain_bind, ack_bytes, bound_client, bind_with_contexts_inner-accepted,
}
use msrpce_dcerpc.Tests.Crates.{test_ndr, test_uuid, test_provider, TestProvider, advance}
use msrpce_dcerpc.Tests.Bind.{
  context, context-IsWireContext, accepting, ack_of, answer, answer-Accepts, ack-IsWireAck,
}

abbrev pub bind_pdu : BindPdu
bind_pdu = record {
  max_xmit_frag = 4280;
  max_recv_frag = 4280;
  assoc_group_id = 0;
  presentation_context_list = 1 ∷ 0 ∷ 0 ∷ 0 ∷ wire_contexts (context ∷ []);
}

pub bind_pdu_made : bind_with_contexts 4280 4280 0 (context ∷ []) ≡ ok bind_pdu
unfolding bind_with_contexts
bind_pdu_made = rw (encode_context_list_wire (context ∷ []) (context-IsWireContext, tt)) refl

pub bind_pdu_fits : length (encode_bind bind_pdu) + 16 < 65536
unfolding encode_bind encode_syntaxes encode_syntax
bind_pdu_fits = omega arith

pub ack_fits : length (wire_ack (ack_of (accepting ∷ [])) (0 ∷ 0 ∷ []) 0 0 0) + 16 < 65536
unfolding encode_syntax
ack_fits = omega arith

abbrev pub server_ack : Bytes
server_ack = ack_bytes (ack_of (accepting ∷ [])) (0 ∷ 0 ∷ []) 0 0 0 3

abbrev after : Queue
after = record { incoming = []; sent = wire (plain_bind bind_pdu) ∷ [] }

bind_with_contexts_inner-accepted_example :
    bind_with_contexts_inner (context ∷ []) none (record { incoming = server_ack ∷ []; sent = [] })
    ≡ (ok (bound_client {P = TestProvider} (ack_of (accepting ∷ [])) answer after), after)
bind_with_contexts_inner-accepted_example =
    bind_with_contexts_inner-accepted context [] (ack_of (accepting ∷ [])) (0 ∷ 0 ∷ []) 0 0 0 3
      answer ack-IsWireAck (omega arith) ack_fits answer-Accepts bind_pdu [] [] bind_pdu_made
      bind_pdu_fits

bound_by_server :
    bind_with_contexts_inner (context ∷ []) none (record { incoming = server_ack ∷ []; sent = [] })
    ≡ (ok (bound_client {P = TestProvider} (ack_of (accepting ∷ [])) answer after), after)
bound_by_server =
    bind_with_contexts_inner-accepted context [] (ack_of (accepting ∷ [])) (0 ∷ 0 ∷ []) 0 0 0 3
      answer ack-IsWireAck (omega arith) ack_fits answer-Accepts bind_pdu [] [] bind_pdu_made
      bind_pdu_fits

bind_with_contexts_inner-Answered_example :
    Answered
      (context ∷ [])
      (bound_client {P = TestProvider} (ack_of (accepting ∷ [])) answer after)
      after
bind_with_contexts_inner-Answered_example =
    bind_with_contexts_inner-Answered (context ∷ []) none
      (record { incoming = server_ack ∷ []; sent = [] }) after
      (bound_client (ack_of (accepting ∷ [])) answer after) bound_by_server

abbrev secret : TestProvider
secret = record { level = packet_privacy; calls = 0 }

bind_with_auth_provider_refused_example :
    bind_with_auth_provider {T = Queue}
      (context ∷ [])
      (codes "host")
      secret
      (record { incoming = []; sent = [] })
    ≡ (
      err (Error.auth "RPC auth levels above Connect are not supported in v1"),
      record { incoming = []; sent = [] },
    )
bind_with_auth_provider_refused_example =
    bind_with_auth_provider_refused context [] (codes "host") secret (advance secret)
      (1 ∷ 2 ∷ 3 ∷ []) (record { incoming = []; sent = [] }) refl (inr refl)
      (context-IsWireContext, tt) (omega arith)
