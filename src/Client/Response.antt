-- ===== src/Client/Response.antt =====
-- What `recv_response_fragments` of src/client.rs does with one PDU.
use msrpce_dcerpc.Base.{ℕ, Bytes, ok, err, bit_and, ◌>>=◌, ◌>>◌, fail_if, ◌==◌, not, Bool, true}
use msrpce_dcerpc.Base.{◌++◌, if◌then◌else◌}
use msrpce_dcerpc.Crates.{NdrCrate}
use msrpce_dcerpc.Error.{Result, invalid_pdu}
use msrpce_dcerpc.Error
use msrpce_dcerpc.Auth.{AuthProvider}
use msrpce_dcerpc.Pdu.Kind.{PduType, response, fault}
use msrpce_dcerpc.Pdu.Header.{pfc_first_frag, pfc_last_frag}
use msrpce_dcerpc.Pdu.Bodies.{decode_response, decode_fault}
use msrpce_dcerpc.Pdu.Packet.{PduPacket, decode_packet}
use msrpce_dcerpc.Client.Packets.{RpcClient, verify_response_packet}

-- What the loop does after a fragment: it returns the stub, or it goes on with the stub so far and
-- with `saw_first`.
pub data Progress : Type 0 where
  done : Bytes → Progress
  more : Bytes → Bool → Progress

-- `pfc_flags & flag != 0`
abbrev pub has_flag : ℕ → ℕ → Bool
has_flag pfc_flags flag = not (bit_and pfc_flags flag == 0)

-- The arm of `PduType::Response`.
unfoldable pub take_response : PduPacket → Bytes → Bool → Result Progress
take_response packet response_stub saw_first =
    let saw : Bool = if has_flag packet.header.pfc_flags pfc_first_frag then true else saw_first in
    do
      fail_if (not saw) (invalid_pdu "response is missing first fragment")
      r ← decode_response packet.body
      ok (
          if has_flag packet.header.pfc_flags pfc_last_frag
          then done (response_stub ++ r.stub_data)
          else more (response_stub ++ r.stub_data) saw)

-- The arm of `PduType::Fault`.
unfoldable pub take_fault : PduPacket → Result Progress
take_fault packet = do f ← decode_fault packet.body; err (Error.fault f.status)

-- `match packet.header.ptype`
unfoldable pub take_packet : PduType → PduPacket → Bytes → Bool → Result Progress
unfolding take_response take_fault
take_packet response packet response_stub saw_first = take_response packet response_stub saw_first
take_packet fault packet response_stub saw_first = take_fault packet
take_packet _ packet response_stub saw_first = err (invalid_pdu "expected response or fault PDU")

module _ {T P : Type 0} ⦃n : NdrCrate⦄ ⦃a : AuthProvider P⦄ where
  -- A round of the loop once it has the PDU's bytes.
  unfoldable pub take_pdu : RpcClient T P → ℕ → Bytes → Bytes → Bool → Result Progress
  unfolding take_packet
  take_pdu c expected_call_id bytes response_stub saw_first = do
    packet ← decode_packet bytes
    verify_response_packet c
    fail_if (not (packet.header.call_id == expected_call_id))
        (invalid_pdu "response call id does not match request")
    take_packet packet.header.ptype packet response_stub saw_first
