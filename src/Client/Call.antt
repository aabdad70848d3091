-- ===== src/Client/Call.antt =====
-- `RpcClient::call_raw` and `RpcClient::call` of src/client.rs.
pub mod Ids
pub mod Total
pub mod Session
pub mod Exchange
use msrpce_dcerpc.Base.{ℕ, Bytes, ok, err, ◌⊎◌, inl, inr, String}
use msrpce_dcerpc.Crates.{NdrCrate, UuidCrate, NdrCodec}
use msrpce_dcerpc.Error.{Result}
use msrpce_dcerpc.Error
use msrpce_dcerpc.Auth.{AuthProvider}
use msrpce_dcerpc.Transport.{RpcTransport, Action, lift, ◌>>=◌, ◌>>◌}
use msrpce_dcerpc.Client.Packets.{RpcClient, next_call_id}
use msrpce_dcerpc.Client.Send.{send_request_fragments}
use msrpce_dcerpc.Client.Receive.{recv_response_fragments}

-- A result of `msrpce_ndr`, its error converted as `?` does.
abbrev pub ndr_result : {A : Type 0} → String ⊎ A → Result A
ndr_result (inl message) = err (Error.ndr message)
ndr_result (inr value) = ok value

module _ {T P : Type 0} (Uuid : Type 0) ⦃n : NdrCrate⦄ ⦃u : UuidCrate Uuid⦄ ⦃a : AuthProvider P⦄
    ⦃tr : RpcTransport T⦄ where
  -- `RpcClient::call_raw`, with the rounds that `recv_response_fragments` is given.
  unfoldable pub call_raw : ℕ → ℕ → Bytes → Action (RpcClient T P) Bytes
  unfolding next_call_id
  call_raw rounds opnum request_stub c =
      let (call_id, c') = next_call_id c in
      (do
        send_request_fragments Uuid call_id opnum request_stub
        recv_response_fragments rounds call_id)
        c'

  -- `RpcClient::call`
  unfoldable pub call :
      {Req Resp : Type 0} → NdrCodec Req Resp → ℕ → ℕ → Req → Action (RpcClient T P) Resp
  call codec rounds opnum request = do
    request_stub ← lift (ndr_result (codec.serialize request))
    response_stub ← call_raw rounds opnum request_stub
    lift (ndr_result (codec.deserialize response_stub))
