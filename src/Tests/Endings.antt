-- ===== src/Tests/Endings.antt =====
-- Calls and binds that end, at concrete inputs.
use msrpce_dcerpc.Base.{Bytes, length, [], ◌∷◌, none, arith}
use msrpce_dcerpc.Client.Packets.{RpcClient}
use msrpce_dcerpc.NcacnNp.{pipe_transport}
use msrpce_dcerpc.NcacnNp.Framing.{stream_pipe, stream_pipe-IsFinitePipe}
use msrpce_dcerpc.NcacnNp.Finite.{pipe_transport-IsFinite}
use msrpce_dcerpc.Client.Receive.Queue.{queue_transport}
use msrpce_dcerpc.Client.Call.Session.{make_calls, AllReturn, AfterCalls, make_calls-AfterCalls}
use msrpce_dcerpc.Tests.Crates.{test_ndr, test_uuid, TestUuid, test_provider, TestProvider}

-- A pipe that holds four bytes.
abbrev piped : RpcClient Bytes TestProvider
piped = record {
  transport = 5 ∷ 0 ∷ 2 ∷ 3 ∷ [];
  context_id = 0;
  call_id = 2;
  max_xmit_frag = 4280;
  auth_provider = none;
}

make_calls-AfterCalls_example :
    AllReturn TestUuid ⦃tr = pipe_transport⦄ 5 ((7, 1 ∷ []) ∷ ((8, []) ∷ [])) piped
    × AfterCalls 2 piped
        (make_calls TestUuid ⦃tr = pipe_transport⦄ 5 ((7, 1 ∷ []) ∷ ((8, []) ∷ [])) piped)
make_calls-AfterCalls_example =
    make_calls-AfterCalls TestUuid ⦃tr = pipe_transport⦄ (λ s. length s)
      (pipe_transport-IsFinite (λ s. length s) stream_pipe-IsFinitePipe) 5
      ((7, 1 ∷ []) ∷ ((8, []) ∷ [])) piped (omega arith)
