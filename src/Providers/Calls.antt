-- ===== src/Providers/Calls.antt =====
-- The calls that a client makes of an authentication provider.
use msrpce_dcerpc.Base.{Bytes}
use msrpce_dcerpc.Base.Text.{Text}

pub data ProviderCall : Type 0 where
  init_call : Text → ProviderCall
  step_call : Bytes → ProviderCall
