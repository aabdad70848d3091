-- ===== src/Auth/Answering.antt =====
-- Providers whose calls come back to their caller: what the client's theorems assume of one.
use msrpce_dcerpc.Base.{Bytes, Returns}
use msrpce_dcerpc.Base.Text.{Text}
use msrpce_dcerpc.Auth.{AuthProvider}

pub record IsAnswering {P : Type 0} (a : AuthProvider P) : Type 0 where
  pub init_returns : (target : Text) (p : P) → Returns (a.init_context target p).0
  pub step_returns : (challenge : Bytes) (p : P) → Returns (a.step challenge p).0
