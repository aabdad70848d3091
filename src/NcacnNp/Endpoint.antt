-- ===== src/NcacnNp/Endpoint.antt =====
-- `struct NcacnNpEndpoint` of src/ncacn_np.rs: endpoints as texts `\\server\pipe\name`.
pub mod Syntax
use msrpce_dcerpc.Base.{
  ℕ, Bool, true, false, ◌||◌, Option, none, some, List, [], ◌∷◌, ◌++◌, ok, err,
}
use msrpce_dcerpc.Base.{◌==◌, if◌then◌else◌, ◌>>=◌, ◌>>◌, fail_if}
use msrpce_dcerpc.Base.Text.{Text, codes, strip_prefix, split_once, contains, is_empty}
use msrpce_dcerpc.Error.{Error, Result, transport}

pub record NcacnNpEndpoint : Type 0 where
  pub server : Text
  pub pipe : Text

abbrev pub backslash : ℕ
backslash = 0x5c

-- `r"\\"` and `r"pipe\"`
abbrev pub unc_prefix : Text
unc_prefix = backslash ∷ backslash ∷ []

abbrev pub pipe_prefix : Text
pipe_prefix = codes "pipe" ++ (backslash ∷ [])

-- `NcacnNpEndpoint::invalid_endpoint`
abbrev pub invalid_endpoint : Error
invalid_endpoint = transport "ncacn_np endpoint must be \\\\server\\pipe\\name"

-- `.ok_or_else(Self::invalid_endpoint)`
abbrev pub or_invalid_endpoint : {A : Type 0} → Option A → Result A
or_invalid_endpoint none = err invalid_endpoint
or_invalid_endpoint (some a) = ok a

-- `NcacnNpEndpoint::parse`
unfoldable pub parse : Text → Result NcacnNpEndpoint
parse value = do
  rest ← or_invalid_endpoint (strip_prefix unc_prefix value)
  (server, path) ← or_invalid_endpoint (split_once backslash rest)
  pipe ← or_invalid_endpoint (strip_prefix pipe_prefix path)
  fail_if (is_empty server || (is_empty pipe || contains backslash pipe)) invalid_endpoint
  ok (record { server = server; pipe = pipe })

-- `NcacnNpEndpoint::ipc_share`
unfoldable pub ipc_share : NcacnNpEndpoint → Text
ipc_share e = unc_prefix ++ (e.server ++ (backslash ∷ codes "IPC$"))

-- `NcacnNpEndpoint::pipe_path`
unfoldable pub pipe_path : NcacnNpEndpoint → Text
pipe_path e = backslash ∷ (pipe_prefix ++ e.pipe)
