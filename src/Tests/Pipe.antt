-- ===== src/Tests/Pipe.antt =====
-- Endpoints and pipes at concrete inputs.
use msrpce_dcerpc.Base.{◌↔◌, ◌≡◌, ◌++◌, ◌∷◌, ok}
use msrpce_dcerpc.Base.Text.{codes}
use msrpce_dcerpc.NcacnNp.Endpoint.{NcacnNpEndpoint, parse, unc_prefix, pipe_prefix, backslash}
use msrpce_dcerpc.NcacnNp.Endpoint.Syntax.{endpoint_text, IsEndpoint, parse_iff}

abbrev srvsvc : NcacnNpEndpoint
srvsvc = record { server = codes "host"; pipe = codes "srvsvc" }

parse_iff_example :
    (parse (unc_prefix ++ codes "host" ++ (backslash ∷ (pipe_prefix ++ codes "srvsvc")))
      ≡ ok srvsvc)
    ↔ ((unc_prefix ++ codes "host" ++ (backslash ∷ (pipe_prefix ++ codes "srvsvc"))
          ≡ endpoint_text srvsvc)
        × IsEndpoint srvsvc)
parse_iff_example =
    parse_iff (unc_prefix ++ codes "host" ++ (backslash ∷ (pipe_prefix ++ codes "srvsvc"))) srvsvc
