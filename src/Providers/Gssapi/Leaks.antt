-- ===== src/Providers/Gssapi/Leaks.antt =====
-- The GSSAPI provider gives back every object that it took from the library, and gives back only
-- objects that it holds.
use mathlib.Core.Path.{subst}
use msrpce_dcerpc.Base.{
  ◌≡◌, refl, sym, List, [], ◌∷◌, Bytes, Option, none, some, Res, ok, err, panic, diverge,
}
use msrpce_dcerpc.Base.Text.{Text}
use msrpce_dcerpc.Auth.{RpcAuthError}
use msrpce_dcerpc.Providers.Calls.{ProviderCall, init_call, step_call}
use msrpce_dcerpc.Providers.Gssapi.Library.{GssapiLibrary, Live}
use msrpce_dcerpc.Providers.Gssapi.Context.{
  GssapiClientContext, new_client_context, step_client_context, drop_client_context,
}
use msrpce_dcerpc.Providers.Gssapi.Provider.{
  GssapiKerberosRpcAuthProvider, principal_or, build_context, drop_option, install_context,
  start_context, init_context, step_context, step, drop_provider,
}
use msrpce_dcerpc.Providers.Gssapi.Owns.{Owns, OwnsOption}
use msrpce_dcerpc.Providers.Gssapi.Released.{
  Made, drop_client_context-Owns, drop_client_context-under, new_client_context-Made,
  step_client_context-Owns,
}

module _ {G : Type 0} ⦃l : GssapiLibrary G⦄ where
  -- What the library has live is `base` and the provider's own objects.
  abbrev pub ProviderOwns : Live → GssapiKerberosRpcAuthProvider → G → Type 0
  ProviderOwns base p g = OwnsOption base p.context (l.live g)

  -- A new context beside the old one takes its place.
  replace_context :
      (base : Live) {below : Live} (old : Option GssapiClientContext) (c : GssapiClientContext)
      (g : G)
      → OwnsOption base old below
      → Owns below c (l.live g)
      → Owns base c (l.live (drop_option old g))
  unfolding drop_option
  replace_context base none c g w v = subst (λ b. Owns b c (l.live g)) w v
  replace_context base (some o) c g w v = drop_client_context-under o c g w v

  -- A new context that is not kept leaves the old one.
  discard_context :
      (base : Live) {below : Live} (c : GssapiClientContext) (g : G)
      (p : GssapiKerberosRpcAuthProvider)
      → OwnsOption base p.context below
      → Owns below c (l.live g)
      → ProviderOwns base p (drop_client_context c g)
  discard_context base c g p w v =
      subst (OwnsOption base p.context) (sym (drop_client_context-Owns c g v)) w

  install_context-ProviderOwns :
      (base : Live) {below : Live} (r : Res RpcAuthError (Option Bytes)) (c : GssapiClientContext)
      (g : G) (p : GssapiKerberosRpcAuthProvider)
      → OwnsOption base p.context below
      → Owns below c (l.live g)
      → ProviderOwns base (install_context (r, c, g) p).1 (install_context (r, c, g) p).2
  unfolding install_context
  install_context-ProviderOwns base (ok (some token)) c g p w v =
      replace_context base p.context c g w v
  install_context-ProviderOwns base (ok none) c g p w v = discard_context base c g p w v
  install_context-ProviderOwns base (err e) c g p w v = discard_context base c g p w v
  install_context-ProviderOwns base panic c g p w v = discard_context base c g p w v
  install_context-ProviderOwns base diverge c g p w v = discard_context base c g p w v

  start_context-ProviderOwns :
      (base below : Live) (m : Res RpcAuthError GssapiClientContext × G)
      (p : GssapiKerberosRpcAuthProvider)
      → OwnsOption base p.context below
      → Made below m
      → ProviderOwns base (start_context m p).1 (start_context m p).2
  unfolding start_context
  start_context-ProviderOwns base below (ok c, g) p w v =
      install_context-ProviderOwns base (step_client_context none c g).0
        (step_client_context none c g).1 (step_client_context none c g).2 p w
        (step_client_context-Owns none c g v)
  start_context-ProviderOwns base below (err e, g) p w v =
      subst (OwnsOption base p.context) (sym v) w
  start_context-ProviderOwns base below (panic, g) p w v = absurd v
  start_context-ProviderOwns base below (diverge, g) p w v = absurd v

  init_context-ProviderOwns :
      (base : Live) (target : Text) (p : GssapiKerberosRpcAuthProvider) (g : G)
      → ProviderOwns base p g
      → ProviderOwns base (init_context target p g).1 (init_context target p g).2
  unfolding init_context build_context
  init_context-ProviderOwns base target p g w =
      start_context-ProviderOwns base (l.live g)
        (new_client_context (principal_or p.service_principal target) g) p w
        (new_client_context-Made (principal_or p.service_principal target) g)

  step_context-ProviderOwns :
      (base : Live) (held : Option GssapiClientContext) (challenge : Bytes)
      (p : GssapiKerberosRpcAuthProvider) (g : G)
      → p.context ≡ held
      → OwnsOption base held (l.live g)
      → ProviderOwns base (step_context held challenge p g).1 (step_context held challenge p g).2
  unfolding step_context
  step_context-ProviderOwns base none challenge p g e w = rw e w
  step_context-ProviderOwns base (some c) challenge p g e w =
      step_client_context-Owns (some challenge) c g w

  step-ProviderOwns :
      (base : Live) (challenge : Bytes) (p : GssapiKerberosRpcAuthProvider) (g : G)
      → ProviderOwns base p g
      → ProviderOwns base (step challenge p g).1 (step challenge p g).2
  unfolding step
  step-ProviderOwns base challenge p g w =
      step_context-ProviderOwns base p.context challenge p g refl w

  -- One call, its result set aside.
  abbrev pub perform :
      ProviderCall → GssapiKerberosRpcAuthProvider × G → GssapiKerberosRpcAuthProvider × G
  perform (init_call target) (p, g) = let (r, p', g') = init_context target p g in (p', g')
  perform (step_call challenge) (p, g) = let (r, p', g') = step challenge p g in (p', g')

  abbrev pub perform_all :
      List ProviderCall → GssapiKerberosRpcAuthProvider × G → GssapiKerberosRpcAuthProvider × G
  perform_all [] s = s
  perform_all (call ∷ calls) s = perform_all calls (perform call s)

  perform-ProviderOwns :
      (base : Live) (call : ProviderCall) (s : GssapiKerberosRpcAuthProvider × G)
      → ProviderOwns base s.0 s.1
      → ProviderOwns base (perform call s).0 (perform call s).1
  perform-ProviderOwns base (init_call target) (p, g) w =
      init_context-ProviderOwns base target p g w
  perform-ProviderOwns base (step_call challenge) (p, g) w = step-ProviderOwns base challenge p g w

  -- Any sequence of `init_context` and `step` calls on a provider, failed ones among them, keeps the
  -- library's live objects to those there were before and those of the provider's context.
  pub perform_all-ProviderOwns :
      (base : Live) (calls : List ProviderCall) (s : GssapiKerberosRpcAuthProvider × G)
      → ProviderOwns base s.0 s.1
      → ProviderOwns base (perform_all calls s).0 (perform_all calls s).1
  perform_all-ProviderOwns base [] s w = w
  perform_all-ProviderOwns base (call ∷ calls) s w =
      perform_all-ProviderOwns base calls (perform call s) (perform-ProviderOwns base call s w)

  drop_option-OwnsOption :
      (base : Live) (held : Option GssapiClientContext) (g : G)
      → OwnsOption base held (l.live g)
      → l.live (drop_option held g) ≡ base
  unfolding drop_option
  drop_option-OwnsOption base none g w = w
  drop_option-OwnsOption base (some c) g w = drop_client_context-Owns c g w

  -- No leak and no double release: a provider without a context, on which any sequence of
  -- `init_context` and `step` calls is made, failed ones among them, and which is then dropped,
  -- leaves exactly the library objects live that were live before.
  pub drop_provider-perform_all :
      (p : GssapiKerberosRpcAuthProvider) (calls : List ProviderCall) (g : G)
      → p.context ≡ none
      → l.live (drop_provider (perform_all calls (p, g)).0 (perform_all calls (p, g)).1) ≡ l.live g
  unfolding drop_provider
  drop_provider-perform_all p calls g fresh =
      let start : ProviderOwns (l.live g) p g = rw fresh refl in
      drop_option-OwnsOption (l.live g) (perform_all calls (p, g)).0.context
        (perform_all calls (p, g)).1 (perform_all-ProviderOwns (l.live g) calls (p, g) start)
