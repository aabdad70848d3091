-- ===== src/Providers/Gssapi/Released.antt =====
-- What making, stepping and dropping a context of the GSSAPI provider do to the library's objects.
use mathlib.Core.Path.{subst}
use msrpce_dcerpc.Base.{
  ℕ, ◌==◌, if◌then◌else◌, not, ◌&&◌, ◌≡◌, refl, ap, ◌∙◌, arith, Bytes, Option, Res, ok, err, panic,
  diverge, inl, inr, Bool-cases, ==→eq,
}
use msrpce_dcerpc.Base.Text.{Text}
use msrpce_dcerpc.Auth.{RpcAuthError}
use msrpce_dcerpc.Providers.Gssapi.Library.{
  GssapiLibrary, InitReply, Live, own, disown, IsHeld, IsFresh,
}
use msrpce_dcerpc.Providers.Gssapi.Context.{
  GssapiClientContext, import_gssapi_service_name, acquire_gssapi_credentials,
  context_with_credentials, context_for_name, new_client_context, step_client_context, init_request,
  release_gssapi_buffer, take_reply, drop_client_context,
}
use msrpce_dcerpc.Providers.Gssapi.Owns.{
  Owns, hold, own-IsHeld, own-own-IsHeld, disown-own, disown-own-own, IsFresh-own,
  release_gssapi_name-live, release_cred-live, delete_sec_context-live, release_gssapi_buffer-live,
}

module _ {G : Type 0} ⦃l : GssapiLibrary G⦄ where
  drop_client_context-live :
      (c : GssapiClientContext) (g : G)
      → IsHeld c.context (l.live g).contexts
      → IsHeld c.credential (l.live g).creds
      → IsHeld c.name (l.live g).names
      → l.live (drop_client_context c g) ≡ record (l.live g) {
        names = disown c.name (l.live g).names;
        creds = disown c.credential (l.live g).creds;
        contexts = disown c.context (l.live g).contexts;
      }
  unfolding drop_client_context
  drop_client_context-live c g hx hc hn =
      let g1 = if not (c.context == 0) then l.delete_sec_context c.context g else g in
      let g2 = if not (c.credential == 0) then l.release_cred c.credential g1 else g1 in
      let e1 = delete_sec_context-live c.context g hx in
      let e2 : l.live g2 ≡ record (l.live g1) { creds = disown c.credential (l.live g1).creds } =
        release_cred-live c.credential g1 (rw e1 hc) in
      let e3 : l.live g2 ≡ record (l.live g) {
        creds = disown c.credential (l.live g).creds;
        contexts = disown c.context (l.live g).contexts;
      } =
        rw e1 at e2 in
      let e4 = release_gssapi_name-live c.name g2 (rw e3 hn) in rw e3 at e4

  -- Nothing of the context is left, and nothing else is given back.
  pub drop_client_context-Owns :
      {base : Live} (c : GssapiClientContext) (g : G)
      → Owns base c (l.live g)
      → l.live (drop_client_context c g) ≡ base
  drop_client_context-Owns {base} c g o =
      let hx : IsHeld c.context (l.live g).contexts =
        rw o.objects (own-IsHeld c.context base.contexts) in
      let hc : IsHeld c.credential (l.live g).creds =
        rw o.objects (own-IsHeld c.credential base.creds) in
      let hn : IsHeld c.name (l.live g).names = rw o.objects (own-IsHeld c.name base.names) in
      rw
        (
          drop_client_context-live c g hx hc hn,
          o.objects,
          disown-own c.name base.names o.name_fresh,
          disown-own c.credential base.creds o.cred_fresh,
          disown-own c.context base.contexts o.context_fresh,
        )
        refl

  -- The older of two contexts goes.
  pub drop_client_context-under :
      {base below : Live} (o c : GssapiClientContext) (g : G)
      → Owns base o below
      → Owns below c (l.live g)
      → Owns base c (l.live (drop_client_context o g))
  drop_client_context-under {base} {below} o c g w v =
      let now : l.live g ≡ hold c (hold o base) = v.objects ∙ ap (hold c) w.objects in
      let fn : IsFresh c.name (own o.name base.names) =
        subst (λ (b : Live). IsFresh c.name b.names) w.objects v.name_fresh in
      let fc : IsFresh c.credential (own o.credential base.creds) =
        subst (λ (b : Live). IsFresh c.credential b.creds) w.objects v.cred_fresh in
      let fx : IsFresh c.context (own o.context base.contexts) =
        subst (λ (b : Live). IsFresh c.context b.contexts) w.objects v.context_fresh in
      let hx : IsHeld o.context (l.live g).contexts =
        rw now (own-own-IsHeld o.context c.context base.contexts) in
      let hc : IsHeld o.credential (l.live g).creds =
        rw now (own-own-IsHeld o.credential c.credential base.creds) in
      let hn : IsHeld o.name (l.live g).names = rw now (own-own-IsHeld o.name c.name base.names) in
      record {
        objects =
            rw
              (
                drop_client_context-live o g hx hc hn,
                now,
                disown-own-own o.name c.name base.names w.name_fresh fn,
                disown-own-own o.credential c.credential base.creds w.cred_fresh fc,
                disown-own-own o.context c.context base.contexts w.context_fresh fx,
              )
              refl;
        name_fresh = IsFresh-own o.name c.name base.names fn;
        cred_fresh = IsFresh-own o.credential c.credential base.creds fc;
        context_fresh = IsFresh-own o.context c.context base.contexts fx;
      }

  -- What an attempt to make a context leaves: its objects, or nothing after an error.
  abbrev pub Made : Live → Res RpcAuthError GssapiClientContext × G → Type 0
  Made base (ok c, g) = Owns base c (l.live g)
  Made base (err e, g) = l.live g ≡ base
  Made base (panic, g) = ⊥
  Made base (diverge, g) = ⊥

  -- The name is released where there are no credentials.
  context_with_credentials-Made :
      (base : Live) (name : ℕ) (g : G)
      → IsFresh name base.names
      → l.live g ≡ record base { names = own name base.names }
      → Made base (context_with_credentials name (acquire_gssapi_credentials g))
  unfolding context_with_credentials acquire_gssapi_credentials
  context_with_credentials-Made base name g f e =
      elim (Bool-cases ((l.acquire_cred g).0.major == l.gss_s_complete)) [
        | inl done ↦
            let law = l.acquire_cred_ok g (==→eq _ _ done) in
            rw done (record {
              objects = rw e at law.1;
              name_fresh = f;
              cred_fresh = rw e at law.0;
              context_fresh = λ n. absurd (n refl);
            })
        | inr failed ↦
            let same = l.acquire_cred_failed g (ground arith) ∙ e in
            let held : IsHeld name (l.live (l.acquire_cred g).1).names =
              rw same (own-IsHeld name base.names) in
            rw failed (
              release_gssapi_name-live name (l.acquire_cred g).1 held
              ∙ rw (same, disown-own name base.names f) refl)
      ]

  pub new_client_context-Made : (s : Text) (g : G) → Made (l.live g) (new_client_context s g)
  unfolding new_client_context context_for_name import_gssapi_service_name
  new_client_context-Made s g =
      elim (Bool-cases ((l.import_name s g).0.major == l.gss_s_complete)) [
        | inl done ↦
            let law = l.import_name_ok s g (==→eq _ _ done) in
            rw done (
              context_with_credentials-Made (l.live g) (l.import_name s g).0.handle
                (l.import_name s g).1 law.0 law.1)
        | inr failed ↦ rw failed (l.import_name_failed s g (ground arith))
      ]

  take_reply-Owns :
      (base : Live) (reply : InitReply) (c : GssapiClientContext) (g : G)
      → IsFresh c.name base.names
      → IsFresh c.credential base.creds
      → IsFresh c.context base.contexts
      → IsFresh reply.output.value base.buffers
      → l.live g ≡ record (hold c base) { buffers = own reply.output.value base.buffers }
      → Owns base (take_reply reply c g).1 (l.live (take_reply reply c g).2)
  unfolding take_reply
  take_reply-Owns base reply c g fn fc fx fb e =
      let held : IsHeld reply.output.value (l.live g).buffers =
        rw e (own-IsHeld reply.output.value base.buffers) in
      let done : l.live (release_gssapi_buffer reply.output g) ≡ hold c base =
        release_gssapi_buffer-live reply.output g held
        ∙ rw (e, disown-own reply.output.value base.buffers fb) refl in
      elim (Bool-cases
        (not (reply.major == l.gss_s_complete) && not (reply.major == l.gss_s_continue_needed))) [
          | inl t ↦
              rw t (record { objects = done; name_fresh = fn; cred_fresh = fc; context_fresh = fx })
          | inr t ↦
              rw t (record { objects = done; name_fresh = fn; cred_fresh = fc; context_fresh = fx })
        ]

  -- A step leaves the context's objects as its own, whatever the library answers.
  pub step_client_context-Owns :
      {base : Live} (input : Option Bytes) (c : GssapiClientContext) (g : G)
      → Owns base c (l.live g)
      → Owns base (step_client_context input c g).1 (l.live (step_client_context input c g).2)
  unfolding step_client_context
  step_client_context-Owns {base} input c g o =
      let request = init_request l input c in
      let reply = (l.init_sec_context request g).0 in
      let hx : IsHeld c.context (l.live g).contexts =
        rw o.objects (own-IsHeld c.context base.contexts) in
      let hc : IsHeld c.credential (l.live g).creds =
        rw o.objects (own-IsHeld c.credential base.creds) in
      let hn : IsHeld c.name (l.live g).names = rw o.objects (own-IsHeld c.name base.names) in
      let law = l.init_sec_context_objects request g hn hc hx in
      let back = disown-own c.context base.contexts o.context_fresh in
      let fx : IsFresh reply.context (disown c.context (own c.context base.contexts)) =
        rw o.objects at law.0 in
      let fb : IsFresh reply.output.value base.buffers = rw o.objects at law.1 in
      take_reply-Owns base reply (record c { context = reply.context })
        (l.init_sec_context request g).1 o.name_fresh o.cred_fresh
        (subst (IsFresh reply.context) back fx) fb (law.2 ∙ rw (o.objects, back) refl)
