-- ===== src/Providers/Gssapi/Owns.antt =====
-- The library objects that a context of the GSSAPI provider holds.
use mathlib.Core.Path.{fun_ext}
use msrpce_dcerpc.Base.{
  ℕ, Bool, true, ◌==◌, if◌then◌else◌, ◌≡◌, ap, arith, Option, none, some, inl, inr, Bool-cases, not,
}
use msrpce_dcerpc.Providers.Gssapi.Library.{
  GssapiLibrary, BufferDesc, Live, own, disown, IsHeld, IsFresh,
}
use msrpce_dcerpc.Providers.Gssapi.Context.{
  GssapiClientContext, release_gssapi_name, release_gssapi_buffer,
}

pub own-IsHeld : (h : ℕ) (s : ℕ → Bool) → IsHeld h (own h s)
own-IsHeld h s = λ n. ground arith

pub own-own-IsHeld : (o c : ℕ) (s : ℕ → Bool) → IsHeld o (own c (own o s))
own-own-IsHeld o c s = λ n. ground arith

pub disown-own : (h : ℕ) (s : ℕ → Bool) → IsFresh h s → disown h (own h s) ≡ s
disown-own h s f = fun_ext (λ k. ground (arith, f))

-- The older of two objects is given back.
pub disown-own-own :
    (o c : ℕ) (s : ℕ → Bool)
    → IsFresh o s
    → IsFresh c (own o s)
    → disown o (own c (own o s)) ≡ own c s
disown-own-own o c s f g = fun_ext (λ k. ground (arith, f, g))

pub IsFresh-own : (o c : ℕ) (s : ℕ → Bool) → IsFresh c (own o s) → IsFresh c s
IsFresh-own o c s g = λ n. ground (arith, g n)

disown_null : (h : ℕ) (s : ℕ → Bool) → (h == 0) ≡ true → s ≡ disown h s
disown_null h s e = fun_ext (λ k. ground arith)

-- The objects `base` with those of a context.
abbrev pub hold : GssapiClientContext → Live → Live
hold c base = record base {
  names = own c.name base.names;
  creds = own c.credential base.creds;
  contexts = own c.context base.contexts;
}

-- The live objects are `base` and those of the context, which are new.
pub record Owns (base : Live) (c : GssapiClientContext) (now : Live) : Type 0 where
  pub objects : now ≡ hold c base
  pub name_fresh : IsFresh c.name base.names
  pub cred_fresh : IsFresh c.credential base.creds
  pub context_fresh : IsFresh c.context base.contexts

-- The same of an optional context.
abbrev pub OwnsOption : Live → Option GssapiClientContext → Live → Type 0
OwnsOption base none now = now ≡ base
OwnsOption base (some c) now = Owns base c now

module _ {G : Type 0} ⦃l : GssapiLibrary G⦄ where
  pub release_gssapi_name-live :
      (h : ℕ) (g : G)
      → IsHeld h (l.live g).names
      → l.live (release_gssapi_name h g) ≡ record (l.live g) { names = disown h (l.live g).names }
  unfolding release_gssapi_name
  release_gssapi_name-live h g held = elim (Bool-cases (h == 0)) [
    | inl e ↦ rw e (ap (λ s. record (l.live g) { names = s }) (disown_null h (l.live g).names e))
    | inr e ↦ rw e (l.release_name_live h g (ground arith) (held (ground arith)))
  ]

  pub release_cred-live :
      (h : ℕ) (g : G)
      → IsHeld h (l.live g).creds
      → l.live (if not (h == 0) then l.release_cred h g else g)
        ≡ record (l.live g) { creds = disown h (l.live g).creds }
  release_cred-live h g held = elim (Bool-cases (h == 0)) [
    | inl e ↦ rw e (ap (λ s. record (l.live g) { creds = s }) (disown_null h (l.live g).creds e))
    | inr e ↦ rw e (l.release_cred_live h g (ground arith) (held (ground arith)))
  ]

  pub delete_sec_context-live :
      (h : ℕ) (g : G)
      → IsHeld h (l.live g).contexts
      → l.live (if not (h == 0) then l.delete_sec_context h g else g)
        ≡ record (l.live g) { contexts = disown h (l.live g).contexts }
  delete_sec_context-live h g held = elim (Bool-cases (h == 0)) [
    | inl e ↦
        rw e (ap (λ s. record (l.live g) { contexts = s }) (disown_null h (l.live g).contexts e))
    | inr e ↦ rw e (l.delete_sec_context_live h g (ground arith) (held (ground arith)))
  ]

  pub release_gssapi_buffer-live :
      (b : BufferDesc) (g : G)
      → IsHeld b.value (l.live g).buffers
      → l.live (release_gssapi_buffer b g)
        ≡ record (l.live g) { buffers = disown b.value (l.live g).buffers }
  unfolding release_gssapi_buffer
  release_gssapi_buffer-live b g held = elim (Bool-cases (b.value == 0)) [
    | inl e ↦
        rw e
          (ap (λ s. record (l.live g) { buffers = s }) (disown_null b.value (l.live g).buffers e))
    | inr e ↦ rw e (l.release_buffer_live b.value g (ground arith) (held (ground arith)))
  ]
