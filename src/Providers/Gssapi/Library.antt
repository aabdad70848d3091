-- ===== src/Providers/Gssapi/Library.antt =====
-- The GSSAPI C library that src/auth.rs calls through `libgssapi_sys`: a parameter of the model.
use msrpce_dcerpc.Base.{ℕ, Bool, true, false, Bytes, Option, ◌≡◌, ◌≢◌, ◌==◌, if◌then◌else◌}
use msrpce_dcerpc.Base.Text.{Text}

-- `gss_buffer_desc` as the library fills it: the pointer (0 is null) and the length.
pub record BufferDesc : Type 0 where
  pub length : ℕ
  pub value : ℕ

-- What `gss_init_sec_context` is called with. Handles are numbers, 0 the null handle; no input
-- token is a null pointer.
pub record InitRequest : Type 0 where
  pub credential : ℕ
  pub context : ℕ
  pub name : ℕ
  pub mech : Bytes
  pub flags : ℕ
  pub input : Option Bytes

-- What it returns and leaves in `context_handle` and `output_token`.
pub record InitReply : Type 0 where
  pub major : ℕ
  pub minor : ℕ
  pub context : ℕ
  pub output : BufferDesc

-- What a call returns that makes one object.
pub record NewHandle : Type 0 where
  pub major : ℕ
  pub minor : ℕ
  pub handle : ℕ

-- The objects that the library has given out and that were not released.
pub record Live : Type 0 where
  pub names : ℕ → Bool
  pub creds : ℕ → Bool
  pub contexts : ℕ → Bool
  pub buffers : ℕ → Bool

-- The null handle is no object.
abbrev pub own : ℕ → (ℕ → Bool) → ℕ → Bool
own h s k = if h == 0 then s k else if k == h then true else s k

abbrev pub disown : ℕ → (ℕ → Bool) → ℕ → Bool
disown h s k = if h == 0 then s k else if k == h then false else s k

-- A handle that a call may be given, and one that it may give out.
abbrev pub IsHeld : ℕ → (ℕ → Bool) → Type 0
IsHeld h s = h ≢ 0 → s h ≡ true

abbrev pub IsFresh : ℕ → (ℕ → Bool) → Type 0
IsFresh h s = h ≢ 0 → s h ≡ false

-- The calls, over the library's own state, and what RFC 2744 says of the objects: a call that makes
-- one gives out a new handle and nothing when it fails, a release of a live object ends it,
-- `gss_init_sec_context` replaces the context that it was given, and nothing else changes.
pub record GssapiLibrary (G : Type 0) : Type 0 where
  pub gss_s_complete : ℕ
  pub gss_s_continue_needed : ℕ
  pub gss_c_mutual_flag : ℕ
  pub gss_c_integ_flag : ℕ
  pub gss_c_dce_style : ℕ
  pub import_name : Text → G → NewHandle × G
  pub acquire_cred : G → NewHandle × G
  pub init_sec_context : InitRequest → G → InitReply × G
  pub delete_sec_context : ℕ → G → G
  pub release_cred : ℕ → G → G
  pub release_name : ℕ → G → G
  pub release_buffer : ℕ → G → G
  -- The memory that a buffer of the library points at.
  pub bytes_at : ℕ → ℕ → G → Bytes
  pub live : G → Live
  pub import_name_ok :
      (s : Text) (g : G)
      → (import_name s g).0.major ≡ gss_s_complete
      → IsFresh (import_name s g).0.handle (live g).names
        × (live (import_name s g).1
            ≡ record (live g) { names = own (import_name s g).0.handle (live g).names })
  pub import_name_failed :
      (s : Text) (g : G)
      → (import_name s g).0.major ≢ gss_s_complete
      → live (import_name s g).1 ≡ live g
  pub acquire_cred_ok :
      (g : G)
      → (acquire_cred g).0.major ≡ gss_s_complete
      → IsFresh (acquire_cred g).0.handle (live g).creds
        × (live (acquire_cred g).1
            ≡ record (live g) { creds = own (acquire_cred g).0.handle (live g).creds })
  pub acquire_cred_failed :
      (g : G) → (acquire_cred g).0.major ≢ gss_s_complete → live (acquire_cred g).1 ≡ live g
  pub init_sec_context_objects :
      (r : InitRequest) (g : G)
      → IsHeld r.name (live g).names
      → IsHeld r.credential (live g).creds
      → IsHeld r.context (live g).contexts
      → IsFresh (init_sec_context r g).0.context (disown r.context (live g).contexts)
        × IsFresh (init_sec_context r g).0.output.value (live g).buffers
        × (live (init_sec_context r g).1 ≡ record (live g) {
          contexts = own (init_sec_context r g).0.context (disown r.context (live g).contexts);
          buffers = own (init_sec_context r g).0.output.value (live g).buffers;
        })
  pub delete_sec_context_live :
      (h : ℕ) (g : G)
      → h ≢ 0
      → (live g).contexts h ≡ true
      → live (delete_sec_context h g) ≡ record (live g) { contexts = disown h (live g).contexts }
  pub release_cred_live :
      (h : ℕ) (g : G)
      → h ≢ 0
      → (live g).creds h ≡ true
      → live (release_cred h g) ≡ record (live g) { creds = disown h (live g).creds }
  pub release_name_live :
      (h : ℕ) (g : G)
      → h ≢ 0
      → (live g).names h ≡ true
      → live (release_name h g) ≡ record (live g) { names = disown h (live g).names }
  pub release_buffer_live :
      (h : ℕ) (g : G)
      → h ≢ 0
      → (live g).buffers h ≡ true
      → live (release_buffer h g) ≡ record (live g) { buffers = disown h (live g).buffers }
