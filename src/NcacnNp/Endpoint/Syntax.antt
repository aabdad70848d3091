-- ===== src/NcacnNp/Endpoint/Syntax.antt =====
-- The endpoints that `NcacnNpEndpoint::parse` accepts, and what it makes of them.
use msrpce_dcerpc.Base.{ℕ, false, ◌||◌, Option, none, some, [], ◌∷◌, ◌++◌, ok, All}
use msrpce_dcerpc.Base.{
  ◌==◌, ◌>>◌, fail_if, ◌≡◌, ◌≢◌, ◌↔◌, refl, arith, ap, sym, inl, inr, Bool-cases, ==→eq, >>=-eq-ok,
}
use mathlib.Core.Path.{subst}
use msrpce_dcerpc.Base.Text.{Text, strip_prefix, split_once, cons_first, contains, is_empty}
use msrpce_dcerpc.NcacnNp.Endpoint.{
  NcacnNpEndpoint, backslash, unc_prefix, pipe_prefix, parse, invalid_endpoint, or_invalid_endpoint,
}

-- No character is `d`.
abbrev pub Lacks : ℕ → Text → Type 0
Lacks d s = All (λ c. c ≢ d) s

strip_prefix-append : (p s : Text) → strip_prefix p (p ++ s) ≡ some s
unfolding strip_prefix
strip_prefix-append [] s = refl
strip_prefix-append (c ∷ p) s = ground (arith, strip_prefix-append p s)

strip_prefix-some : (p s : Text) {r : Text} → strip_prefix p s ≡ some r → s ≡ p ++ r
unfolding strip_prefix
strip_prefix-some [] s h = ground arith
strip_prefix-some (c ∷ p) [] h = cc
strip_prefix-some (c ∷ p) (x ∷ s) {r} h = ground (arith, strip_prefix-some p s {r = r})

split_once-append : (d : ℕ) (a b : Text) → Lacks d a → split_once d (a ++ (d ∷ b)) ≡ some (a, b)
unfolding split_once
split_once-append d [] b w = ground arith
split_once-append d (c ∷ a) b w = ground (arith, split_once-append d a b w.1)

-- What a text that begins with another character than `d` is split into.
cons_first-some :
    (d c : ℕ) (s : Text) (o : Option (Text × Text)) {a b : Text}
    → ((x y : Text) → o ≡ some (x, y) → (s ≡ x ++ (d ∷ y)) × Lacks d x)
    → c ≢ d
    → cons_first c o ≡ some (a, b)
    → (c ∷ s ≡ a ++ (d ∷ b)) × Lacks d a
cons_first-some d c s none ih ne h = cc
cons_first-some d c s (some (x, y)) {a} {b} ih ne h =
    let e : (c ∷ x) ≡ a = cc h in
    let k : y ≡ b = cc h in
    let found = ih x y refl in rw (← e, ← k) (ap (λ t. c ∷ t) found.0, (ne, found.1))

split_once-some :
    (d : ℕ) (s : Text) {a b : Text} → split_once d s ≡ some (a, b) → (s ≡ a ++ (d ∷ b)) × Lacks d a
unfolding split_once
split_once-some d [] h = cc
split_once-some d (c ∷ s) {a} {b} h = elim (Bool-cases (c == d)) [
  | inl e ↦
      let k : ◌≡◌ {A = Option (Text × Text)} (some ([], s)) (some (a, b)) = rw e at h in
      let ka : ◌≡◌ {A = Text} [] a = cc k in
      let kb : s ≡ b = cc k in rw (← ka, ← kb) (ap (λ t. t ∷ s) (==→eq c d e), tt)
  | inr e ↦
      cons_first-some d c s (split_once d s) (λ x y k. split_once-some d s k) (ground arith)
        (rw e at h)
]

contains-false : (d : ℕ) (s : Text) → contains d s ≡ false → Lacks d s
unfolding contains
contains-false d [] h = tt
contains-false d (c ∷ s) h = ground (arith, contains-false d s)

Lacks-contains : (d : ℕ) (s : Text) → Lacks d s → contains d s ≡ false
unfolding contains
Lacks-contains d [] w = refl
Lacks-contains d (c ∷ s) w = ground (arith, Lacks-contains d s w.1)

-- The endpoint's text: two backslashes, the server, `\pipe\` and the pipe's name.
abbrev pub endpoint_text : NcacnNpEndpoint → Text
endpoint_text e = unc_prefix ++ (e.server ++ (backslash ∷ (pipe_prefix ++ e.pipe)))

-- Server and pipe are named, and neither name holds a backslash.
pub record IsEndpoint (e : NcacnNpEndpoint) : Type 0 where
  pub server_named : e.server ≢ []
  pub server_lacks : Lacks backslash e.server
  pub pipe_named : e.pipe ≢ []
  pub pipe_lacks : Lacks backslash e.pipe

or_invalid_endpoint_ok :
    {A : Type 0} (o : Option A) {x : A} → or_invalid_endpoint o ≡ ok x → o ≡ some x
or_invalid_endpoint_ok none h = cc
or_invalid_endpoint_ok (some y) h = cc

is_empty_ne : (s : Text) → is_empty s ≡ false → s ≢ []
is_empty_ne [] h = cc
is_empty_ne (c ∷ s) h = λ k. cc k

ne-is_empty : (s : Text) → s ≢ [] → is_empty s ≡ false
ne-is_empty [] h = absurd (h refl)
ne-is_empty (c ∷ s) h = refl

parse-endpoint_text : (e : NcacnNpEndpoint) → IsEndpoint e → parse (endpoint_text e) ≡ ok e
unfolding parse
parse-endpoint_text e w =
    rw
      (
        strip_prefix-append unc_prefix (e.server ++ (backslash ∷ (pipe_prefix ++ e.pipe))),
        split_once-append backslash e.server (pipe_prefix ++ e.pipe) w.server_lacks,
        strip_prefix-append pipe_prefix e.pipe,
        ne-is_empty e.server w.server_named,
        ne-is_empty e.pipe w.pipe_named,
        Lacks-contains backslash e.pipe w.pipe_lacks,
      )
      refl

-- The last test of `parse`.
tail_ok :
    (server pipe : Text) {e : NcacnNpEndpoint}
    → Lacks backslash server
    → (fail_if (is_empty server || (is_empty pipe || contains backslash pipe)) invalid_endpoint
        >> ok (record { server = server; pipe = pipe }))
      ≡ ok e
    → IsEndpoint e × (e.server ≡ server) × (e.pipe ≡ pipe)
tail_ok server pipe {e} w h =
    let r : NcacnNpEndpoint = record { server = server; pipe = pipe } in
    let named : is_empty server ≡ false = ground arith in
    let piped : is_empty pipe ≡ false = ground arith in
    let lacks : contains backslash pipe ≡ false = ground arith in
    let k : r ≡ e = ground arith in
    let good : IsEndpoint r = record {
      server_named = is_empty_ne server named;
      server_lacks = w;
      pipe_named = is_empty_ne pipe piped;
      pipe_lacks = contains-false backslash pipe lacks;
    } in
    (
      subst IsEndpoint k good,
      sym (ap (λ (x : NcacnNpEndpoint). x.server) k),
      sym (ap (λ (x : NcacnNpEndpoint). x.pipe) k),
    )

parse_ok : (v : Text) {e : NcacnNpEndpoint} → parse v ≡ ok e → (v ≡ endpoint_text e) × IsEndpoint e
unfolding parse
parse_ok v {e} h =
    let (rest, h1, k1) = >>=-eq-ok (or_invalid_endpoint (strip_prefix unc_prefix v)) _ h in
    let (sp, h2, k2) = >>=-eq-ok (or_invalid_endpoint (split_once backslash rest)) _ k1 in
    let (pipe, h3, k3) = >>=-eq-ok (or_invalid_endpoint (strip_prefix pipe_prefix sp.1)) _ k2 in
    let e1 = strip_prefix-some unc_prefix v (or_invalid_endpoint_ok _ h1) in
    let e2 = split_once-some backslash rest {a = sp.0} {b = sp.1} (or_invalid_endpoint_ok _ h2) in
    let e3 = strip_prefix-some pipe_prefix sp.1 (or_invalid_endpoint_ok _ h3) in
    let good = tail_ok sp.0 pipe e2.1 k3 in (rw (good.1, good.2, ← e3, ← e2.0, ← e1) refl, good.0)

-- `NcacnNpEndpoint::parse` accepts exactly the texts of well-formed endpoints, and returns the
-- endpoint that the text was made of.
pub parse_iff :
    (v : Text) (e : NcacnNpEndpoint) → (parse v ≡ ok e) ↔ ((v ≡ endpoint_text e) × IsEndpoint e)
parse_iff v e = (parse_ok v, λ p. rw p.0 (parse-endpoint_text e p.1))
