-- ===== src/Bind/Ack/Accept.antt =====
-- What `BindAckPdu::accepted_context` selects: the first accepted context, and otherwise the first
-- rejection.
use msrpce_dcerpc.Base.{ℕ, suc, ◌+◌, ◌≤◌, length, All, get_elem?, List, [], ◌∷◌, ◌++◌, ok, err}
use msrpce_dcerpc.Base.{
  ◌≡◌, ◌≢◌, refl, ap, arith, ◌↔◌, Option, none, some, Option-cases, inl, inr, true, false,
  Bool-cases,
}
use msrpce_dcerpc.Base.{
  if◌then◌else◌, get_elem?-lt, get_elem?_in, get_elem?-append, length-append, append_assoc,
}
use msrpce_dcerpc.Error.{
  Error, Result, invalid_pdu, PresentationResultCode, acceptance, user_rejection,
  provider_rejection, negotiate_ack, PresentationRejectReason, presentation_context_rejected,
}
use msrpce_dcerpc.Bind.Context.{PresentationContext}
use msrpce_dcerpc.Bind.Ack.{
  BindAckPdu, PresentationResult, AcceptedContext, is_acceptance, is_rejection, get_or_insert,
  note_rejection, no_acceptance, accept_from, accepted_context,
}

-- The rejection kept so far, before those still to come.
abbrev or_first : Option Error → List Error → List Error
or_first none es = es
or_first (some e) es = e ∷ es

is_acceptance-true : (c : PresentationResultCode) → is_acceptance c ≡ true → c ≡ acceptance
unfolding is_acceptance
is_acceptance-true acceptance e = refl
is_acceptance-true user_rejection e = absurd (cc)
is_acceptance-true provider_rejection e = absurd (cc)
is_acceptance-true negotiate_ack e = absurd (cc)

is_acceptance-false : (c : PresentationResultCode) → c ≢ acceptance → is_acceptance c ≡ false
unfolding is_acceptance
is_acceptance-false acceptance h = absurd (h refl)
is_acceptance-false user_rejection h = refl
is_acceptance-false provider_rejection h = refl
is_acceptance-false negotiate_ack h = refl

is_acceptance_self : is_acceptance acceptance ≡ true
unfolding is_acceptance
is_acceptance_self = refl

-- A code for which the test fails is no acceptance.
other_than_acceptance : (c : PresentationResultCode) → is_acceptance c ≡ false → c ≢ acceptance
other_than_acceptance c e h = absurd (cc (is_acceptance_self, e, ap is_acceptance h))

-- What a result says against its context: a user's or a provider's rejection is reported with its
-- code and reason, and an acknowledged negotiation is not.
abbrev reported : ℕ → PresentationResultCode → PresentationRejectReason → List Error
reported id acceptance reason = []
reported id negotiate_ack reason = []
reported id user_rejection reason = presentation_context_rejected id user_rejection reason ∷ []
reported id provider_rejection reason =
    presentation_context_rejected id provider_rejection reason ∷ []

module _ {Uuid : Type 0} where
  abbrev pub IsDeclined : PresentationResult Uuid → Type 0
  IsDeclined r = r.result ≢ acceptance

  -- The result number `length before` is the first acceptance, and it is about a proposed context.
  pub record Accepts (results : List (PresentationResult Uuid))
      (proposed : List (PresentationContext Uuid)) (i : ℕ) (a : AcceptedContext Uuid) : Type 0 where
    pub before : List (PresentationResult Uuid)
    pub chosen : PresentationResult Uuid
    pub after : List (PresentationResult Uuid)
    pub context : PresentationContext Uuid
    pub split : results ≡ before ++ (chosen ∷ after)
    pub declined : All IsDeclined before
    pub accepted : chosen.result ≡ acceptance
    pub found : get_elem? proposed (i + length before) ≡ some context
    pub answer :
        a ≡ record { context_id = context.context_id; transfer_syntax = chosen.transfer_syntax }

  module _ (proposed : List (PresentationContext Uuid)) where
    -- One round of the loop, by what it looks at.
    round_missing :
        (r : PresentationResult Uuid) (rs : List (PresentationResult Uuid)) (i : ℕ)
        (first : Option Error)
        → get_elem? proposed i ≡ none
        → accept_from (r ∷ rs) proposed i first
          ≡ err (invalid_pdu "bind ack result has no matching proposed context")
    unfolding accept_from
    round_missing r rs i first e = ground arith

    module _ (r : PresentationResult Uuid) (rs : List (PresentationResult Uuid)) (i : ℕ)
        (first : Option Error) (c : PresentationContext Uuid)
        (e : get_elem? proposed i ≡ some c) where
      round_accepted :
          r.result ≡ acceptance
          → accept_from (r ∷ rs) proposed i first
            ≡ ok (record { context_id = c.context_id; transfer_syntax = r.transfer_syntax })
      unfolding accept_from
      round_accepted acc =
          let e' : is_acceptance r.result ≡ true = rw acc is_acceptance_self in ground arith

      round_declined :
          r.result ≢ acceptance
          → accept_from (r ∷ rs) proposed i first
            ≡ accept_from rs proposed (i + 1) (note_rejection first c r)
      unfolding accept_from
      round_declined acc = let e' = is_acceptance-false r.result acc in ground (arith, e')

    sound :
        (rs : List (PresentationResult Uuid)) (i : ℕ) (first : Option Error)
        (a : AcceptedContext Uuid)
        → accept_from rs proposed i first ≡ ok a
        → Accepts rs proposed i a
    sound [] i none a d = absurd (unfold accept_from no_acceptance in cc)
    sound [] i (some x) a d = absurd (unfold accept_from no_acceptance in cc)
    sound (r ∷ rs) i first a d = elim (Option-cases (get_elem? proposed i)) [
      | inl e ↦ absurd (cc (round_missing r rs i first e))
      | inr (c, e) ↦ elim (Bool-cases (is_acceptance r.result)) [
        | inl acc ↦ record {
          before = [];
          chosen = r;
          after = rs;
          context = c;
          split = refl;
          declined = tt;
          accepted = is_acceptance-true r.result acc;
          found = let z : i + 0 ≡ i = omega arith in rw z e;
          answer =
              ground (arith, round_accepted r rs i first c e (is_acceptance-true r.result acc));
        }
        | inr test ↦
            let acc = other_than_acceptance r.result test in
            let t =
              sound rs (i + 1) (note_rejection first c r) a
                (rw (round_declined r rs i first c e acc) at d) in
            let shift : i + 1 + length t.before ≡ i + suc (length t.before) = omega arith in
            record {
              before = r ∷ t.before;
              chosen = t.chosen;
              after = t.after;
              context = t.context;
              split = ap (λ (ys : List (PresentationResult Uuid)). r ∷ ys) t.split;
              declined = (acc, t.declined);
              accepted = t.accepted;
              found = rw shift at (t.found);
              answer = t.answer;
            }
      ]
    ]

    complete :
        (before : List (PresentationResult Uuid)) (chosen : PresentationResult Uuid)
        (after : List (PresentationResult Uuid)) (c : PresentationContext Uuid) (i : ℕ)
        (first : Option Error)
        → All IsDeclined before
        → chosen.result ≡ acceptance
        → get_elem? proposed (i + length before) ≡ some c
        → accept_from (before ++ (chosen ∷ after)) proposed i first
          ≡ ok (record { context_id = c.context_id; transfer_syntax = chosen.transfer_syntax })
    complete [] chosen after c i first w acc e =
        let z : i + 0 ≡ i = omega arith in round_accepted chosen after i first c (rw z at e) acc
    complete (r ∷ before) chosen after c i first w acc e =
        let (d, here) =
          get_elem?_in proposed i
            (omega (arith, get_elem?-lt proposed (i + suc (length before)) e)) in
        let shift : i + suc (length before) ≡ i + 1 + length before = omega arith in
        rw (round_declined r (before ++ (chosen ∷ after)) i first d here w.0) (
          complete before chosen after c (i + 1) (note_rejection first d r) w.1 acc (rw shift at e))

    answered :
        (rs : List (PresentationResult Uuid)) (a : AcceptedContext Uuid)
        → Accepts rs proposed 0 a
        → accept_from rs proposed 0 none ≡ ok a
    answered rs a t =
        rw (t.split, t.answer)
          (complete t.before t.chosen t.after t.context 0 none t.declined t.accepted t.found)

  -- `accepted_context` answers with a context exactly when some result is an acceptance of a proposed
  -- context: the first such result, with the id that was proposed in its place and the transfer
  -- syntax that the server chose.
  pub accepted_context_iff :
      (ack : BindAckPdu Uuid) (proposed : List (PresentationContext Uuid))
      (a : AcceptedContext Uuid)
      → (accepted_context ack proposed ≡ ok a) ↔ Accepts ack.results proposed 0 a
  unfolding accepted_context
  accepted_context_iff ack proposed a =
      (sound proposed ack.results 0 none a, answered proposed ack.results a)

  -- The rejections among the results, each with the id of its context.
  pub rejections : List (PresentationResult Uuid) → List (PresentationContext Uuid) → List Error
  rejections [] cs = []
  rejections (r ∷ rs) [] = []
  rejections (r ∷ rs) (c ∷ cs) = reported c.context_id r.result r.reason ++ rejections rs cs

  -- The error for a list of rejections.
  pub first_error : List Error → Result (AcceptedContext Uuid)
  first_error [] = err (invalid_pdu "bind ack has no presentation results")
  first_error (e ∷ es) = err e

  first_error_joined :
      (f : Option Error) (id : ℕ) (code : PresentationResultCode)
      (reason : PresentationRejectReason) (es : List Error)
      → code ≢ acceptance
      → first_error (
          or_first
            (if is_rejection code
              then get_or_insert f (presentation_context_rejected id code reason)
              else f)
            es)
        ≡ first_error (or_first f (reported id code reason ++ es))
  unfolding is_rejection first_error
  first_error_joined f id acceptance reason es h = absurd (h refl)
  first_error_joined none id user_rejection reason es h = refl
  first_error_joined (some e) id user_rejection reason es h = refl
  first_error_joined none id provider_rejection reason es h = refl
  first_error_joined (some e) id provider_rejection reason es h = refl
  first_error_joined f id negotiate_ack reason es h = refl

  accept_from-rejections :
      (rs : List (PresentationResult Uuid)) (front cs : List (PresentationContext Uuid)) (i : ℕ)
      (first : Option Error)
      → All IsDeclined rs
      → length front ≡ i
      → length rs ≤ length cs
      → accept_from rs (front ++ cs) i first ≡ first_error (or_first first (rejections rs cs))
  accept_from-rejections [] front cs i none w l h =
      unfold accept_from no_acceptance first_error rejections in refl
  accept_from-rejections [] front cs i (some e) w l h =
      unfold accept_from no_acceptance first_error rejections in refl
  accept_from-rejections (r ∷ rs) front [] i first w l h = absurd (omega arith)
  accept_from-rejections (r ∷ rs) front (c ∷ cs) i first w l h =
      let step =
        round_declined (front ++ (c ∷ cs)) r rs i first c (get_elem?-append front c cs i l) w.0 in
      let again =
        accept_from-rejections rs (front ++ (c ∷ [])) cs (i + 1) (note_rejection first c r) w.1
          (omega (arith, length-append front (c ∷ []))) (omega arith) in
      let joined = first_error_joined first c.context_id r.result r.reason (rejections rs cs) w.0 in
      rw (step, rw (append_assoc front (c ∷ []) cs) at again)
        (unfold note_rejection rejections in joined)

  -- With no acceptance among the results, and no more results than contexts, `accepted_context`
  -- reports the first rejection, with the id of its context, or that there is none.
  pub accepted_context_declined :
      (ack : BindAckPdu Uuid) (proposed : List (PresentationContext Uuid))
      → All IsDeclined ack.results
      → length ack.results ≤ length proposed
      → accepted_context ack proposed ≡ first_error (rejections ack.results proposed)
  unfolding accepted_context
  accepted_context_declined ack proposed w h =
      accept_from-rejections ack.results [] proposed 0 none w refl h
