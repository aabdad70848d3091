-- ===== src/Pdu/Packet/Layout.antt =====
-- What `PduPacket::decode` accepts is the packet's own bytes.
use native.Mathlib.Decide.{ℕ_discrete}
use msrpce_dcerpc.Base.{ℕ, ◌+◌, ◌-◌, ◌<◌, ◌≤◌, Bytes, length, take, drop, ap, sym}
use msrpce_dcerpc.Base.{ok, err, ◌≡◌, refl, arith, slice_in, slice, ne→==, [], ◌++◌, IsBytes}
use msrpce_dcerpc.Base.{Option, none, some, ◌∙◌, drop_cut, All-take, All-drop, take_all}
use msrpce_dcerpc.Base.{inl, inr, Returns-cases, IsU8, length-take, length-drop, >>=-eq-ok}
use msrpce_dcerpc.Crates.{NdrCrate}
use msrpce_dcerpc.Error.{Error}
use msrpce_dcerpc.Pdu.Header.{PduHeader, IsWireHeader, encode_header, decode_header}
use msrpce_dcerpc.Pdu.Header.RoundTrip.{encode_header-decode_header}
use msrpce_dcerpc.Pdu.Trailer.{SecurityTrailer, IsWireTrailer, encode_trailer, decode_trailer}
use msrpce_dcerpc.Pdu.Trailer.RoundTrip.{encode_trailer-decode_trailer, decode_trailer-Returns}
use msrpce_dcerpc.Pdu.Packet.{PduPacket, find_trailer, split_body, decode_content, decode_packet}
use msrpce_dcerpc.Pdu.Packet.Total.{good_lengths, split_body-Returns, split_body_bounds}

-- The parts of an accepted fragment, with the end of its body.
pub record Parts (h : PduHeader) (bytes : Bytes) (p : PduPacket) : Type 0 where
  pub len : length bytes ≡ h.frag_length
  pub fits : h.auth_length + 16 ≤ h.frag_length
  pub body_end : ℕ
  pub split : split_body bytes h.frag_length h.auth_length ≡ ok (body_end, p.security_trailer)
  pub header : p.header ≡ h
  pub body : p.body ≡ take (body_end - 16) (drop 16 bytes)
  pub auth : p.auth_value ≡ drop (h.frag_length - h.auth_length) bytes

module _ ⦃n : NdrCrate⦄ (h : PduHeader) (bytes : Bytes) (p : PduPacket)
    (d : decode_content h bytes ≡ ok p) where
  parts_bad : ¬ ((length bytes ≡ h.frag_length) × (h.auth_length + 16 ≤ h.frag_length)) → ⊥
  unfolding decode_content
  parts_bad bad = ground arith

  module _ (len : length bytes ≡ h.frag_length) (fits : h.auth_length + 16 ≤ h.frag_length) where
    parts_err : (x : Error) → split_body bytes h.frag_length h.auth_length ≡ err x → ⊥
    unfolding decode_content
    parts_err x s = ground arith

    Parts-ok :
        (e : ℕ) (t : Option SecurityTrailer)
        → split_body bytes h.frag_length h.auth_length ≡ ok (e, t)
        → Parts h bytes p
    unfolding decode_content
    Parts-ok e t s =
        let (lo, hi) = split_body_bounds bytes h.frag_length h.auth_length len fits e t s in
        let b = slice_in {E = Error} bytes 16 e lo (omega arith) in
        let a =
          slice_in {E = Error} bytes (h.frag_length - h.auth_length) h.frag_length (omega arith)
            (omega arith) in
        let whole =
          take_all (h.frag_length - (h.frag_length - h.auth_length))
            (drop (h.frag_length - h.auth_length) bytes)
            (omega (arith, length-drop (h.frag_length - h.auth_length) bytes)) in
        record {
          len = len;
          fits = fits;
          body_end = e;
          split = ground arith;
          header = ground arith;
          body = ground arith;
          auth = ground arith;
        }

  pub content-Parts : Parts h bytes p
  content-Parts = elim (good_lengths h bytes) [
    | no bad ↦ absurd (parts_bad bad)
    | yes (len, fits) ↦
        elim (Returns-cases _ (split_body-Returns bytes h.frag_length h.auth_length len fits)) [
          | inl ((e, t), s) ↦ Parts-ok len fits e t s
          | inr (x, s) ↦ absurd (parts_err len fits x s)
        ]
  ]

-- The trailer's own bytes.
abbrev pub label_bytes : Option SecurityTrailer → Bytes
label_bytes none = []
label_bytes (some t) = encode_trailer t

abbrev pub pad_length : Option SecurityTrailer → ℕ
pad_length none = 0
pad_length (some t) = t.auth_pad_length

-- A trailer goes with an auth value that is not empty, and with no other.
abbrev pub Paired : Option SecurityTrailer → ℕ → Type 0
Paired none auth = auth ≡ 0
Paired (some t) auth = IsWireTrailer t × (0 < auth)

-- What follows the header, part by part.
pub record Content (bytes : Bytes) (frag auth e : ℕ) (tr : Option SecurityTrailer) : Type 0 where
  pub pad : Bytes
  pub padded : length pad ≡ pad_length tr
  pub paired : Paired tr auth
  pub lower : 16 ≤ e
  pub rest : drop e bytes ≡ pad ++ (label_bytes tr ++ drop (frag - auth) bytes)

module _ (bytes : Bytes) (frag auth : ℕ) (bs : IsBytes bytes) (len : length bytes ≡ frag)
    (fits : auth + 16 ≤ frag) where
  abbrev start : ℕ
  start = frag - auth - 8

  abbrev label : Bytes
  label = take 8 (drop start bytes)

  eight : length label ≡ 8
  eight = omega (arith, length-take 8 (drop start bytes), length-drop start bytes)

  slice-label : slice {E = Error} bytes start (frag - auth) ≡ ok label
  slice-label =
      let e : frag - auth - start ≡ 8 = omega arith in
      rw (slice_in {E = Error} bytes start (frag - auth) (omega arith) (omega arith), e) refl

  no_label :
      (e : ℕ) (tr : Option SecurityTrailer) (x : Error)
      → decode_trailer label ≡ err x
      → find_trailer bytes frag auth ≡ ok (e, tr)
      → ⊥
  unfolding find_trailer
  no_label e tr x r d = ground (arith, slice-label)

  found :
      (e : ℕ) (tr : Option SecurityTrailer) (t : SecurityTrailer)
      → decode_trailer label ≡ ok t
      → find_trailer bytes frag auth ≡ ok (e, tr)
      → (tr ≡ some t) × (e + t.auth_pad_length ≡ start) × (16 ≤ e)
  unfolding find_trailer
  found e tr t r d = ground (arith, slice-label)

  from_found :
      (e : ℕ) (t : SecurityTrailer)
      → 0 < auth
      → decode_trailer label ≡ ok t
      → (e + t.auth_pad_length ≡ start) × (16 ≤ e)
      → Content bytes frag auth e (some t)
  from_found e t pos r (pe, lo) =
      let (w, same) =
        encode_trailer-decode_trailer label t eight
          (All-take IsU8 8 (drop start bytes) (All-drop IsU8 start bytes bs)) r in
      let at_end : frag - auth - start ≡ 8 = omega arith in
      record {
        pad = take (start - e) (drop e bytes);
        padded = omega (arith, length-take (start - e) (drop e bytes), length-drop e bytes);
        paired = (w, pos);
        lower = lo;
        rest =
            drop_cut bytes e start (omega arith)
            ∙ ap (λ (ys : Bytes). take (start - e) (drop e bytes) ++ ys)
                (rw same (rw at_end at (drop_cut bytes start (frag - auth) (omega arith))));
      }

  with_auth :
      (e : ℕ) (tr : Option SecurityTrailer)
      → 0 < auth
      → find_trailer bytes frag auth ≡ ok (e, tr)
      → Content bytes frag auth e tr
  with_auth e tr pos d =
      elim (Returns-cases (decode_trailer label) (decode_trailer-Returns label)) [
        | inr (x, r) ↦ absurd (no_label e tr x r d)
        | inl (t, r) ↦ let (is, pe, lo) = found e tr t r d in rw is (from_found e t pos r (pe, lo))
      ]

  no_auth : auth ≡ 0 → Content bytes frag auth frag none
  no_auth z =
      let e : frag - auth ≡ frag = omega arith in
      record { pad = []; padded = refl; paired = z; lower = omega arith; rest = rw e refl }

  no_trailer :
      (e : ℕ) (tr : Option SecurityTrailer)
      → auth ≡ 0
      → split_body bytes frag auth ≡ ok (e, tr)
      → (e ≡ frag) × (tr ≡ none)
  unfolding split_body
  no_trailer e tr z d = ground arith

  pub content :
      (e : ℕ) (tr : Option SecurityTrailer)
      → split_body bytes frag auth ≡ ok (e, tr)
      → Content bytes frag auth e tr
  content e tr d = elim (ℕ_discrete auth 0) [
    | yes z ↦ let (whole, plain) = no_trailer e tr z d in rw (whole, plain) (no_auth z)
    | no k ↦ with_auth e tr (omega arith) (unfold split_body in rw (ne→== auth 0 k) at d)
  ]

module _ ⦃n : NdrCrate⦄ where
  -- An accepted fragment is its header, body, padding, trailer and auth value, in that order and
  -- with nothing between them, and the header's lengths are those of the fragment.
  pub record Layout (bytes : Bytes) (p : PduPacket) : Type 0 where
    pub head : IsWireHeader p.header
    pub pad : Bytes
    pub padded : length pad ≡ pad_length p.security_trailer
    pub paired : Paired p.security_trailer (length p.auth_value)
    pub frag : p.header.frag_length ≡ length bytes
    pub auth : p.header.auth_length ≡ length p.auth_value
    pub whole :
        bytes
        ≡ encode_header p.header
          ++ (p.body ++ (pad ++ (label_bytes p.security_trailer ++ p.auth_value)))

  Layout-Parts :
      (h : PduHeader) (bytes : Bytes) (p : PduPacket)
      → IsBytes bytes
      → IsWireHeader h × (16 ≤ length bytes) × (encode_header h ++ drop 16 bytes ≡ bytes)
      → Parts h bytes p
      → Layout bytes p
  Layout-Parts h bytes p bs (w, long, wrote) q =
      let c =
        content bytes h.frag_length h.auth_length bs q.len q.fits q.body_end p.security_trailer
          q.split in
      let al : h.auth_length ≡ length p.auth_value = omega (
        arith,
        ap (λ (ys : Bytes). length ys) q.auth,
        length-drop (h.frag_length - h.auth_length) bytes,
      ) in
      record {
        head = rw q.header w;
        pad = c.pad;
        padded = c.padded;
        paired = rw al at (c.paired);
        frag = rw q.header (sym q.len);
        auth = rw q.header al;
        whole =
            rw (q.header, q.body, q.auth, ← c.rest, ← drop_cut bytes 16 q.body_end c.lower)
              (sym wrote);
      }

  -- What is accepted has the layout of a fragment.
  pub decode_packet-Layout :
      (bytes : Bytes) (p : PduPacket) → IsBytes bytes → decode_packet bytes ≡ ok p → Layout bytes p
  unfolding decode_packet
  decode_packet-Layout bytes p bs d =
      let (h, dh, dc) = >>=-eq-ok (decode_header bytes) (λ h. decode_content h bytes) d in
      Layout-Parts h bytes p bs (encode_header-decode_header bytes h bs dh)
        (content-Parts h bytes p dc)
