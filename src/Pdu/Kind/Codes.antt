-- ===== src/Pdu/Kind/Codes.antt =====
-- The wire values of `PduType` and `RejectReason` are read back as written, and nothing else is read.
use msrpce_dcerpc.Base.{ℕ, ok, ◌≡◌, refl, Returns, arith}
use msrpce_dcerpc.Pdu.Kind

pub pdu_type_try_from-pdu_type_code :
    (t : Kind.PduType) → Kind.pdu_type_try_from (Kind.pdu_type_code t) ≡ ok t
unfolding Kind.pdu_type_try_from Kind.pdu_type_code
pdu_type_try_from-pdu_type_code Kind.request = refl
pdu_type_try_from-pdu_type_code _ = refl

-- A value that is read as a PDU type is the code of that type.
pub pdu_type_code_of_ok :
    (v : ℕ) {t : Kind.PduType} → Kind.pdu_type_try_from v ≡ ok t → Kind.pdu_type_code t ≡ v
unfolding Kind.pdu_type_try_from Kind.pdu_type_code
pdu_type_code_of_ok v h = ground arith

pub pdu_type_try_from-Returns : (v : ℕ) → Returns (Kind.pdu_type_try_from v)
unfolding Kind.pdu_type_try_from
pdu_type_try_from-Returns v = ground arith
