-- ===== src/Auth/Wire.antt =====
-- The wire values of src/auth.rs are read back as written, and no other byte is read.
use msrpce_dcerpc.Base.{ℕ, ok, ◌≡◌, refl, Returns, arith}
use msrpce_dcerpc.Auth.Codes.{AuthLevel, connect, auth_level_code, auth_level_try_from}
use msrpce_dcerpc.Auth.Codes.{RpcAuthType, win_nt, auth_type_code, auth_type_try_from}

pub auth_level_try_from-auth_level_code :
    (l : AuthLevel) → auth_level_try_from (auth_level_code l) ≡ ok l
unfolding auth_level_try_from auth_level_code
auth_level_try_from-auth_level_code connect = refl
auth_level_try_from-auth_level_code _ = refl

pub auth_type_try_from-auth_type_code :
    (t : RpcAuthType) → auth_type_try_from (auth_type_code t) ≡ ok t
unfolding auth_type_try_from auth_type_code
auth_type_try_from-auth_type_code win_nt = refl
auth_type_try_from-auth_type_code _ = refl

pub auth_level_code_of_ok :
    (v : ℕ) (l : AuthLevel) → auth_level_try_from v ≡ ok l → auth_level_code l ≡ v
unfolding auth_level_try_from auth_level_code
auth_level_code_of_ok v l h = ground arith

pub auth_type_code_of_ok :
    (v : ℕ) (t : RpcAuthType) → auth_type_try_from v ≡ ok t → auth_type_code t ≡ v
unfolding auth_type_try_from auth_type_code
auth_type_code_of_ok v t h = ground arith

pub auth_level_try_from-Returns : (v : ℕ) → Returns (auth_level_try_from v)
unfolding auth_level_try_from
auth_level_try_from-Returns v = ground arith

pub auth_type_try_from-Returns : (v : ℕ) → Returns (auth_type_try_from v)
unfolding auth_type_try_from
auth_type_try_from-Returns v = ground arith
