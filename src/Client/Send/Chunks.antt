-- ===== src/Client/Send/Chunks.antt =====
-- How a stub is cut into fragments, as a specification: pieces of the greatest size, in order, the
-- first and the last marked.
use native.Mathlib.Decide.{dec_le}
use msrpce_dcerpc.Base.{ℕ, zero, suc, ◌≤◌, ◌<◌, Bytes, length, take, drop, concat, All, leb}
use msrpce_dcerpc.Base.{
  ◌≡◌, refl, ap, arith, Bool, true, false, List, [], ◌∷◌, if◌then◌else◌, le→leb,
}
use msrpce_dcerpc.Base.{length-take, length-drop, take-append-drop, append-nil}

-- The pieces of a stub, of at most `max` bytes each; `rounds` bounds their number.
pub chunks : ℕ → ℕ → Bytes → List Bytes
chunks zero max stub = stub ∷ []
chunks (suc rounds) max stub =
    let rest = chunks rounds max (drop max stub) in
    if leb (length stub) max then stub ∷ [] else take max stub ∷ rest

-- A fragment: its flags and its piece of the stub.
pub record Fragment : Type 0 where
  pub flags : ℕ
  pub piece : Bytes

-- The flags by a fragment's place.
abbrev pub place_flags : Bool → Bool → ℕ
place_flags true true = 0x03
place_flags true false = 0x01
place_flags false true = 0x02
place_flags false false = 0x00

-- The pieces with their flags: `first` says whether the first fragment is among them.
abbrev pub mark : Bool → List Bytes → List Fragment
mark first [] = []
mark first (x ∷ []) = record { flags = place_flags first true; piece = x } ∷ []
mark first (x ∷ (y ∷ ys)) =
    record { flags = place_flags first false; piece = x } ∷ mark false (y ∷ ys)

abbrev pub pieces : List Fragment → List Bytes
pieces [] = []
pieces (f ∷ fs) = f.piece ∷ pieces fs

unfoldable pub fragments : ℕ → Bytes → List Fragment
unfolding chunks
fragments max stub = mark true (chunks (length stub) max stub)

concat-chunks : (rounds max : ℕ) (stub : Bytes) → concat (chunks rounds max stub) ≡ stub
unfolding chunks
concat-chunks zero max stub = append-nil stub
concat-chunks (suc rounds) max stub = elim (dec_le (length stub) max) [
  | yes h ↦ rw (le→leb (length stub) max h) (append-nil stub)
  | no h ↦ ground (arith, concat-chunks rounds max (drop max stub), take-append-drop max stub)
]

abbrev pub IsPiece : ℕ → Bytes → Type 0
IsPiece max x = length x ≤ max

chunks_bounded :
    (rounds max : ℕ) (stub : Bytes)
    → 0 < max
    → length stub ≤ rounds
    → All (IsPiece max) (chunks rounds max stub)
unfolding chunks
chunks_bounded zero max stub pos h = omega arith
chunks_bounded (suc rounds) max stub pos h = ground (
  arith,
  chunks_bounded rounds max (drop max stub) pos,
  length-drop max stub,
  length-take max stub,
)

pieces-mark : (first : Bool) (xs : List Bytes) → pieces (mark first xs) ≡ xs
pieces-mark first [] = refl
pieces-mark first (x ∷ []) = refl
pieces-mark first (x ∷ (y ∷ ys)) = ap (λ (t : List Bytes). x ∷ t) (pieces-mark false (y ∷ ys))

-- The fragments' pieces, put together, are the stub, and none is too large.
pub concat-fragments : (max : ℕ) (stub : Bytes) → concat (pieces (fragments max stub)) ≡ stub
unfolding fragments
concat-fragments max stub =
    rw (pieces-mark true (chunks (length stub) max stub)) (concat-chunks (length stub) max stub)

-- `chunks` does not depend on its bound once that is large enough.
pub chunks_rounds :
    (m k max : ℕ) (stub : Bytes)
    → 0 < max
    → length stub ≤ m
    → length stub ≤ k
    → chunks m max stub ≡ chunks k max stub
unfolding chunks
chunks_rounds zero zero max stub pos hm hk = refl
chunks_rounds zero (suc k) max stub pos hm hk = ground arith
chunks_rounds (suc m) zero max stub pos hm hk = ground arith
chunks_rounds (suc m) (suc k) max stub pos hm hk =
    ground (arith, chunks_rounds m k max (drop max stub) pos, length-drop max stub)

-- There is a first piece.
pub chunks_cons :
    (rounds max : ℕ) (stub : Bytes)
    → (x : Bytes) × (xs : List Bytes) × (chunks rounds max stub ≡ x ∷ xs)
unfolding chunks
chunks_cons zero max stub = (stub, [], refl)
chunks_cons (suc rounds) max stub = elim (dec_le (length stub) max) [
  | yes h ↦ (stub, [], rw (le→leb (length stub) max h) refl)
  | no h ↦ (take max stub, chunks rounds max (drop max stub), ground arith)
]

pub chunks_last :
    (rounds max : ℕ) (stub : Bytes) → length stub ≤ max → chunks rounds max stub ≡ stub ∷ []
unfolding chunks
chunks_last zero max stub h = refl
chunks_last (suc rounds) max stub h = rw (le→leb (length stub) max h) refl

pub chunks_more :
    (rounds max : ℕ) (stub : Bytes)
    → max < length stub
    → chunks (suc rounds) max stub ≡ take max stub ∷ chunks rounds max (drop max stub)
unfolding chunks
chunks_more rounds max stub h = ground arith

pub mark_more :
    (first : Bool) (x : Bytes) (xs : List Bytes) {y : Bytes} {ys : List Bytes}
    → xs ≡ y ∷ ys
    → mark first (x ∷ xs) ≡ record { flags = place_flags first false; piece = x } ∷ mark false xs
mark_more first x xs e = rw e refl

pub fragments_nil : (max : ℕ) → fragments max [] ≡ record { flags = 0x03; piece = [] } ∷ []
unfolding fragments chunks
fragments_nil max = refl

-- The flags are those of a place, and the piece is not too large.
abbrev pub IsFragment : ℕ → Fragment → Type 0
IsFragment max f =
    (length f.piece ≤ max) × (first : Bool) × (last : Bool) × (f.flags ≡ place_flags first last)

mark-IsFragment :
    (max : ℕ) (first : Bool) (xs : List Bytes)
    → All (IsPiece max) xs
    → All (IsFragment max) (mark first xs)
mark-IsFragment max first [] w = tt
mark-IsFragment max first (x ∷ []) w = ((w.0, first, true, refl), tt)
mark-IsFragment max first (x ∷ (y ∷ ys)) w =
    ((w.0, first, false, refl), mark-IsFragment max false (y ∷ ys) w.1)

pub fragments-IsFragment :
    (max : ℕ) (stub : Bytes) → 0 < max → All (IsFragment max) (fragments max stub)
unfolding fragments
fragments-IsFragment max stub pos =
    mark-IsFragment max true (chunks (length stub) max stub)
      (chunks_bounded (length stub) max stub pos (omega arith))
