-- ===== src/Auth/Hex.antt =====
-- Bytes in hexadecimal, as Node's Buffer prints and reads them for auth/src/services/auth.service.ts:
-- `toString('hex')` and `Buffer.from(text, 'hex')`.
use yovi_es1c.Prelude.{
  ℕ, ◌+◌, ◌-◌, ◌*◌, ◌/◌, ◌%◌, ◌<◌, ◌≡◌, ◌≢◌, refl, ap, ◌∙◌, ◌&&◌, ltb, leb, if◌then◌else◌, Option,
  none, some, List, [], ◌∷◌, All, arith,
}
use yovi_es1c.Prelude.Text.{Text, Without}

abbrev pub Bytes : Type 0
Bytes = List ℕ

-- A digit below sixteen.
unfoldable pub digit : ℕ → ℕ
digit n = if ltb n 10 then 48 + n else 87 + n

unfoldable pub hex_of : Bytes → Text
hex_of [] = []
hex_of (b ∷ bs) = digit (b / 16) ∷ digit (b % 16) ∷ hex_of bs

-- The value of a digit, in either case.
unfoldable pub nibble : ℕ → Option ℕ
nibble c =
    if leb 48 c && leb c 57
    then some (c - 48)
    else if leb 97 c && leb c 102
    then some (c - 87)
    else if leb 65 c && leb c 70
    then some (c - 55)
    else none

-- The byte of two digits before the bytes that follow.
abbrev prepend : Option ℕ → Option ℕ → Bytes → Bytes
prepend (some high) (some low) rest = (high * 16 + low) ∷ rest
prepend (some high) none rest = []
prepend none low rest = []

-- Reading stops at the first pair that is not two digits; a last single character is dropped.
unfoldable pub bytes_of : Text → Bytes
bytes_of [] = []
bytes_of (a ∷ []) = []
bytes_of (a ∷ b ∷ t) = let rest = bytes_of t in prepend (nibble a) (nibble b) rest

nibble-digit : (n : ℕ) → n < 16 → nibble (digit n) ≡ some n
unfolding nibble digit
nibble-digit n h = ground arith

digit-ne-colon : (n : ℕ) → digit n ≢ b':'
unfolding digit
digit-ne-colon n e = ground arith

bytes_of-pair :
    (a c h l : ℕ) (t : Text)
    → nibble a ≡ some h
    → nibble c ≡ some l
    → bytes_of (a ∷ c ∷ t) ≡ (h * 16 + l) ∷ bytes_of t
unfolding bytes_of
bytes_of-pair a c h l t e f =
    ap (λ (x : Option ℕ). prepend x (nibble c) (bytes_of t)) e
    ∙ ap (λ (x : Option ℕ). prepend (some h) x (bytes_of t)) f

-- Bytes that are printed are read back.
pub bytes_of-hex_of : (bs : Bytes) → All (λ b. b < 256) bs → bytes_of (hex_of bs) ≡ bs
unfolding bytes_of hex_of
bytes_of-hex_of [] h = refl
bytes_of-hex_of (b ∷ bs) (lt, h) =
    let high = nibble-digit (b / 16) (omega arith) in
    let low = nibble-digit (b % 16) (omega arith) in
    let whole : (b / 16) * 16 + b % 16 ≡ b = omega arith in
    bytes_of-pair (digit (b / 16)) (digit (b % 16)) (b / 16) (b % 16) (hex_of bs) high low
    ∙ ap (λ (n : ℕ). n ∷ bytes_of (hex_of bs)) whole
    ∙ ap (◌∷◌ b) (bytes_of-hex_of bs h)

-- A printed text has no colon in it.
pub hex_of-Without : (bs : Bytes) → Without b':' (hex_of bs)
unfolding hex_of
hex_of-Without [] = tt
hex_of-Without (b ∷ bs) = (digit-ne-colon (b / 16), (digit-ne-colon (b % 16), hex_of-Without bs))
