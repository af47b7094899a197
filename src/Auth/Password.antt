-- ===== src/Auth/Password.antt =====
-- hashPassword and verifyPassword of auth/src/services/auth.service.ts. The bytes that
-- scrypt derives from a password and a salt are a parameter; `none` is the exception that
-- timingSafeEqual throws at two lengths.
use yovi_es1c.Prelude.{
  All, ◌<◌, ℕ, ◌≡◌, ◌≢◌, ◌↔◌, refl, Bool, true, false, ◌||◌, ◌==◌, if◌then◌else◌, Option, none,
  some, List, [], ◌∷◌, ◌++◌, length, arith, ap,
}
use yovi_es1c.Auth.Hex.{Bytes, hex_of, bytes_of, bytes_of-hex_of, hex_of-Without}
use yovi_es1c.Prelude.Words.{same_text, same_text_iff, is_empty}
use yovi_es1c.Prelude.Text.{Text, Without, split, split-join, join}

abbrev pub colon : ℕ
colon = b':'

abbrev pub Derive : Type 0
Derive = Text → Text → Bytes

-- `${salt}:${hash}`.
unfoldable pub hash_password : Derive → Text → Text → Text
hash_password derive password salt = salt ++ (colon ∷ hex_of (derive password salt))

-- timingSafeEqual.
abbrev timing_safe_equal : Bytes → Bytes → Option Bool
timing_safe_equal derived stored =
    if length derived == length stored then some (same_text derived stored) else none

-- verifyPassword at the parts of the stored text.
unfoldable pub verify_parts : Derive → Text → List Text → Option Bool
verify_parts derive password [] = some false
verify_parts derive password (salt ∷ []) = some false
verify_parts derive password (salt ∷ hash_hex ∷ rest) =
    if is_empty salt || is_empty hash_hex
    then some false
    else timing_safe_equal (derive password salt) (bytes_of hash_hex)

unfoldable pub verify_password : Derive → Text → Text → Option Bool
verify_password derive password stored = verify_parts derive password (split colon stored)

-- What is asked of scrypt's key: it consists of bytes, it is not empty, and its length is the same
-- for every password and salt.
pub record IsKey (derive : Derive) : Type 0 where
  pub are_bytes : (password salt : Text) → All (λ b. b < 256) (derive password salt)
  pub not_empty : (password salt : Text) → derive password salt ≢ []
  pub fixed_length : (p q s t : Text) → length (derive p s) ≡ length (derive q t)

not_empty-is_empty : (t : Text) → t ≢ [] → is_empty t ≡ false
not_empty-is_empty [] ne = absurd (ne refl)
not_empty-is_empty (c ∷ t) ne = refl

hex_of-is_empty : (bs : Bytes) → bs ≢ [] → is_empty (hex_of bs) ≡ false
unfolding hex_of
hex_of-is_empty [] ne = absurd (ne refl)
hex_of-is_empty (b ∷ bs) ne = refl

split-hash_password :
    (derive : Derive) (password salt : Text)
    → Without colon salt
    → split colon (hash_password derive password salt) ≡ salt ∷ hex_of (derive password salt) ∷ []
unfolding hash_password join
split-hash_password derive password salt w =
    split-join colon (salt ∷ hex_of (derive password salt) ∷ []) (λ e. cc)
      (w, (hex_of-Without (derive password salt), tt))

-- A password is accepted against the stored text of another one exactly when both give the same key
-- with that text's salt; so a password is accepted against its own. The salt is not empty and holds
-- no colon, and every key is a list of bytes of one positive length.
pub verify_password-hash_password :
    (derive : Derive) (password other salt : Text)
    → IsKey derive
    → Without colon salt
    → salt ≢ []
    → (verify_password derive password (hash_password derive other salt) ≡ some true)
      ↔ (derive password salt ≡ derive other salt)
unfolding verify_password verify_parts
verify_password-hash_password derive password other salt h w ne =
    let s = not_empty-is_empty salt ne in
    let d = hex_of-is_empty (derive other salt) (h.not_empty other salt) in
    let read = bytes_of-hex_of (derive other salt) (h.are_bytes other salt) in
    let l : (length (derive password salt) == length (derive other salt)) ≡ true =
      ground (arith, h.fixed_length password other salt salt) in
    let (to, from) = same_text_iff (derive password salt) (derive other salt) in
    rw (split-hash_password derive other salt w, verify_parts, s, d, read, l)
      (λ e. to (cc), λ e. ap some (from e))
