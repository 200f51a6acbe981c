-- ===== src/Text/Encode.antt =====
-- `char::encode_utf8` and `str::as_bytes`.
use rong.Base.{
  ℕ, ◌+◌, ◌/◌, ◌%◌, ◌≡◌, ◌≢◌, true, List, [], ◌∷◌, ◌++◌, arith, ltb, if◌then◌else◌, All,
}
use rong.Text.{Text}

unfoldable pub encode_char : ℕ → List ℕ
encode_char c =
    if ltb c 0x80
    then c ∷ []
    else if ltb c 0x800
    then (0xc0 + c / 64) ∷ (0x80 + c % 64) ∷ []
    else if ltb c 0x10000
    then (0xe0 + c / 4096) ∷ (0x80 + c / 64 % 64) ∷ (0x80 + c % 64) ∷ []
    else (0xf0 + c / 262144) ∷ (0x80 + c / 4096 % 64) ∷ (0x80 + c / 64 % 64) ∷ (0x80 + c % 64) ∷ []

unfoldable pub as_bytes : Text → List ℕ
unfolding encode_char
as_bytes [] = []
as_bytes (c ∷ s) = encode_char c ++ as_bytes s

-- An ASCII byte stands for the character itself alone.
pub encode_char_ascii : (c b : ℕ) → ltb b 0x80 ≡ true → c ≢ b → All (λ x. x ≢ b) (encode_char c)
unfolding encode_char
encode_char_ascii c b h k = ground arith
