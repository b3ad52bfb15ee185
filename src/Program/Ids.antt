-- ===== src/Program/Ids.antt =====
-- lee/state_machine/core/src/program/mod.rs: the conversions between program identifiers, eight
-- 32-bit words, and account identifiers, 32 bytes.
use native.Mathlib.Nat.{pow-zero, pow-suc}
use lssa.Prelude.{ℕ, zero, suc, ◌*◌, ◌/◌, ◌^◌, ◌<◌, ◌≡◌, refl, ◌∙◌, List, [], ◌∷◌, ◌++◌, arith}
use lssa.Prelude.Digits.{to_digits, from_digits}

-- The eight words of a program identifier.
abbrev pub program_words : ℕ → List ℕ
program_words pid = to_digits (2 ^ 32) 8 pid

-- The 32 bytes of an account identifier: `AccountId::value`.
abbrev pub account_bytes : ℕ → List ℕ
account_bytes id = to_digits 256 32 id

-- `AccountId::new`.
abbrev account_id_new : List ℕ → ℕ
account_id_new bytes = from_digits 256 bytes

-- The bytes of each word in turn.
abbrev pub words_to_bytes : List ℕ → List ℕ
words_to_bytes [] = []
words_to_bytes (w ∷ ws) = to_digits 256 4 w ++ words_to_bytes ws

-- `AccountId::from(ProgramId)`.
unfoldable pub to_account_id : ℕ → ℕ
to_account_id pid = account_id_new (words_to_bytes (program_words pid))

-- `chunks_exact(4)`, with `u32::from_le_bytes` of each chunk: a shorter rest is dropped.
abbrev chunk_words : List ℕ → List ℕ
chunk_words (a ∷ b ∷ c ∷ d ∷ bytes) = from_digits 256 (a ∷ b ∷ c ∷ d ∷ []) ∷ chunk_words bytes
chunk_words _ = []

-- `ProgramId::from(AccountId)`.
unfoldable pub to_program_id : ℕ → ℕ
to_program_id id = from_digits (2 ^ 32) (chunk_words (account_bytes id))

div_word-lt : (x p : ℕ) → x < p * 2 ^ 32 → x / 2 ^ 32 < p
div_word-lt x p h = omega arith

div_byte-lt : (x p : ℕ) → x < p * 256 → x / 256 < p
div_byte-lt x p h = omega arith

-- Words and bytes spell back the number that they are taken from, if they are enough.
words_round : (n x : ℕ) → x < (2 ^ 32) ^ n → from_digits (2 ^ 32) (to_digits (2 ^ 32) n x) ≡ x
words_round zero x h = omega (arith, rw (pow-zero (2 ^ 32)) at h)
words_round (suc n) x h = omega (
  arith,
  words_round n (x / 2 ^ 32) (div_word-lt x ((2 ^ 32) ^ n) (rw (pow-suc (2 ^ 32) n) at h)),
)

bytes_round : (n x : ℕ) → x < 256 ^ n → from_digits 256 (to_digits 256 n x) ≡ x
bytes_round zero x h = omega (arith, rw (pow-zero 256) at h)
bytes_round (suc n) x h =
    omega (arith, bytes_round n (x / 256) (div_byte-lt x (256 ^ n) (rw (pow-suc 256 n) at h)))

-- The bytes of words below 2^32 spell what the words spell.
words_to_bytes_value :
    (n x : ℕ)
    → from_digits 256 (words_to_bytes (to_digits (2 ^ 32) n x))
      ≡ from_digits (2 ^ 32) (to_digits (2 ^ 32) n x)
words_to_bytes_value zero x = refl
words_to_bytes_value (suc n) x = omega (arith, words_to_bytes_value n (x / 2 ^ 32))

-- `k` groups of four bytes.
abbrev quads : ℕ → ℕ
quads zero = zero
quads (suc k) = suc (suc (suc (suc (quads k))))

chunk_words_value :
    (k x : ℕ)
    → from_digits (2 ^ 32) (chunk_words (to_digits 256 (quads k) x))
      ≡ from_digits 256 (to_digits 256 (quads k) x)
chunk_words_value zero x = refl
chunk_words_value (suc k) x = omega (arith, chunk_words_value k (x / 256 / 256 / 256 / 256))

-- The conversion is one to one: it keeps the number that the words spell.
pub to_account_id-eq : (pid : ℕ) → pid < 2 ^ 256 → to_account_id pid ≡ pid
unfolding to_account_id
to_account_id-eq pid h = words_to_bytes_value 8 pid ∙ words_round 8 pid h

pub to_program_id-eq : (id : ℕ) → id < 2 ^ 256 → to_program_id id ≡ id
unfolding to_program_id
to_program_id-eq id h = chunk_words_value 8 id ∙ bytes_round 32 id h

-- A program's identifier below 2^256 is recovered from that of its storage account, and the
-- other way round.
pub program_id_round_trip :
    (id : ℕ)
    → id < 2 ^ 256
    → (to_program_id (to_account_id id) ≡ id) × (to_account_id (to_program_id id) ≡ id)
program_id_round_trip id h = (
  rw (to_account_id-eq id h) (to_program_id-eq id h),
  rw (to_program_id-eq id h) (to_account_id-eq id h),
)
