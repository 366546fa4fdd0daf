-- ===== src/Coordination/Checks.antt =====
-- The errors that coordination.py raises, and its checks of arguments. Python's `isinstance` tests
-- hold by the types of the model, so what is left of a check is its test of the value.
use Prim.Native.Char.{code}
use instruct_eval.Common.{
  ℕ, String, Bool, true, not, ◌&&◌, ◌||◌, List, [], ◌∷◌, ltb, leb, ◌==◌, nat_eq, string_eq, length,
}
use instruct_eval.Exec.{Exec, raise_if}
use instruct_eval.Coordination.Library.{Bytes}
use instruct_eval.Coordination.Types.{Store}

-- One constructor for each message; the first three take its label.
pub data CoordinationError : Type 0 where
  not_a_digest empty_text too_many_bytes : String → CoordinationError
  corrupt_invocation key_reused unknown_invocation : CoordinationError
  result_cas_failed terminalization_cas_failed : CoordinationError
  negative_ordinal corrupt_gate gate_conflict ordinal_not_next : CoordinationError
  prior_not_zero prior_not_published : CoordinationError
  release_recovery_cas_failed gate_recovery_cas_failed : CoordinationError
  unknown_gate irreversible_commit release_cas_failed publication_cas_failed : CoordinationError
  not_regular_file artifact_unavailable artifact_mismatch publication_conflict : CoordinationError
  sequence_not_positive decision_not_published : CoordinationError
  child_not_issued child_consumed child_cas_failed child_not_claimed_here child_not_claimed :
      CoordinationError
  negative_input_limit negative_result_limit private_limit_too_small : CoordinationError
  -- `sqlite3.IntegrityError`: an `INSERT` broke a constraint
  integrity : CoordinationError

abbrev pub Coordinate : Type 0 → Type 0
Coordinate A = Exec CoordinationError Store A

-- the code points of a text
abbrev pub codes : String → List ℕ
codes String.[] = []
codes (String.◌∷◌ c s) = code c ∷ codes s

-- `character in "0123456789abcdef"`
abbrev is_hex_digit : ℕ → Bool
is_hex_digit c = (leb b'0' c && leb c b'9') || (leb b'a' c && leb c b'f')

abbrev all_hex : List ℕ → Bool
all_hex [] = true
all_hex (c ∷ cs) = is_hex_digit c && all_hex cs

unfoldable pub is_digest : String → Bool
is_digest value = length (codes value) == 64 && all_hex (codes value)

-- `_hash_text`
unfoldable pub check_digest : String → String → Coordinate (Unit {0})
check_digest value label = raise_if (not (is_digest value)) (not_a_digest label)

-- `_nonempty`
unfoldable pub check_nonempty : String → String → Coordinate (Unit {0})
check_nonempty value label = raise_if (value == "") (empty_text label)

-- `_bytes`
unfoldable pub check_bytes : Bytes → String → ℕ → Coordinate (Unit {0})
check_bytes value label maximum = raise_if (ltb maximum (length value)) (too_many_bytes label)
