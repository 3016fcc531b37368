-- ===== src/Evidence/Hash.antt =====
-- The tests of evidence/evidence_validator.py and evidence/command_receipt.py on the text of a hash.
use synapx_harness.Prelude.{String, str_eq, has_part, count_chars, ◌==◌, Bool, true, ◌&&◌}

abbrev pub placeholder_hash : String
placeholder_hash = "aaaaaaaaaaaaaaaaaaaaaaaaaaaaaaaaaaaaaaaaaaaaaaaaaaaaaaaaaaaaaaaa"

-- `all(c in "0123456789abcdef" for c in text)`
unfoldable pub is_lower_hex : String → Bool
is_lower_hex String.[] = true
is_lower_hex (String.◌∷◌ c s) = has_part (String.◌∷◌ c "") "0123456789abcdef" && is_lower_hex s

unfoldable pub validate_hash_format : String → Bool
validate_hash_format s = (count_chars s == 64) && is_lower_hex s

unfoldable pub check_placeholder_hash : String → Bool
check_placeholder_hash s = str_eq s placeholder_hash
