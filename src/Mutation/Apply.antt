-- ===== src/Mutation/Apply.antt =====
-- kernel/mutation_authority.py: `ControlledPatchApplicator`. Every test comes before the one write;
-- receipts stand less their time stamps.
pub mod Written
use synapx_harness.Prelude.{ℕ, String, str_eq, is_member, ◌==◌}
use synapx_harness.Prelude.{Bool, true, false, ◌&&◌, ◌||◌, not, if◌then◌else◌}
use synapx_harness.Prelude.{Option, none, some, List, [], ◌∷◌}
use synapx_harness.Prelude.Results.{Result, ok, err, ◌>>=◌, ◌>>◌, raise_if}
use synapx_harness.Mutation.Bytes.{
  Bytes, encode, count, replace, normalize_line_endings, is_no_bytes, same_bytes,
}
use synapx_harness.Mutation.Proposal.{PatchProposal}
use synapx_harness.Mutation.Files.{Store, read_file, write_file}
use synapx_harness.Mutation.Gates.{
  Decision, allow, deny, AdmissionReceipt, ApplyAuthority, issued, not_issued, PathGateReceipt,
}

-- The reasons of an empty receipt.
pub data Denial : Type 0 where
  admission_denied path_gate_denied authority_not_issued : Denial
  no_paths several_paths not_authorized : Denial
  proposal_sha_mismatch canonical_sha_mismatch : Denial
  receipts_revision_mismatch current_revision_mismatch : Denial
  escapes_root not_a_file no_before_hash before_hash_mismatch : Denial
  no_old_block no_new_block empty_old empty_new old_equals_new : Denial
  old_not_once : ℕ → Denial

pub record ApplyReceipt : Type 0 where
  pub applied_paths : List String
  pub before_sha256 : String
  pub after_sha256 : String
  pub patch_sha256 : String
  pub canonical_patch_sha256 : String
  pub write_count : ℕ
  pub authorization_ref : String
  pub admission_receipt_id : String
  pub path_gate_receipt_id : String
  pub source_revision : String
  pub denied_reason : Option Denial

abbrev pub is_allow : Decision → Bool
is_allow allow = true
is_allow deny = false

abbrev pub is_issued : ApplyAuthority → Bool
is_issued issued = true
is_issued not_issued = false

-- The one path of a proposal that has one.
abbrev pub single_path : List String → Result Denial String
single_path [] = err no_paths
single_path (p ∷ []) = ok p
single_path (p ∷ q ∷ ps) = err several_paths

abbrev pub or_denied {ℓ} : {A : Type ℓ} → Denial → Option A → Result Denial A
or_denied e none = err e
or_denied e (some a) = ok a

abbrev pub first_block : Denial → List String → Result Denial String
first_block e [] = err e
first_block e (l ∷ ls) = ok l

-- What is to be written, where, and the digest of what stands there.
pub record Plan : Type 0 where
  pub path : String
  pub target : String
  pub before_sha : String
  pub after_bytes : Bytes

-- `data.replace(b"\r\n", b"\n")` under the flag; without a CRLF in it, `replace` changes nothing.
unfoldable pub line_endings : Bool → Bytes → Bytes
line_endings true data_bytes = normalize_line_endings data_bytes
line_endings false data_bytes = data_bytes

-- The tests on the two texts, and the bytes that follow.
unfoldable pub replaced : Bool → Bytes → Bytes → Bytes → Result Denial Bytes
replaced normalize before_bytes old_bytes new_bytes = do
  raise_if (is_no_bytes old_bytes) empty_old
  raise_if (is_no_bytes new_bytes) empty_new
  raise_if (same_bytes old_bytes new_bytes) old_equals_new
  raise_if (not (count old_bytes before_bytes == 1)) (old_not_once (count old_bytes before_bytes))
  ok (line_endings normalize (replace old_bytes new_bytes before_bytes))

-- The authority chain: the one path that the receipts let through.
unfoldable pub authorized_path :
    PatchProposal → PathGateReceipt → AdmissionReceipt → String → Result Denial String
authorized_path proposal gate admission current_revision = do
  raise_if (not (is_allow admission.admission_decision)) admission_denied
  raise_if (not (is_allow gate.gate_decision)) path_gate_denied
  raise_if (not (is_issued gate.apply_authority)) authority_not_issued
  path ← single_path proposal.paths
  raise_if (not (is_member path gate.authorized_paths)) not_authorized
  raise_if (not (str_eq proposal.sha256 gate.proposal_sha256)) proposal_sha_mismatch
  raise_if (not (str_eq proposal.canonical_patch_sha256 gate.canonical_patch_sha256))
      canonical_sha_mismatch
  raise_if (not (str_eq admission.source_revision gate.source_revision)) receipts_revision_mismatch
  raise_if (not (str_eq admission.source_revision current_revision)) current_revision_mismatch
  ok path

-- `_empty_receipt`
abbrev pub empty_receipt : PathGateReceipt → AdmissionReceipt → Denial → ApplyReceipt
empty_receipt gate admission denial = record {
  applied_paths = [];
  before_sha256 = "";
  after_sha256 = "";
  patch_sha256 = "";
  canonical_patch_sha256 = "";
  write_count = 0;
  authorization_ref = admission.receipt_id;
  admission_receipt_id = admission.receipt_id;
  path_gate_receipt_id = gate.admission_receipt_id;
  source_revision = admission.source_revision;
  denied_reason = some denial;
}

module _ (digest : Bytes → String) where
  abbrev pub written_receipt :
      PatchProposal → PathGateReceipt → AdmissionReceipt → Plan → ApplyReceipt
  written_receipt proposal gate admission p = record {
    applied_paths = p.path ∷ [];
    before_sha256 = p.before_sha;
    after_sha256 = digest p.after_bytes;
    patch_sha256 = proposal.sha256;
    canonical_patch_sha256 = proposal.canonical_patch_sha256;
    write_count = 1;
    authorization_ref = admission.receipt_id;
    admission_receipt_id = admission.receipt_id;
    path_gate_receipt_id = gate.admission_receipt_id;
    source_revision = admission.source_revision;
    denied_reason = none;
  }

  unfoldable pub carry_out :
      PatchProposal
      → PathGateReceipt
      → AdmissionReceipt
      → Store
      → Result Denial Plan
      → ApplyReceipt × Store
  carry_out proposal gate admission store (err e) = (empty_receipt gate admission e, store)
  carry_out proposal gate admission store (ok p) =
      (written_receipt proposal gate admission p, write_file p.target p.after_bytes store)

module _ (digest : Bytes → String) (resolve : String → Option String) where
  -- All tests of `apply` before its write.
  unfoldable pub plan :
      PatchProposal
      → PathGateReceipt
      → AdmissionReceipt
      → (String → Option String)
      → String
      → Bool
      → Store
      → Result Denial Plan
  plan proposal gate admission expected current_revision normalize store = do
    path ← authorized_path proposal gate admission current_revision
    target ← or_denied escapes_root (resolve path)
    raw_bytes ← or_denied not_a_file (read_file target store)
    expected_before ← or_denied no_before_hash (expected path)
    raise_if (not (str_eq (digest (line_endings normalize raw_bytes)) expected_before))
        before_hash_mismatch
    old_text ← first_block no_old_block proposal.old_lines
    new_text ← first_block no_new_block proposal.new_lines
    after_bytes ←
        replaced normalize (line_endings normalize raw_bytes) (encode old_text) (encode new_text)
    ok (record {
      path = path;
      target = target;
      before_sha = digest (line_endings normalize raw_bytes);
      after_bytes = after_bytes;
    })

  unfoldable pub apply :
      PatchProposal
      → PathGateReceipt
      → AdmissionReceipt
      → (String → Option String)
      → String
      → Bool
      → Store
      → ApplyReceipt × Store
  apply proposal gate admission expected current_revision normalize store =
      carry_out digest proposal gate admission store
        (plan proposal gate admission expected current_revision normalize store)
