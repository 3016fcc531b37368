-- ===== src/Storage/Census/Detection.antt =====
-- Which finished runs can be deleted at all.
use mathlib.Core.List.{Memᴰ}
use synapx_harness.Prelude.{String, ◌≡◌, has_part, ends_with, Bool, true, false, ◌&&◌, any}
use synapx_harness.Prelude.{List, filter, arith, refl, if◌then◌else◌}
use synapx_harness.Prelude.Members.{any-false_at, any-witness, Memᴰ-map_inv, Memᴰ-filter_inv}
use synapx_harness.Prelude.Parts.{has_part_trans}
use synapx_harness.Storage.Catalog.{RunStatus, complete}
use synapx_harness.Storage.Census.{
  FileEntry, RunDir, is_terminal_signal, is_seal_name, signals, status_of_signals, detect_status,
  detect_sealed_evidence,
}

status_of_signals-complete :
    (names : List String) → status_of_signals names ≡ complete → any is_terminal_signal names ≡ true
unfolding status_of_signals
status_of_signals-complete names h = ground arith

-- A terminal signal that is no seal names a `final_close` file.
terminal_without_seal :
    (s : String)
    → is_terminal_signal s ≡ true
    → is_seal_name s ≡ false
    → (has_part "final_close" s ≡ true) × (ends_with s ".json" ≡ true) × (has_part "seal" s ≡ false)
terminal_without_seal s terminal unsealed = ground (
  arith,
  has_part_trans "final_seal" "seal" "final_" "" s refl,
  has_part_trans "close_seal" "seal" "close_" "" s refl,
)

complete_is_dir :
    (there : Bool) (names : List String)
    → (if there then status_of_signals names else RunStatus.unknown) ≡ complete
    → status_of_signals names ≡ complete
complete_is_dir there names h = ground arith

unsealed_file : (file sealed : Bool) → file ≡ true → (file && sealed) ≡ false → sealed ≡ false
unsealed_file file sealed f h = ground arith

-- Only a `final_close` file makes a run both complete and free of sealed evidence: if the status is
-- COMPLETE and no sealed evidence is found, the directory has a `.json` file whose lower-case name
-- has `final_close` as a part and `seal` not.
pub complete_unsealed :
    (d : RunDir)
    → detect_status d ≡ complete
    → detect_sealed_evidence d ≡ false
    → (e : FileEntry) × Memᴰ e d.entries
      × (e.is_file ≡ true)
      × (has_part "final_close" e.name_lower ≡ true)
      × (ends_with e.name_lower ".json" ≡ true)
      × (has_part "seal" e.name_lower ≡ false)
unfolding detect_status detect_sealed_evidence
complete_unsealed d status unsealed =
    let (name, among, terminal) =
      any-witness is_terminal_signal (signals d)
        (status_of_signals-complete (signals d) (complete_is_dir d.is_dir (signals d) status)) in
    let (e, among_files, named) =
      Memᴰ-map_inv (λ (f : FileEntry). f.name_lower)
        (filter (λ (f : FileEntry). f.is_file) d.entries) among in
    let (inside, file) = Memᴰ-filter_inv (λ (f : FileEntry). f.is_file) d.entries among_files in
    let no_seal =
      any-false_at (λ (f : FileEntry). f.is_file && is_seal_name f.name_lower) d.entries unsealed
        inside in
    let (closes, json, seal_free) =
      terminal_without_seal e.name_lower (rw named at terminal)
        (unsealed_file e.is_file _ file no_seal) in
    (e, inside, file, closes, json, seal_free)
