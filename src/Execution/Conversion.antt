-- ===== src/Execution/Conversion.antt =====
-- near-fetch/src/result.rs: what becomes of the value of a transaction.
use near_fetch.Prelude.{ℕ, List, ◌≡◌, sym}
use mathlib.Core.Path.{subst}
use near_fetch.Near.{Near, Except, value}
use near_fetch.Near.Views.{FinalExecutionStatus, FinalExecutionOutcomeView}
use near_fetch.Error.{ok, map_err, serialization, io}
use near_fetch.Execution.{ExecutionFinalResult, from_view}
use near_fetch.Execution.Success.{raw_bytes, json, borsh}

module _ ⦃near : Near⦄ where
  -- The bytes `bytes` come out of a final result, raw or parsed.
  abbrev pub Decodes : ExecutionFinalResult → List ℕ → Type 1
  Decodes r bytes =
      (raw_bytes r ≡ ok bytes)
      × ((T : Type 0) (from_slice : List ℕ → Except near.SerdeError T)
          → json from_slice r ≡ map_err serialization (from_slice bytes))
      × ((T : Type 0) (try_from_slice : List ℕ → Except near.IoError T)
          → borsh try_from_slice r ≡ map_err io (try_from_slice bytes))

  Decodes-record :
      (bytes : List ℕ) (view : FinalExecutionOutcomeView)
      → near.decode (near.encode bytes) ≡ value bytes
      → Decodes
          (from_view (record view { status = FinalExecutionStatus.success_value bytes }))
          bytes
  unfolding raw_bytes json borsh from_view
  Decodes-record bytes view back = (rw back, λ T from_slice. rw back, λ T try_from_slice. rw back)

  -- If base64 decodes the bytes of a successful execution from what it encoded them to, its raw
  -- bytes are the bytes of its status, and `json` and `borsh` parse just these bytes.
  pub from_view-Decodes :
      (view : FinalExecutionOutcomeView) (bytes : List ℕ)
      → near.decode (near.encode bytes) ≡ value bytes
      → view.status ≡ FinalExecutionStatus.success_value bytes
      → Decodes (from_view view) bytes
  from_view-Decodes view bytes back e =
      subst (λ st. Decodes (from_view (record view { status = st })) bytes) (sym e)
        (Decodes-record bytes view back)
