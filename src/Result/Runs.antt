-- ===== src/Result/Runs.antt =====
-- Runs of the result protocol, and concrete cases of its theorems.
use suprminer_fpga.Prelude.{◌≡◌, refl, true, false, [], ◌∷◌, some}
use suprminer_fpga.Protocol.Samples.{busy, with_result}
use suprminer_fpga.Result.{
  ResultKey, ResultDisposition, ResultState, result_init, key_from_status, classify_key, classify,
  record_processed, mark_processed, ack_allowed,
}
use suprminer_fpga.Result.Sequence.{ResultReach, Inv, ResultReach-Inv}

abbrev old_key : ResultKey
old_key = record { session = 9; epoch = 9; sequence = 9; nonce = 9; hash7 = 9 }

abbrev first_key : ResultKey
first_key = record { session = 5; epoch = 1; sequence = 1; nonce = 42; hash7 = 7 }

abbrev one_processed : ResultState
one_processed = (mark_processed (result_init old_key) with_result first_key).0

empty_fifo : (classify (result_init old_key) (busy 100)).0 ≡ ResultDisposition.empty
unfolding classify
empty_fifo = refl

not_yet : ack_allowed (result_init old_key) with_result ≡ false
unfolding ack_allowed key_from_status result_init
not_yet = refl

first_is_new :
    classify (result_init old_key) with_result ≡ (ResultDisposition.fresh, some first_key)
unfolding classify key_from_status classify_key result_init
first_is_new = refl

first_marked : mark_processed (result_init old_key) with_result first_key ≡ (one_processed, true)
unfolding mark_processed key_from_status record_processed result_init
first_marked = refl

ResultReach-Inv_example : Inv one_processed (first_key ∷ [])
ResultReach-Inv_example =
    ResultReach-Inv (ResultReach.marks with_result first_key ResultReach.starts first_marked)
